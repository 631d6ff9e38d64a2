-- ===== src/Telemetry/Payload.antt =====
-- What ParsePayload of internal/telemetry/ingest.go accepts as a number.
use iot_backend.Base.{false, Option, none, some, ◌≡◌, refl, arith}
use iot_backend.Models.{Time, Float, Reading, is_nan_or_inf}
use iot_backend.Telemetry.{
  Json, number, float, Fields, Formats, finite, number_value, number_field, timestamp,
  parse_payload, ◌>>=◌,
}

finite_sound : (g f : Float) → finite g ≡ some f → is_nan_or_inf f ≡ false
unfolding finite
finite_sound g f e = ground arith

bind-some {ℓ κ} :
    {A : Type ℓ} {B : Type κ} (m : Option A) (k : A → Option B) (b : B)
    → (m >>= k) ≡ some b
    → (a : A) × (m ≡ some a) × (k a ≡ some b)
bind-some none k b e = cc
bind-some (some a) k b e = (a, refl, e)

-- The three numbers of a reading are finite.
abbrev pub IsFinite : Reading → Type 0
IsFinite r =
    (is_nan_or_inf r.temperature ≡ false)
    × (is_nan_or_inf r.pressure ≡ false)
    × (is_nan_or_inf r.humidity ≡ false)

module _ (fmt : Formats) where
  number_value-finite :
      (o : Option Json) (f : Float) → number_value fmt o ≡ some f → is_nan_or_inf f ≡ false
  unfolding number_value
  number_value-finite (some (number s)) f e =
      let (g, read, kept) = bind-some (fmt.parse_float s) finite f e in finite_sound g f kept
  number_value-finite (some (float g)) f e = finite_sound g f e
  number_value-finite none f e = cc
  number_value-finite (some Json.null) f e = cc
  number_value-finite (some Json.other) f e = cc
  number_value-finite (some (Json.text s)) f e = cc

  pub parse_payload-IsFinite :
      (raw : Option Fields) (now : Time) (r : Reading)
      → parse_payload fmt raw now ≡ some r
      → IsFinite r
  unfolding parse_payload number_field
  parse_payload-IsFinite raw now r e =
      let (m, _, e1) = bind-some raw _ r e in
      let (t, read_t, e2) = bind-some (number_field fmt m "temperature") _ r e1 in
      let (p, read_p, e3) = bind-some (number_field fmt m "pressure") _ r e2 in
      let (h, read_h, e4) = bind-some (number_field fmt m "humidity") _ r e3 in
      let (ts, _, made) = bind-some (timestamp fmt (m "ts") now) _ r e4 in
      let t_finite = number_value-finite (m "temperature") t read_t in
      let p_finite = number_value-finite (m "pressure") p read_p in
      let h_finite = number_value-finite (m "humidity") h read_h in
      ground (arith, made, t_finite, p_finite, h_finite)
