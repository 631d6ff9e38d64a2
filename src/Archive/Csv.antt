-- ===== src/Archive/Csv.antt =====
-- internal/archive/csv.go: the rows of the archive.
pub mod Laws
use iot_backend.Base.{
  String, Bool, true, false, List, [], ◌∷◌, Option, none, some, ◌&&◌, str_eq, if◌then◌else◌,
}
use iot_backend.Models.{Time, Float}
use iot_backend.Text.{trim_space}
use iot_backend.Telemetry.{Record, ◌>>=◌, time_or}
use iot_backend.Archive.{Outside}

abbrev pub Row : Type 0
Row = List String

-- Header.
abbrev pub header : Row
header =
    "organization_id" ∷ "device_identifier" ∷ "temperature" ∷ "pressure" ∷ "humidity" ∷ "ts" ∷ []

abbrev pub same_words : Row → Row → Bool
same_words [] [] = true
same_words (c ∷ cs) (w ∷ ws) = str_eq (trim_space c) w && same_words cs ws
same_words _ _ = false

-- IsHeader.
unfoldable pub is_header : Row → Bool
unfolding trim_space
is_header cols = same_words cols header

abbrev pub either : Option Time → Option Time → Option Time
either none second = second
either (some t) second = some t

module _ (out : Outside) where
  -- EncodeRow.
  unfoldable pub encode_row : Record → Row
  encode_row r =
      out.sys.format_uuid r.organization_id
      ∷ r.device_identifier
      ∷ out.printers.format_float r.temperature
      ∷ out.printers.format_float r.pressure
      ∷ out.printers.format_float r.humidity
      ∷ out.printers.format_rfc3339_nano r.ts
      ∷ []

  -- parseTS.
  unfoldable pub parse_ts : String → Option Time
  unfolding trim_space
  parse_ts raw =
      let s = trim_space raw in
      either (out.formats.parse_rfc3339_nano s) (out.formats.parse_rfc3339 s)

  -- DecodeRow: a row that does not decode has an error, `none`. A row has no device's UUID.
  unfoldable pub decode_row : Row → Option Record
  unfolding parse_ts trim_space
  decode_row (o ∷ d ∷ t ∷ p ∷ h ∷ s ∷ []) = do
    org_id ← out.sys.parse_uuid (trim_space o)
    let identifier = trim_space d
    temperature ← (if str_eq identifier "" then none else out.formats.parse_float t)
    pressure ← out.formats.parse_float p
    humidity ← out.formats.parse_float h
    ts ← parse_ts s
    some (record {
      organization_id = org_id;
      device_id = 0;
      device_identifier = identifier;
      temperature = temperature;
      pressure = pressure;
      humidity = humidity;
      ts = ts;
    })
  decode_row _ = none
