-- ===== src/Archive/Keys/Laws.antt =====
-- Object keys, printed and parsed.
use Prim.Native.Char.{code}
use Prim.Native.String.{[], ◌∷◌}
use text.Mathlib.TextLemmas.{nil-append, cons-append, append_assoc}
use iot_backend.Base.{
  ◌≤◌, String, true, false, List, [], ◌∷◌, ◌++◌, Option, some, ==_refl, ltb, str_eq, eq_iff, ◌≡◌,
  ◌≢◌, arith, ap, refl, ◌∙◌,
}
use iot_backend.Models.{Time}
use iot_backend.Text.{◌<>◌, split}
use iot_backend.Text.Split.{
  IsFree, IsFree-append, not_empty, append-filled, split_free, split-append_sep, join-split,
  split-append,
}
use iot_backend.Telemetry.{Record}
use iot_backend.Archive.{Outside}
use iot_backend.Archive.Keys.{
  slash, slash_char, hour_of, partition_key, object_key, is_date, is_hour, after_word, one_line,
  last_three, cons_device, uuid_text, device_groups, key_groups, parse_object_key, not_wanted,
  matches_parsed, matches_query,
}

last_three-append :
    (ds : List String) (d h f : String) → last_three (ds ++ d ∷ h ∷ f ∷ []) ≡ some (ds, d, h, f)
unfolding last_three
last_three-append [] d h f = refl
last_three-append (a ∷ []) d h f = refl
last_three-append (a ∷ b ∷ []) d h f = refl
last_three-append (a ∷ b ∷ c ∷ []) d h f = refl
last_three-append (a ∷ b ∷ c ∷ e ∷ ds) d h f =
    ap (cons_device a) (last_three-append (b ∷ c ∷ e ∷ ds) d h f)

-- What stands after a word is what was put there.
after_word-append : (w s : String) → after_word w (w <> s) ≡ some s
unfolding after_word
after_word-append [] s = rw nil-append
after_word-append (c ∷ w) s = rw (cons-append, ==_refl (code c)) (after_word-append w s)

-- What the key of a record relies on: the text of an identifier is no empty text and has no slash,
-- the printed date and hour have their shapes, and are read back as the hour of the instant.
pub record IsPrinted (out : Outside) (r : Record) : Type 0 where
  pub uuid_level : uuid_text out r.organization_id ≢ ""
  pub uuid_free : IsFree slash (uuid_text out r.organization_id)
  pub date_free : IsFree slash (out.printers.format_date r.ts)
  pub date_shape : is_date (out.printers.format_date r.ts) ≡ true
  pub hour_free : IsFree slash (out.printers.format_hour r.ts)
  pub hour_shape : is_hour (out.printers.format_hour r.ts) ≡ true
  pub read_back :
      out.printers.parse_date_hour
        (out.printers.format_date r.ts <> (" " <> out.printers.format_hour r.ts))
      ≡ some (hour_of r.ts)

slash_after : (w s : String) → (w <> "/") <> s ≡ w <> (slash_char ∷ s)
slash_after w s = rw (append_assoc, cons-append, nil-append)

slash_before : (w s : String) → ("/" <> w) <> s ≡ slash_char ∷ (w <> s)
slash_before w s = rw (append_assoc, cons-append, nil-append)

slashes_around : (w s : String) → ("/" <> (w <> "/")) <> s ≡ slash_char ∷ (w <> (slash_char ∷ s))
slashes_around w s = slash_before (w <> "/") s ∙ ap (λ t. slash_char ∷ t) (slash_after w s)

module _ (out : Outside) (r : Record) (file_id : String) where
  abbrev date_part : String
  date_part = "date=" <> out.printers.format_date r.ts

  abbrev hour_part : String
  hour_part = "hour=" <> out.printers.format_hour r.ts

  abbrev file_part : String
  file_part = file_id <> ".csv"

  -- The key of an object, with one slash at a time.
  key_shape :
      object_key (partition_key out r) file_id
      ≡ "org"
        <> (slash_char
            ∷ (uuid_text out r.organization_id
                <> (slash_char
                    ∷ ("device"
                        <> (slash_char
                            ∷ (r.device_identifier
                                <> (slash_char
                                    ∷ (date_part
                                        <> (slash_char
                                            ∷ (hour_part <> (slash_char ∷ file_part)))))))))))
  unfolding object_key partition_key
  key_shape =
      let org : (s : String) → "org/" <> s ≡ "org" <> (slash_char ∷ s) = slash_after "org" in
      let device : (s : String) → "/device/" <> s ≡ slash_char ∷ ("device" <> (slash_char ∷ s)) =
        slashes_around "device" in
      let date : (s : String) → "/date=" <> s ≡ slash_char ∷ ("date=" <> s) =
        slash_before "date=" in
      let hour : (s : String) → "/hour=" <> s ≡ slash_char ∷ ("hour=" <> s) =
        slash_before "hour=" in
      let file : (s : String) → "/" <> s ≡ slash_char ∷ s = λ s. rw (cons-append, nil-append) in
      let later : (s t : String) → (slash_char ∷ s) <> t ≡ slash_char ∷ (s <> t) =
        cons-append slash_char in
      simp (append_assoc, later, org, device, date, hour, file)

  -- The parts of the key, and those of its device.
  split-key :
      IsPrinted out r
      → IsFree slash file_id
      → split slash (object_key (partition_key out r) file_id)
        ≡ "org"
          ∷ uuid_text out r.organization_id
          ∷ "device"
          ∷ (split slash r.device_identifier ++ date_part ∷ hour_part ∷ file_part ∷ [])
  split-key h free =
      let words : IsFree slash "org"
          × IsFree slash "device"
          × IsFree slash "date="
          × IsFree slash "hour="
          × IsFree slash ".csv" =
        omega arith in
      let date_free = IsFree-append slash "date=" _ words.2 h.date_free in
      let hour_free = IsFree-append slash "hour=" _ words.3 h.hour_free in
      let file_free = IsFree-append slash file_id ".csv" free words.4 in
      let r5 = hour_part <> (slash_char ∷ file_part) in
      let r4 = date_part <> (slash_char ∷ r5) in
      let r3 = r.device_identifier <> (slash_char ∷ r4) in
      let r2 = "device" <> (slash_char ∷ r3) in
      let r1 = uuid_text out r.organization_id <> (slash_char ∷ r2) in
      rw (
        key_shape,
        split-append_sep slash_char "org" r1 words.0,
        split-append_sep slash_char (uuid_text out r.organization_id) r2 h.uuid_free,
        split-append_sep slash_char "device" r3 words.1,
        split-append slash_char r.device_identifier r4,
        split-append_sep slash_char date_part r5 date_free,
        split-append_sep slash_char hour_part file_part hour_free,
        split_free slash file_part file_free,
      )

  filled : file_part ≢ ""
  filled = append-filled file_id ".csv" (λ e. cc e)

  -- ParseObjectKey gives the organization, the device and the hour of the record whose key was
  -- printed, also where the device's identifier has slashes.
  pub parse_object_key-object_key :
      IsPrinted out r
      → IsFree slash file_id
      → r.device_identifier ≢ ""
      → one_line r.device_identifier ≡ true
      → parse_object_key out (object_key (partition_key out r) file_id)
        ≡ some (record {
          organization_id = uuid_text out r.organization_id;
          device_identifier = r.device_identifier;
          hour = hour_of r.ts;
        })
  unfolding parse_object_key key_groups device_groups
  parse_object_key-object_key h free named line = rw (
    split-key h free,
    not_empty (uuid_text out r.organization_id) h.uuid_level,
    last_three-append (split slash r.device_identifier) date_part hour_part file_part,
    after_word-append "date=" (out.printers.format_date r.ts),
    after_word-append "hour=" (out.printers.format_hour r.ts),
    join-split slash_char r.device_identifier,
    h.date_shape,
    h.hour_shape,
    line,
    not_empty r.device_identifier named,
    not_empty file_part filled,
    h.read_back,
  )

  -- The device is one of those asked for; an empty list asks for all.
  abbrev pub IsWanted : Option (List String) → Type 0
  IsWanted wanted = not_wanted wanted r.device_identifier ≡ false

  -- The key of an object that holds a record of the query is not passed over: its organization is
  -- the query's, its device is asked for, and its hour is one that the query's range touches.
  pub matches_query-object_key :
      (wanted : Option (List String)) (from_ts to_ts : Time)
      → IsPrinted out r
      → IsFree slash file_id
      → r.device_identifier ≢ ""
      → one_line r.device_identifier ≡ true
      → IsWanted wanted
      → from_ts ≤ r.ts
      → r.ts ≤ to_ts
      → matches_query out
          (object_key (partition_key out r) file_id)
          r.organization_id
          wanted
          from_ts
          to_ts
        ≡ true
  unfolding matches_query matches_parsed
  matches_query-object_key wanted from_ts to_ts h free named line asked after before =
      let same : str_eq (uuid_text out r.organization_id) (uuid_text out r.organization_id) ≡ true =
        (eq_iff _ _).1 refl in
      let early : ltb (hour_of r.ts) (hour_of from_ts) ≡ false = ground (arith, after) in
      let late : ltb (hour_of to_ts) (hour_of r.ts) ≡ false = ground (arith, before) in
      rw (parse_object_key-object_key h free named line, same, asked, early, late)
