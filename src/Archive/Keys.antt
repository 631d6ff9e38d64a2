-- ===== src/Archive/Keys.antt =====
-- internal/archive/keys.go: the keys of the objects of the archive.
pub mod Laws
use Prim.Native.Char.{Char, code}
use Prim.Native.String.{[], ◌∷◌}
use iot_backend.Base.{
  ℕ, ◌*◌, ◌/◌, String, Bool, true, false, List, [], ◌∷◌, Option, none, some, ◌||◌, ◌&&◌, not, ◌==◌,
  leb, ltb, str_eq, if◌then◌else◌, any,
}
use iot_backend.Models.{Uuid, Time}
use iot_backend.Text.{◌<>◌, split, trim_left, trim_right}
use iot_backend.Text.Split.{join}
use iot_backend.Telemetry.{Record, ◌>>=◌}
use iot_backend.Archive.{Outside}

abbrev pub slash : ℕ
slash = b'/'

abbrev pub slash_char : Char
slash_char = Prim.Native.String.char_at "/" 0

-- Time.Truncate(time.Hour).
abbrev pub hour_of : Time → Time
hour_of t = t / 3600000000000 * 3600000000000

pub record ParsedKey : Type 0 where
  pub organization_id : String
  pub device_identifier : String
  pub hour : Time

-- ObjectKey.
unfoldable pub object_key : String → String → String
object_key partition file_id = partition <> ("/" <> (file_id <> ".csv"))

-- strings.Trim(prefix, "/").
unfoldable pub trim_slashes : String → String
unfolding trim_left trim_right
trim_slashes s = trim_right (λ c. c == slash) (trim_left (λ c. c == slash) s)

-- `\d`.
abbrev pub is_digit : Char → Bool
is_digit c = leb b'0' (code c) && leb (code c) b'9'

abbrev pub is_dash : Char → Bool
is_dash c = code c == b'-'

-- `\d{4}-\d{2}-\d{2}`.
unfoldable pub is_date : String → Bool
is_date (a ∷ b ∷ c ∷ d ∷ e ∷ f ∷ g ∷ h ∷ i ∷ j ∷ []) =
    is_digit a
    && is_digit b
    && is_digit c
    && is_digit d
    && is_dash e
    && is_digit f
    && is_digit g
    && is_dash h
    && is_digit i
    && is_digit j
is_date _ = false

-- `\d{2}`.
unfoldable pub is_hour : String → Bool
is_hour (a ∷ b ∷ []) = is_digit a && is_digit b
is_hour _ = false

-- What stands after a word at the front of a text.
unfoldable pub after_word : String → String → Option String
after_word [] s = some s
after_word (c ∷ w) [] = none
after_word (c ∷ w) (d ∷ s) = if code c == code d then after_word w s else none

-- `.` matches any character but a line feed.
unfoldable pub one_line : String → Bool
one_line [] = true
one_line (c ∷ s) = not (code c == 10) && one_line s

abbrev pub cons_device :
    String
    → Option (List String × String × String × String)
    → Option (List String × String × String × String)
cons_device p none = none
cons_device p (some (ds, d, h, f)) = some (p ∷ ds, d, h, f)

-- The last three parts, and those before them.
unfoldable pub last_three : List String → Option (List String × String × String × String)
last_three (d ∷ h ∷ f ∷ []) = some ([], d, h, f)
last_three (p ∷ q ∷ r ∷ s ∷ ps) = cons_device p (last_three (q ∷ r ∷ s ∷ ps))
last_three _ = none

-- The groups of objectKeyRE after `device/`: the device may have slashes of its own.
unfoldable pub device_groups :
    Option (List String × String × String × String) → Option (String × String × String)
unfolding after_word is_date is_hour one_line join
device_groups none = none
device_groups (some (ds, d, h, f)) = do
  date ← after_word "date=" d
  hour ← after_word "hour=" h
  let device = join slash_char ds
  if is_date date && is_hour hour && one_line device && not (str_eq device "") && not (str_eq f "")
      then some (device, date, hour)
      else none

-- objectKeyRE.FindStringSubmatch on the parts between slashes: organization, device, date, hour.
unfoldable pub key_groups : List String → Option (String × String × String × String)
unfolding device_groups last_three
key_groups (a ∷ o ∷ b ∷ rest) =
    if str_eq a "org" && not (str_eq o "") && str_eq b "device"
    then (do (device, date, hour) ← device_groups (last_three rest); some (o, device, date, hour))
    else none
key_groups _ = none

-- `len(deviceIDs) > 0` and the device is not in the set; `none` is the nil map.
unfoldable pub not_wanted : Option (List String) → String → Bool
not_wanted none identifier = false
not_wanted (some []) identifier = false
not_wanted (some (i ∷ is)) identifier = not (any (λ j. str_eq j identifier) (i ∷ is))

module _ (out : Outside) where
  abbrev pub uuid_text : Uuid → String
  uuid_text = out.sys.format_uuid

  -- OrgPrefix.
  unfoldable pub org_prefix : Uuid → String
  org_prefix org_id = "org/" <> (uuid_text org_id <> "/")

  -- DevicePrefix.
  unfoldable pub device_prefix : Uuid → String → String
  device_prefix org_id identifier =
      "org/" <> (uuid_text org_id <> ("/device/" <> (identifier <> "/")))

  -- PartitionKey.
  unfoldable pub partition_key : Record → String
  partition_key r =
      "org/"
      <> (uuid_text r.organization_id
          <> ("/device/"
              <> (r.device_identifier
                  <> ("/date="
                      <> (out.printers.format_date r.ts
                          <> ("/hour=" <> out.printers.format_hour r.ts))))))

  -- ExportObjectKey.
  unfoldable pub export_object_key : String → Uuid → Uuid → String
  unfolding trim_slashes
  export_object_key prefix org_id job_id =
      let trimmed = trim_slashes prefix in
      (if str_eq trimmed "" then "exports" else trimmed)
      <> ("/" <> (uuid_text org_id <> ("/" <> (uuid_text job_id <> ".csv"))))

  -- ParseObjectKey.
  unfoldable pub parse_object_key : String → Option ParsedKey
  unfolding key_groups split
  parse_object_key key = do
    (o, device, date, hour) ← key_groups (split slash key)
    t ← out.printers.parse_date_hour (date <> (" " <> hour))
    some (record { organization_id = o; device_identifier = device; hour = t })

  -- MatchesQuery on a key that parses, and on any key.
  unfoldable pub matches_parsed : ParsedKey → Uuid → Option (List String) → Time → Time → Bool
  unfolding not_wanted
  matches_parsed k org_id wanted from_ts to_ts =
      if not (str_eq k.organization_id (uuid_text org_id))
      then false
      else if not_wanted wanted k.device_identifier
      then false
      else if ltb k.hour (hour_of from_ts) || ltb (hour_of to_ts) k.hour
      then false
      else true

  unfoldable pub matches_query : String → Uuid → Option (List String) → Time → Time → Bool
  unfolding parse_object_key matches_parsed
  matches_query key org_id wanted from_ts to_ts = at_key (parse_object_key key)
    where
      at_key : Option ParsedKey → Bool
      at_key none = false
      at_key (some k) = matches_parsed k org_id wanted from_ts to_ts
