-- ===== src/Topic.antt =====
-- internal/iot/topic.go, and `deviceIdentifierFromTopic` of internal/telemetry/ingest.go.
pub mod Laws
use iot_backend.Base.{
  String, Bool, ◌||◌, List, [], ◌∷◌, Option, none, some, not, str_eq, if◌then◌else◌,
}
use iot_backend.Text.{◌<>◌, split}

abbrev pub slash : Prim.Native.Nat.ℕ
slash = b'/'

-- `parts[0] != "org" || parts[2] != "device" || parts[4] != "telemetry"`.
abbrev pub wrong_words : String → String → String → Bool
wrong_words a c e = not (str_eq a "org") || not (str_eq c "device") || not (str_eq e "telemetry")

-- The tests of ParseTelemetryTopic on the parts.
unfoldable pub parse_parts : List String → Option (String × String)
parse_parts (a ∷ b ∷ c ∷ d ∷ e ∷ []) =
    if wrong_words a c e then none else if str_eq b "" || str_eq d "" then none else some (b, d)
parse_parts _ = none

-- ParseTelemetryTopic.
unfoldable pub parse_telemetry_topic : String → Option (String × String)
unfolding parse_parts split
parse_telemetry_topic topic = parse_parts (split slash topic)

-- TelemetryTopic.
unfoldable pub telemetry_topic : String → String → String
telemetry_topic org_id device_identifier =
    "org/" <> (org_id <> ("/device/" <> (device_identifier <> "/telemetry")))

-- The tests of deviceIdentifierFromTopic on the parts.
unfoldable pub identifier_of_parts : List String → String
identifier_of_parts (a ∷ b ∷ c ∷ d ∷ e ∷ []) =
    if wrong_words a c e then "" else if str_eq b "" || str_eq d "" then "" else d
identifier_of_parts _ = ""

-- deviceIdentifierFromTopic.
unfoldable pub device_identifier_from_topic : String → String
unfolding identifier_of_parts split
device_identifier_from_topic topic = identifier_of_parts (split slash topic)
