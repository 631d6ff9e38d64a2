-- ===== src/Tests/Topics.antt =====
-- Topics, printed and parsed.
use iot_backend.Base.{none, some, ◌≡◌, refl, arith}
use iot_backend.Topic.{telemetry_topic, parse_telemetry_topic, device_identifier_from_topic}
use iot_backend.Topic.Laws.{
  IsLevel, second, parse-telemetry_topic, parse_telemetry_topic_sound,
  device_identifier_from_topic-parse,
}

topics : Unit {0}
unfolding telemetry_topic parse_telemetry_topic device_identifier_from_topic
topics = tt

topic_tests :
    (parse_telemetry_topic "org/a/device/b/telemetry" ≡ some ("a", "b"))
    × (parse_telemetry_topic "org/a/device//telemetry" ≡ none)
    × (parse_telemetry_topic "org/a/device/b/telemetry/" ≡ none)
    × (device_identifier_from_topic "org/a/device/b/telemetry" ≡ "b")
    × (device_identifier_from_topic "org//device/b/telemetry" ≡ "")
unfolding topics
topic_tests = (refl, refl, refl, refl, refl)

a-IsLevel : IsLevel "a"
a-IsLevel = (cc, omega arith)

b-IsLevel : IsLevel "b"
b-IsLevel = (cc, omega arith)

parse-telemetry_topic_example : parse_telemetry_topic (telemetry_topic "a" "b") ≡ some ("a", "b")
parse-telemetry_topic_example = parse-telemetry_topic "a" "b" a-IsLevel b-IsLevel

parse_telemetry_topic_sound_example :
    IsLevel "a" × IsLevel "b" × ("org/a/device/b/telemetry" ≡ telemetry_topic "a" "b")
unfolding topics
parse_telemetry_topic_sound_example =
    parse_telemetry_topic_sound "org/a/device/b/telemetry" "a" "b" refl

device_identifier_from_topic-parse_example :
    device_identifier_from_topic "org/a/device/b/telemetry"
    ≡ second (parse_telemetry_topic "org/a/device/b/telemetry")
device_identifier_from_topic-parse_example =
    device_identifier_from_topic-parse "org/a/device/b/telemetry"
