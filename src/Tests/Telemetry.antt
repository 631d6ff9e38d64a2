-- ===== src/Tests/Telemetry.antt =====
-- HandleMQTT on a message of device t-5, and on messages that it refuses.
use iot_backend.Base.{
  String, true, List, [], ◌∷◌, Option, none, some, ◌≡◌, ◌≢◌, refl, str_eq, if◌then◌else◌, arith,
}
use iot_backend.Models.{Reading}
use iot_backend.Repository.{DeviceRow}
use iot_backend.Repository.Devices.{join}
use iot_backend.Topic.{telemetry_topic}
use iot_backend.Telemetry.{
  number, Fields, Formats, Record, malformed, unknown_device, applied, Sink, World, handle_mqtt,
  parse_payload,
}
use iot_backend.Telemetry.Laws.{handle_mqtt-refused}
use iot_backend.Telemetry.Payload.{IsFinite}
use iot_backend.Telemetry.Accepts.{IsAccepted, IsRecorded, handle_mqtt-applied, handle_mqtt-accepts}
use iot_backend.Tests.{env, db, device, organization}

messages : Unit {0}
unfolding handle_mqtt join telemetry_topic
messages = tt

abbrev fmt : Formats
fmt = record {
  parse_float = λ s. if str_eq s "1" then some 4607182418800017408 else none;
  parse_rfc3339 = λ s. some 9;
  parse_rfc3339_nano = λ s. none;
}

abbrev payload : Option Fields
payload = some λ k. if str_eq k "ts" then none else some (number "1")

abbrev bad_payload : Option Fields
bad_payload = some λ k. some (number "x")

abbrev collect : Sink (List Record)
collect r s = (true, r ∷ s)

abbrev world : World (List Record)
world = record { db = db; store = record { m = [] }; hub = none; sunk = [] }

abbrev topic : String
topic = "org/7/device/t-5/telemetry"

abbrev sinks : List (Sink (List Record))
sinks = collect ∷ []

message_tests :
    ((handle_mqtt fmt env sinks 3 topic payload world).0 ≡ applied)
    × ((handle_mqtt fmt env sinks 3 topic bad_payload world).0 ≡ malformed)
    × ((handle_mqtt fmt env sinks 3 "org/7/device/t-9/telemetry" payload world).0 ≡ unknown_device)
    × ((handle_mqtt fmt env sinks 3 "org/7/device/t-5" payload world).0 ≡ malformed)
unfolding messages
message_tests = (refl, refl, refl, refl)

abbrev reading : Reading
reading = record {
  device_id = 0;
  temperature = 4607182418800017408;
  pressure = 4607182418800017408;
  humidity = 4607182418800017408;
  ts = 3;
  updated_at = 3;
}

topic-IsAccepted : IsAccepted fmt 3 topic payload db (device 5 7 "t-5") reading
unfolding messages parse_payload
topic-IsAccepted = record {
  segment = "7";
  segment_level = (cc, omega arith);
  identifier_level = (cc, omega arith);
  printed = refl;
  read = refl;
  registered = refl;
  device_active = refl;
  org = organization 7 2;
  owned = refl;
  org_active = refl;
}

handle_mqtt-refused_example :
    ((handle_mqtt fmt env sinks 3 topic bad_payload world).1.db.tables ≡ world.db.tables)
    × ((handle_mqtt fmt env sinks 3 topic bad_payload world).0 ≢ applied
        → ((handle_mqtt fmt env sinks 3 topic bad_payload world).1.store ≡ world.store)
          × ((handle_mqtt fmt env sinks 3 topic bad_payload world).1.hub ≡ world.hub)
          × ((handle_mqtt fmt env sinks 3 topic bad_payload world).1.sunk ≡ world.sunk))
handle_mqtt-refused_example = handle_mqtt-refused sinks fmt env 3 topic bad_payload world

handle_mqtt-accepts_example : (handle_mqtt fmt env sinks 3 topic payload world).0 ≡ applied
handle_mqtt-accepts_example =
    handle_mqtt-accepts sinks fmt env 3 topic payload world (device 5 7 "t-5") reading
      topic-IsAccepted refl refl

handle_mqtt-applied_example :
    (row : DeviceRow) × (r : Reading) × IsAccepted fmt 3 topic payload db row r
    × IsFinite r
    × IsRecorded sinks row r world (handle_mqtt fmt env sinks 3 topic payload world).1
unfolding messages
handle_mqtt-applied_example = handle_mqtt-applied sinks fmt env 3 topic payload world refl
