-- ===== src/Telemetry.antt =====
-- internal/telemetry: ingest.go and sink.go. The payload arrives as the map that encoding/json
-- decodes with UseNumber, or `none` where it fails; strconv and time.Parse are parameters.
pub mod Laws
pub mod Payload
pub mod Accepts
use mathlib.Core.Option
use iot_backend.Base.{
  ℕ, String, Bool, true, false, List, [], ◌∷◌, Option, none, some, ◌||◌, not, str_eq, if◌then◌else◌,
}
use iot_backend.Models.{
  Uuid, Time, Float, Reading, Device, Organization, is_nan_or_inf, status_active,
}
use iot_backend.State
use iot_backend.Topic.{device_identifier_from_topic}
use iot_backend.Repository
use iot_backend.Repository.{Result, ok, err, Env, Db}
use iot_backend.Repository.Users.{get_organization}
use iot_backend.Repository.Devices.{get_device_by_identifier}
use iot_backend.Hub.{Client, broadcast}

-- A value of the decoded payload; `other` is a Boolean, an array or an object.
pub data Json : Type 0 where
  null other : Json
  number text : String → Json
  float : Float → Json

abbrev pub Fields : Type 0
Fields = String → Option Json

-- json.Number.Float64, and time.Parse with each layout.
pub record Formats : Type 0 where
  pub parse_float : String → Option Float
  pub parse_rfc3339 : String → Option Time
  pub parse_rfc3339_nano : String → Option Time

-- telemetry.Record.
pub record Record : Type 0 where
  pub organization_id : Uuid
  pub device_id : Uuid
  pub device_identifier : String
  pub temperature : Float
  pub pressure : Float
  pub humidity : Float
  pub ts : Time

-- The results of HandleMQTT: ErrMalformed, ErrUnknownDevice, ErrInactive, an error of the
-- repository, and nil.
pub data Outcome : Type 0 where
  malformed unknown_device inactive applied : Outcome
  repository_error : Repository.Error → Outcome

infixl 5 ◌>>=◌
abbrev pub ◌>>=◌ {ℓ κ} : {A : Type ℓ} {B : Type κ} → Option A → (A → Option B) → Option B
none >>= k = none
some a >>= k = k a

-- A finite float.
unfoldable pub finite : Float → Option Float
unfolding is_nan_or_inf
finite f = if is_nan_or_inf f then none else some f

module _ (fmt : Formats) where
  -- The tests of numberField on the value of its key.
  unfoldable pub number_value : Option Json → Option Float
  unfolding finite
  number_value (some (number s)) = do f ← fmt.parse_float s; finite f
  number_value (some (float f)) = finite f
  number_value _ = none

  -- numberField; every error is ErrMalformed.
  unfoldable pub number_field : Fields → String → Option Float
  unfolding number_value
  number_field m key = number_value (m key)

  -- time.Parse with the first layout, then with the second, then the time of receipt.
  abbrev pub time_or : Option Time → Option Time → Time → Time
  time_or (some t) second receive = t
  time_or none (some t) receive = t
  time_or none none receive = receive

  -- The part of ParsePayload on the key `ts`.
  unfoldable pub timestamp : Option Json → Time → Option Time
  timestamp none receive = some receive
  timestamp (some null) receive = some receive
  timestamp (some (text s)) receive =
      if str_eq s ""
      then none
      else some (time_or (fmt.parse_rfc3339 s) (fmt.parse_rfc3339_nano s) receive)
  timestamp _ receive = none

  -- ParsePayload on a decoded payload; the device is filled in later.
  unfoldable pub parse_payload : Option Fields → Time → Option Reading
  unfolding number_field timestamp
  parse_payload raw receive = do
    m ← raw
    temperature ← number_field m "temperature"
    pressure ← number_field m "pressure"
    humidity ← number_field m "humidity"
    ts ← timestamp (m "ts") receive
    some (record {
      device_id = 0;
      temperature = temperature;
      pressure = pressure;
      humidity = humidity;
      ts = ts;
      updated_at = receive;
    })

-- A sink takes a record and works on the state of the sinks; its error is `false`, and is logged
-- only.
abbrev pub Sink : Type 0 → Type 0
Sink S = Record → S → Bool × S

-- What HandleMQTT works on. `hub` is `none` where the ingestor has no broadcaster.
pub record World (S : Type 0) : Type 0 where
  pub db : Db
  pub store : State.Store
  pub hub : Option (List Client)
  pub sunk : S

module _ {S : Type 0} where
  -- Ingestor.dispatch.
  unfoldable pub dispatch : List (Sink S) → Record → S → S
  dispatch [] r s = s
  dispatch (sink ∷ sinks) r s = dispatch sinks r (sink r s).1

  -- The last part of HandleMQTT, once the device and its organization are accepted.
  unfoldable pub apply_reading : List (Sink S) → Device → Reading → World S → World S
  unfolding dispatch broadcast State.set
  apply_reading sinks device parsed w =
      let r = record parsed { device_id = device.id } in
      record w {
        store = State.set r w.store;
        hub = Option.map (broadcast device.organization_id r) w.hub;
        sunk =
            dispatch sinks
              (record {
                organization_id = device.organization_id;
                device_id = device.id;
                device_identifier = device.device_identifier;
                temperature = r.temperature;
                pressure = r.pressure;
                humidity = r.humidity;
                ts = r.ts;
              })
              w.sunk;
      }

  abbrev after_org :
      List (Sink S) → Device → Reading → Result Organization × Db → World S → Outcome × World S
  after_org sinks device r (err e, db) w = (repository_error e, record w { db = db })
  after_org sinks device r (ok org, db) w =
      if not (str_eq org.status status_active)
      then (inactive, record w { db = db })
      else (applied, apply_reading sinks device r (record w { db = db }))

  abbrev after_device :
      Env → List (Sink S) → Reading → Result Device × Db → World S → Outcome × World S
  after_device env sinks r (err Repository.not_found, db) w = (unknown_device, record w { db = db })
  after_device env sinks r (err e, db) w = (repository_error e, record w { db = db })
  after_device env sinks r (ok device, db) w =
      if not (str_eq device.status status_active)
      then (inactive, record w { db = db })
      else after_org sinks device r (get_organization env device.organization_id db) w

  abbrev after_payload : Env → List (Sink S) → String → Option Reading → World S → Outcome × World S
  after_payload env sinks identifier none w = (malformed, w)
  after_payload env sinks identifier (some r) w =
      after_device env sinks r (get_device_by_identifier env identifier w.db) w

  -- Ingestor.HandleMQTT; `now` is what the clock returns.
  unfoldable pub handle_mqtt :
      Formats → Env → List (Sink S) → Time → String → Option Fields → World S → Outcome × World S
  unfolding parse_payload get_device_by_identifier get_organization apply_reading
      device_identifier_from_topic
  handle_mqtt fmt env sinks now topic payload w =
      let identifier = device_identifier_from_topic topic in
      if str_eq identifier ""
      then (malformed, w)
      else after_payload env sinks identifier (parse_payload fmt payload now) w
