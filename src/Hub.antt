-- ===== src/Hub.antt =====
-- internal/ws/hub.go. The hub's connections stand in one list; the Go set `clients` of pointers is
-- the field `registered` of each. A message that a connection is sent goes to its `outbox`, while
-- the connection can be written. The functions below are those of the source between two points where
-- other goroutines may come in; System runs them in any order that the mutexes allow.
pub mod System
pub mod Turns
pub mod Isolation
pub mod Messages
pub mod Runs
pub mod Filter
use iot_backend.Base.{
  ℕ, zero, suc, String, Bool, true, false, List, [], ◌∷◌, ◌++◌, Option, none, some, ◌||◌, ◌&&◌, not,
  ◌==◌, str_eq, if◌then◌else◌, any, map,
}
use iot_backend.Models.{Uuid, User, Organization, Device, Reading, status_active, is_active}
use iot_backend.State
use iot_backend.Auth.{Platform, Principal, Parsed, valid, invalid_token}
use iot_backend.Repository.{Result, ok, err, Env, Db}
use iot_backend.Repository.Users.{get_user_by_id, get_user_by_subject, get_organization}
use iot_backend.Repository.Devices.{list_devices}

-- What is written to a connection.
pub data Message : Type 0 where
  auth_ok pong : Message
  error : (code message : String) → Message
  reading : Reading → Message
  snapshot : List Reading → Message

-- Where the read loop of a connection stands, between two of its steps.
pub data Task : Type 0 where
  -- ReadMessage.
  reading_on : Task
  -- authenticate, before GetUserByID, GetUserBySubject, GetOrganization and the registration.
  looking looking_again : Principal → Task
  fitting enrolling : Principal → User → Task
  -- authenticate, before it writes auth_ok, and sendSnapshot, before ListDevices and Snapshot.
  greeting listing : Task
  showing : List Uuid → Task
  -- setFilter, before ListDevices, and before the assignment to the filter.
  filtering : List String → Task
  narrowing : Option (List Uuid) → Task
  -- A message is written, and then the next one is read, or readLoop returns.
  replying refusing : Message → Task
  -- The deferred part of readLoop: before Hub.remove, and before Close.
  leaving closing : Task

pub record Client : Type 0 where
  pub org_id : Uuid
  pub user_id : Uuid
  pub filter : Option (List Uuid)
  pub authed : Bool
  pub registered : Bool
  pub closed : Bool
  pub writable : Bool
  pub outbox : List Message
  pub task : Task

-- `&client{conn: conn}`.
abbrev pub new_client : Client
new_client = record {
  org_id = 0;
  user_id = 0;
  filter = none;
  authed = false;
  registered = false;
  closed = false;
  writable = true;
  outbox = [];
  task = reading_on;
}

-- A message as json.Unmarshal reads it: not JSON, or one of the types of the switch.
pub data Inbound : Type 0 where
  invalid_json ping other : Inbound
  auth : (token : String) → Inbound
  filter_to : (device_ids : List String) → Inbound

-- client.writeJSON: the error is `false`.
unfoldable pub write_json : Message → Client → Bool × Client
write_json m c = if c.writable then (true, record c { outbox = c.outbox ++ m ∷ [] }) else (false, c)

-- `filter != nil` and the device is not in it.
unfoldable pub filtered_out : Option (List Uuid) → Uuid → Bool
filtered_out none id = false
filtered_out (some ids) id = not (any (λ j. j == id) ids)

-- One round of the loop of Broadcast.
unfoldable pub offer : Uuid → Reading → Client → Client
unfolding write_json filtered_out
offer org_id r c =
    if not c.registered
    then c
    else if not c.authed || not (c.org_id == org_id)
    then c
    else if filtered_out c.filter r.device_id
    then c
    else (write_json (reading r) c).1

-- Hub.Broadcast.
unfoldable pub broadcast : Uuid → Reading → List Client → List Client
unfolding offer
broadcast org_id r cs = map (offer org_id r) cs

-- What the read loop works on beside its connection.
pub record World : Type 0 where
  pub db : Db
  pub store : State.Store

module _ (sys : Platform) (env : Env) (parse_token : String → Parsed Principal) where
  -- The tests on the user.
  unfoldable pub user_fits : Principal → User → Bool
  unfolding is_active
  user_fits p u = is_active u && u.organization_id == p.organization_id

  -- The test on the organization.
  abbrev pub org_fits : Result Organization → Bool
  org_fits (ok o) = str_eq o.status status_active
  org_fits (err e) = false

  abbrev pub snapshot_of : State.Store → Result (List Device) → Client → Client
  snapshot_of store (err e) c = c
  snapshot_of store (ok devices) c =
      (write_json (snapshot (State.snapshot (map (λ d. d.id) devices) store)) c).1

  -- Hub.sendSnapshot.
  unfoldable pub send_snapshot : Client → World → Client × World
  unfolding write_json list_devices
  send_snapshot c w =
      let (devices, db) = list_devices env c.org_id w.db in
      (snapshot_of w.store devices c, record w { db = db })

  -- One round of the loop of setFilter, with the result of the later rounds.
  abbrev keep_allowed : List Uuid → Option Uuid → List Uuid → List Uuid
  keep_allowed allowed none out = out
  keep_allowed allowed (some id) out = if any (λ j. j == id) allowed then id ∷ out else out

  -- The identifiers of a filter that parse and are devices of the organization.
  unfoldable pub allowed_ids : List Uuid → List String → List Uuid
  allowed_ids allowed [] = []
  allowed_ids allowed (raw ∷ rest) =
      keep_allowed allowed (sys.parse_uuid raw) (allowed_ids allowed rest)

  abbrev pub filter_from : List String → Result (List Device) → Client → Client
  filter_from ids (err e) c = c
  filter_from ids (ok devices) c = record c {
    filter = some (allowed_ids (map (λ d. d.id) devices) ids);
  }

  -- Hub.setFilter.
  unfoldable pub set_filter : List String → Client → World → Client × World
  unfolding allowed_ids list_devices
  set_filter [] c w = (record c { filter = none }, w)
  set_filter (i ∷ is) c w =
      let (devices, db) = list_devices env c.org_id w.db in
      (filter_from (i ∷ is) devices c, record w { db = db })
