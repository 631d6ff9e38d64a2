-- ===== src/Api/Devices.antt =====
-- The handlers of devices of internal/api/handlers.go, without the rendering of their replies.
pub mod Delete
use iot_backend.Base.{
  String, Bool, true, false, List, Option, none, some, ◌||◌, str_eq, if◌then◌else◌,
}
use iot_backend.Models.{Uuid, Device, status_active, status_inactive}
use iot_backend.State
use iot_backend.Auth.{Platform, Principal}
use iot_backend.Repository.{Error, conflict, Env, Db}
use iot_backend.Repository.Locations.{get_sub_location}
use iot_backend.Repository.Devices.{
  list_devices, get_device, create_device, update_device, delete_device,
}
use iot_backend.Api.{
  Reply, error, json, no_content, Step, answer, go, Handler, give, stop, require, demand, ◌>>=◌,
  ◌>>◌, sql, internal, bad_request, write_not_found,
}
use iot_backend.Api.Checks.{checked, checked?}
use iot_backend.Api.Validate.{require_name, require_identifier}

pub record CreateDevice : Type 0 where
  pub device_identifier : String
  pub name : String
  pub sub_location_id : Option String
  pub status : String

-- A json.RawMessage: null, a text, or anything else.
pub data RawJson : Type 0 where
  null other : RawJson
  text : String → RawJson

pub record PatchDevice : Type 0 where
  pub name : Option String
  pub status : Option String
  pub sub_location_id : Option RawJson

-- The status of a device is one of two.
abbrev pub device_status : String → Bool
device_status s = str_eq s status_active || str_eq s status_inactive

abbrev pub device_status? : Option String → Bool
device_status? none = true
device_status? (some s) = device_status s

-- The row that createDevice inserts; the database fills in the rest.
abbrev pub new_device : Uuid → Option Uuid → String → String → String → Device
new_device org_id sub_id identifier name status = record {
  id = 0;
  organization_id = org_id;
  sub_location_id = sub_id;
  device_identifier = identifier;
  name = name;
  status = status;
  created_at = 0;
  location_id = none;
  location_name = none;
  sub_location_name = none;
}

abbrev device_conflict : Error → Reply Device
device_conflict conflict = error 409 "conflict" "device_identifier already exists"
device_conflict _ = error 500 "internal" "failed to create device"

module _ (sys : Platform) (env : Env) (p : Principal) where
  -- The sub-location that a text names, in the principal's organization.
  unfoldable pub own_sub_location : String → Handler Db Device Uuid
  unfolding get_sub_location write_not_found
  own_sub_location raw = do
    id ← require (sys.parse_uuid raw) (bad_request "invalid sub_location_id")
    sql (get_sub_location env p.organization_id id) write_not_found
    give id

  -- The part of createDevice on `sub_location_id`.
  unfoldable pub new_sub_location : Option String → Handler Db Device (Option Uuid)
  unfolding own_sub_location
  new_sub_location none = give none
  new_sub_location (some raw) =
      if str_eq raw "" then give none else (do id ← own_sub_location raw; give (some id))

  -- The part of patchDevice on `sub_location_id`.
  unfoldable pub patched_sub_location : Option RawJson → Handler Db Device (Option (Option Uuid))
  unfolding own_sub_location
  patched_sub_location none = give none
  patched_sub_location (some null) = give (some none)
  patched_sub_location (some other) = stop (bad_request "invalid sub_location_id")
  patched_sub_location (some (text raw)) =
      if str_eq raw ""
      then give (some none)
      else (do id ← own_sub_location raw; give (some (some id)))

  -- listDevices.
  unfoldable pub list_devices_handler : Handler Db (List Device) (Reply (List Device))
  unfolding list_devices
  list_devices_handler = do
    devices ← sql (list_devices env p.organization_id) (internal "failed to list devices")
    give (json 200 devices)

  -- getDevice.
  unfoldable pub get_device_handler : String → Handler Db Device (Reply Device)
  unfolding get_device write_not_found
  get_device_handler url_id = do
    id ← require (sys.parse_uuid url_id) (bad_request "invalid device id")
    d ← sql (get_device env p.organization_id id) write_not_found
    give (json 200 d)

  -- createDevice.
  unfoldable pub create_device_handler : Option CreateDevice → Handler Db Device (Reply Device)
  unfolding require_identifier require_name new_sub_location create_device
  create_device_handler request = do
    body ← require request (bad_request "invalid json")
    identifier ← checked (require_identifier body.device_identifier)
    name ← checked (require_name body.name)
    demand (str_eq body.status "" || device_status body.status)
        (bad_request "status must be active or inactive")
    let status = if str_eq body.status "" then status_active else body.status
    sub_id ← new_sub_location body.sub_location_id
    d ←
        sql (create_device env (new_device p.organization_id sub_id identifier name status))
          device_conflict
    give (json 201 d)

  -- patchDevice.
  unfoldable pub patch_device_handler :
      String → Option PatchDevice → Handler Db Device (Reply Device)
  unfolding require_name patched_sub_location update_device write_not_found
  patch_device_handler url_id request = do
    id ← require (sys.parse_uuid url_id) (bad_request "invalid device id")
    body ← require request (bad_request "invalid json")
    name ← checked? require_name body.name
    demand (device_status? body.status) (bad_request "status must be active or inactive")
    sub ← patched_sub_location body.sub_location_id
    d ← sql (update_device env p.organization_id id name body.status sub) write_not_found
    give (json 200 d)

  -- The part of deleteDevice that works on the database.
  unfoldable pub delete_row : String → Handler Db Device Uuid
  unfolding delete_device write_not_found
  delete_row url_id = do
    id ← require (sys.parse_uuid url_id) (bad_request "invalid device id")
    sql (delete_device env p.organization_id id) write_not_found
    give id

  abbrev pub forget : Step Device Uuid × Db → State.Store → Reply Device × Db × State.Store
  forget (answer r, db) store = (r, db, store)
  forget (go id, db) store = (no_content, db, State.delete id store)

  -- deleteDevice: once the row is gone, so is the device's latest reading.
  unfoldable pub delete_device_handler : String → Db → State.Store → Reply Device × Db × State.Store
  unfolding delete_row State.delete
  delete_device_handler url_id db store = forget (delete_row url_id db) store
