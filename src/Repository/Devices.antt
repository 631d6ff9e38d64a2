-- ===== src/Repository/Devices.antt =====
-- The devices of internal/repository/postgres.go, with the constraints of
-- migrations/0001_init.up.sql on the table `devices`.
use mathlib.Core.Option
use iot_backend.Base.{
  String, Bool, true, List, [], ◌∷◌, ◌++◌, Option, none, some, ◌||◌, ◌&&◌, not, ◌==◌, str_eq,
  if◌then◌else◌, filter, find?, any, map,
}
use iot_backend.Models.{Uuid, Device, Location, SubLocation, status_active, status_inactive}
use iot_backend.Repository.{
  Result, ok, err, not_found, conflict, failed, Env, DeviceRow, Tables, Sql, pure, ◌>>=◌, ◌>>◌,
  query, exec, one_row, update_where, order_by,
}

-- `d.id=$1 AND d.organization_id=$2`.
abbrev pub is_device : Uuid → Uuid → DeviceRow → Bool
is_device org_id id d = d.id == id && d.organization_id == org_id

-- The sub-location that the LEFT JOIN finds for a device, and the location of that.
unfoldable pub joined_sub_location : Tables → Option Uuid → Option SubLocation
joined_sub_location t none = none
joined_sub_location t (some id) = find? (λ s. s.id == id) t.sub_locations

unfoldable pub joined_location : Tables → Option SubLocation → Option Location
joined_location t none = none
joined_location t (some s) = find? (λ l. l.id == s.location_id) t.locations

-- deviceSelect and scanDevice.
unfoldable pub join : Tables → DeviceRow → Device
unfolding joined_sub_location joined_location
join t d =
    let sub = joined_sub_location t d.sub_location_id in
    let loc = joined_location t sub in
    record {
      id = d.id;
      organization_id = d.organization_id;
      sub_location_id = d.sub_location_id;
      device_identifier = d.device_identifier;
      name = d.name;
      status = d.status;
      created_at = d.created_at;
      location_id = Option.map (λ s. s.location_id) sub;
      location_name = Option.map (λ l. l.name) loc;
      sub_location_name = Option.map (λ s. s.name) sub;
    }

-- CHECK (status IN ('active', 'inactive')).
unfoldable pub valid_device_status : String → Bool
valid_device_status s = str_eq s status_active || str_eq s status_inactive

-- The foreign key of sub_location_id.
unfoldable pub sub_location_exists : Tables → Option Uuid → Bool
sub_location_exists t none = true
sub_location_exists t (some id) = any (λ s. s.id == id) t.sub_locations

module _ (env : Env) where
  abbrev pub by_name : DeviceRow → DeviceRow → Bool
  by_name a b = env.text_le a.name b.name

  unfoldable pub list_devices : Uuid → Sql (List Device)
  unfolding query
  list_devices org_id = query env λ t.
      ok (map (join t) (order_by by_name (filter (λ d. d.organization_id == org_id) t.devices)))

  unfoldable pub list_all_devices : Sql (List Device)
  unfolding query
  list_all_devices = query env λ t. ok (map (join t) (order_by by_name t.devices))

  unfoldable pub get_device : Uuid → Uuid → Sql Device
  unfolding query
  get_device org_id id =
      query env λ t. one_row (Option.map (join t) (find? (is_device org_id id) t.devices))

  unfoldable pub get_device_by_identifier : String → Sql Device
  unfolding query
  get_device_by_identifier identifier = query env λ t.
      one_row (Option.map (join t) (find? (λ d. str_eq d.device_identifier identifier) t.devices))

  -- A new row has the identifier, or the primary key, of one that is there.
  unfoldable pub clashes : DeviceRow → DeviceRow → Bool
  clashes d e = e.id == d.id || str_eq e.device_identifier d.device_identifier

  -- INSERT INTO devices: the check, the unique indexes, then the foreign keys.
  unfoldable pub insert_device : DeviceRow → Tables → Result Uuid × Tables
  insert_device d t =
      if not (valid_device_status d.status)
      then (err failed, t)
      else if any (clashes d) t.devices
      then (err conflict, t)
      else if any (λ o. o.id == d.organization_id) t.organizations
          && sub_location_exists t d.sub_location_id
      then (ok d.id, record t { devices = t.devices ++ d ∷ [] })
      else (err failed, t)

  -- Two statements: the row, and the row with its joins.
  unfoldable pub create_device : Device → Sql Device
  unfolding exec insert_device clashes valid_device_status sub_location_exists get_device
  create_device d = do
    id ← exec env λ n. insert_device (record {
      id = env.fresh n;
      organization_id = d.organization_id;
      sub_location_id = d.sub_location_id;
      device_identifier = d.device_identifier;
      name = d.name;
      status = d.status;
      created_at = env.now n;
    })
    get_device d.organization_id id

  -- UPDATE devices SET … WHERE id AND organization_id, with the constraint on the new value.
  unfoldable pub update_devices :
      Uuid → Uuid → (Tables → Bool) → (DeviceRow → DeviceRow) → Sql (Unit {0})
  unfolding exec
  update_devices org_id id allowed f = exec env λ n t.
      if any (is_device org_id id) t.devices && not (allowed t)
      then (err failed, t)
      else (ok tt, record t { devices = update_where (is_device org_id id) f t.devices })

  unfoldable pub set_name : Uuid → Uuid → Option String → Sql (Unit {0})
  unfolding update_devices
  set_name org_id id none = pure tt
  set_name org_id id (some n) = update_devices org_id id (λ _. true) (λ d. record d { name = n })

  unfoldable pub set_status : Uuid → Uuid → Option String → Sql (Unit {0})
  unfolding update_devices valid_device_status
  set_status org_id id none = pure tt
  set_status org_id id (some s) =
      update_devices org_id id (λ _. valid_device_status s) (λ d. record d { status = s })

  -- The Go type is **uuid.UUID: nothing, a null, or an identifier.
  unfoldable pub set_sub_location : Uuid → Uuid → Option (Option Uuid) → Sql (Unit {0})
  unfolding update_devices sub_location_exists
  set_sub_location org_id id none = pure tt
  set_sub_location org_id id (some sub) =
      update_devices org_id id (λ t. sub_location_exists t sub)
        (λ d. record d { sub_location_id = sub })

  unfoldable pub update_device :
      Uuid → Uuid → Option String → Option String → Option (Option Uuid) → Sql Device
  unfolding get_device set_name set_status set_sub_location
  update_device org_id id name status sub_location_id = do
    get_device org_id id
    set_name org_id id name
    set_status org_id id status
    set_sub_location org_id id sub_location_id
    get_device org_id id

  unfoldable pub delete_device : Uuid → Uuid → Sql (Unit {0})
  unfolding exec
  delete_device org_id id = exec env λ n t.
      if any (is_device org_id id) t.devices
      then (ok tt, record t { devices = filter (λ d. not (is_device org_id id d)) t.devices })
      else (err not_found, t)
