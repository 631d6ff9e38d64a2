-- ===== src/Telemetry/Laws.antt =====
-- What HandleMQTT of internal/telemetry/ingest.go leaves alone where it refuses a message.
use iot_backend.Base.{String, List, Option, none, some, not, str_eq, if-keeps, ◌≡◌, ◌≢◌, refl}
use iot_backend.Models.{Time, Reading, Device, Organization, status_active}
use iot_backend.Topic.{device_identifier_from_topic}
use iot_backend.Repository
use iot_backend.Repository.{Result, ok, err, Env, Db, DeviceRow}
use iot_backend.Repository.Users.{get_organization}
use iot_backend.Repository.Devices.{get_device_by_identifier}
use iot_backend.Telemetry.{
  Fields, Formats, Outcome, applied, parse_payload, Sink, World, apply_reading, after_org,
  after_device, after_payload, handle_mqtt,
}

module _ {S : Type 0} (sinks : List (Sink S)) where
  -- Nothing but the database's count of statements has changed, unless the reading was applied.
  abbrev Unchanged : World S → Outcome × World S → Type 0
  Unchanged w z =
      (z.1.db.tables ≡ w.db.tables)
      × (z.0 ≢ applied → (z.1.store ≡ w.store) × (z.1.hub ≡ w.hub) × (z.1.sunk ≡ w.sunk))

  after_org-Unchanged :
      (d : Device) (r : Reading) (res : Result Organization × Db) (w : World S)
      → res.1.tables ≡ w.db.tables
      → Unchanged w (after_org sinks d r res w)
  unfolding apply_reading
  after_org-Unchanged d r (err e, db) w h = (h, λ _. (refl, refl, refl))
  after_org-Unchanged d r (ok org, db) w h =
      if-keeps (Unchanged w) (not (str_eq org.status status_active)) _ _
        (λ _. (h, λ _. (refl, refl, refl))) (λ _. (h, λ k. absurd (k refl)))

  after_device-Unchanged :
      (env : Env) (r : Reading) (res : Result Device × Db) (w : World S)
      → res.1.tables ≡ w.db.tables
      → Unchanged w (after_device env sinks r res w)
  unfolding get_organization
  after_device-Unchanged env r (err Repository.not_found, db) w h = (h, λ _. (refl, refl, refl))
  after_device-Unchanged env r (err Repository.conflict, db) w h = (h, λ _. (refl, refl, refl))
  after_device-Unchanged env r (err Repository.failed, db) w h = (h, λ _. (refl, refl, refl))
  after_device-Unchanged env r (ok d, db) w h =
      if-keeps (Unchanged w) (not (str_eq d.status status_active)) _ _
        (λ _. (h, λ _. (refl, refl, refl)))
        (λ _. after_org-Unchanged d r (get_organization env d.organization_id db) w h)

  -- HandleMQTT writes no table, and where it returns an error the latest readings, the
  -- connections of the hub and the state of the sinks are as before.
  pub handle_mqtt-refused :
      (fmt : Formats) (env : Env) (now : Time) (topic : String) (payload : Option Fields)
      (w : World S)
      → ((handle_mqtt fmt env sinks now topic payload w).1.db.tables ≡ w.db.tables)
        × ((handle_mqtt fmt env sinks now topic payload w).0 ≢ applied
            → ((handle_mqtt fmt env sinks now topic payload w).1.store ≡ w.store)
              × ((handle_mqtt fmt env sinks now topic payload w).1.hub ≡ w.hub)
              × ((handle_mqtt fmt env sinks now topic payload w).1.sunk ≡ w.sunk))
  unfolding handle_mqtt
  handle_mqtt-refused fmt env now topic payload w =
      if-keeps (Unchanged w) (str_eq (device_identifier_from_topic topic) "") _ _
        (λ _. (refl, λ _. (refl, refl, refl))) (λ _. at_payload (parse_payload fmt payload now))
    where
      at_payload :
          (o : Option Reading)
          → Unchanged w (after_payload env sinks (device_identifier_from_topic topic) o w)
      at_payload none = (refl, λ _. (refl, refl, refl))
      at_payload (some r) =
          after_device-Unchanged env r
            (get_device_by_identifier env (device_identifier_from_topic topic) w.db) w refl
