-- ===== src/Tests/Exports.antt =====
-- The handlers of exports and devices, run on the database of the tests.
use iot_backend.Base.{
  String, true, List, [], ◌∷◌, none, some, ◌≡◌, ◌≢◌, refl, str_eq, if◌then◌else◌,
}
use iot_backend.Models.{ExportJob, export_queued}
use iot_backend.State
use iot_backend.Auth.{Principal}
use iot_backend.Telemetry.{Formats}
use iot_backend.Repository.Devices.{join}
use iot_backend.Api.{error, json, no_content, go, final, write_not_found}
use iot_backend.Api.Validate.{require_identifier}
use iot_backend.Api.Devices.{delete_device_handler}
use iot_backend.Api.Devices.Delete.{IsDeleted, delete_device_handler-IsDeleted}
use iot_backend.Api.Exports.{CreateExport, Settings, job, create_export_handler}
use iot_backend.Api.Exports.Owned.{IsOwned, create_export_handler-IsOwned}
use iot_backend.Tests.{sys, env, db, principal}

handlers : Unit {0}
unfolding create_export_handler delete_device_handler join write_not_found require_identifier
handlers = tt

abbrev ann : Principal
ann = principal 1 7 "ann"

abbrev fmt : Formats
fmt = record {
  parse_float = λ s. none;
  parse_rfc3339 = λ s. none;
  parse_rfc3339_nano =
      λ s. if str_eq s "a" then some 5000 else if str_eq s "b" then some 9000 else none;
}

abbrev cfg : Settings
cfg = record { export_max_range = 0; has_objects = true }

abbrev request : List String → CreateExport
request ids = record { from_text = "a"; to_text = "b"; device_ids = ids }

abbrev made : ExportJob
made = record {
  id = 101;
  organization_id = 7;
  requested_by = 1;
  status = export_queued;
  from_ts = 5000;
  to_ts = 9000;
  device_ids = "t-5" ∷ [];
  object_key = "";
  error_message = "";
  created_at = 101;
  updated_at = 101;
}

-- A device that is named twice is looked up once, and a device of another organization is refused.
export_tests :
    ((create_export_handler sys env fmt cfg ann (some (request ("t-5" ∷ " t-5" ∷ []))) db).0
      ≡ go (json 202 (job made "")))
    × (final (create_export_handler sys env fmt cfg ann (some (request ("t-6" ∷ []))) db).0
        ≡ error 400 "validation_error" "unknown device_identifier")
unfolding handlers
export_tests = (refl, refl)

create_export_handler-IsOwned_example :
    (body : CreateExport) × (some (request ("t-5" ∷ " t-5" ∷ [])) ≡ some body)
    × IsOwned sys env fmt cfg ann db.tables body made
unfolding handlers
create_export_handler-IsOwned_example =
    create_export_handler-IsOwned sys env fmt cfg ann (some (request ("t-5" ∷ " t-5" ∷ []))) db made
      "" refl

abbrev store : State.Store
store = record { m = [] }

delete_tests :
    ((delete_device_handler sys env ann "d5" db store).0 ≡ no_content)
    × ((delete_device_handler sys env ann "d6" db store).0 ≡ error 404 "not_found" "not found")
unfolding handlers
delete_tests = (refl, refl)

delete_device_handler-IsDeleted_example :
    ((delete_device_handler sys env ann "d5" db store).0 ≡ no_content
      → IsDeleted sys env ann "d5" db.tables
          (delete_device_handler sys env ann "d5" db store).1.tables
          store
          (delete_device_handler sys env ann "d5" db store).2)
    × ((delete_device_handler sys env ann "d5" db store).0 ≢ no_content
        → ((delete_device_handler sys env ann "d5" db store).1.tables ≡ db.tables)
          × ((delete_device_handler sys env ann "d5" db store).2 ≡ store))
delete_device_handler-IsDeleted_example = delete_device_handler-IsDeleted sys env ann "d5" db store
