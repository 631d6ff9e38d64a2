-- ===== src/Api/Devices/Delete.antt =====
-- What deleteDevice of internal/api/handlers.go removes.
use iot_backend.Base.{
  String, true, none, some, not, ◌==◌, if◌then◌else◌, any, filter, ◌≡◌, ◌≢◌, refl, Bool-cases,
  Option-cases, inl, inr,
}
use iot_backend.Models.{Uuid}
use iot_backend.State
use iot_backend.State.Laws.{get-delete}
use iot_backend.Auth.{Platform, Principal}
use iot_backend.Repository.{Env, Tables, Db}
use iot_backend.Repository.Devices.{is_device, delete_device}
use iot_backend.Api.{no_content, write_not_found}
use iot_backend.Api.Devices.{delete_row, delete_device_handler}

module _ (sys : Platform) (env : Env) (p : Principal) where
  -- The device of the principal's organization, and its latest reading, are gone, and no other
  -- device or reading is.
  pub record IsDeleted (url_id : String) (t t' : Tables) (s s' : State.Store) : Type 0 where
    pub id : Uuid
    pub spelled : sys.parse_uuid url_id ≡ some id
    pub there : any (is_device p.organization_id id) t.devices ≡ true
    pub removed :
        t' ≡ record t { devices = filter (λ d. not (is_device p.organization_id id d)) t.devices }
    pub forgotten : (j : Uuid) → State.get j s' ≡ (if id == j then none else State.get j s)

  -- deleteDevice answers 204 only where it has removed a device of the principal's organization
  -- with its latest reading, and nothing else; with any other answer the tables and the readings
  -- are as before.
  pub delete_device_handler-IsDeleted :
      (url_id : String) (db : Db) (s : State.Store)
      → ((delete_device_handler sys env p url_id db s).0 ≡ no_content
          → IsDeleted url_id db.tables
              (delete_device_handler sys env p url_id db s).1.tables
              s
              (delete_device_handler sys env p url_id db s).2)
        × ((delete_device_handler sys env p url_id db s).0 ≢ no_content
            → ((delete_device_handler sys env p url_id db s).1.tables ≡ db.tables)
              × ((delete_device_handler sys env p url_id db s).2 ≡ s))
  unfolding delete_device_handler delete_row delete_device write_not_found
  delete_device_handler-IsDeleted url_id db s = elim (Option-cases (sys.parse_uuid url_id)) [
    | inl bad ↦ rw bad (λ e. cc, λ n. (refl, refl))
    | inr (id, spelled) ↦ elim (Bool-cases (env.fails db.statements)) [
      | inl down ↦ rw (spelled, down) (λ e. cc, λ n. (refl, refl))
      | inr up ↦ elim (Bool-cases (any (is_device p.organization_id id) db.tables.devices)) [
        | inr absent ↦ rw (spelled, up, absent) (λ e. cc, λ n. (refl, refl))
        | inl there ↦
            rw (spelled, up, there)
              (
                λ e. record {
                  id = id;
                  spelled = spelled;
                  there = there;
                  removed = refl;
                  forgotten = λ j. get-delete id j s;
                },
                λ n. absurd (n refl),
              )
      ]
    ]
  ]
