-- ===== src/Api/Exports.antt =====
-- internal/api/exports.go: the handlers of export jobs. The settings, the formats of time.Parse and
-- the object store are parameters. A reply holds the job and its download address.
pub mod Named
pub mod Owned
use iot_backend.Base.{
  ℕ, ◌-◌, ◌*◌, ◌^◌, String, Bool, true, false, List, [], ◌∷◌, ◌++◌, Option, none, some, ◌||◌, ◌&&◌,
  not, ◌==◌, leb, ltb, str_eq, if◌then◌else◌, any, or_else,
}
use iot_backend.Models.{Uuid, Time, Device, ExportJob, export_succeeded}
use iot_backend.Text.{◌<>◌}
use iot_backend.Auth.{Platform, Principal}
use iot_backend.Repository.{Result, ok, err, Env, Db}
use iot_backend.Repository.Devices.{get_device_by_identifier}
use iot_backend.Repository.Jobs.{create_export_job, get_export_job}
use iot_backend.Api.{
  Reply, error, json, Step, answer, go, Handler, give, stop, require, demand, ◌>>=◌, ◌>>◌, sql,
  internal, bad_request, write_not_found,
}
use iot_backend.Api.Checks.{checked}
use iot_backend.Api.Validate.{require_identifier}
use iot_backend.Telemetry.{Formats}

pub record CreateExport : Type 0 where
  pub from_text : String
  pub to_text : String
  pub device_ids : List String

-- ExportMaxRange, 0 where it is not positive, and whether an object store is configured.
pub record Settings : Type 0 where
  pub export_max_range : ℕ
  pub has_objects : Bool

-- What Get of the object store answers: ErrNotFound, another error, or the object.
pub data Fetched : Type 0 where
  missing broken : Fetched
  found : String → Fetched

-- A job with its download address, or the file of a download.
pub data ExportBody : Type 0 where
  job : ExportJob → String → ExportBody
  file : String → ExportBody

-- Time.Sub, which stops at the largest Duration.
abbrev pub time_sub : Time → Time → ℕ
time_sub t s = if ltb (t - s) (2 ^ 63) then t - s else 2 ^ 63 - 1

-- The largest range of an export: 31 days, unless the settings say otherwise.
abbrev pub max_range : Settings → ℕ
max_range cfg =
    if cfg.export_max_range == 0 then 31 * 24 * 3600 * 1000000000 else cfg.export_max_range

-- parseExportTime.
unfoldable pub parse_export_time : Formats → String → Option Time
parse_export_time fmt raw = either_time (fmt.parse_rfc3339_nano raw) (fmt.parse_rfc3339 raw)
  where
    either_time : Option Time → Option Time → Option Time
    either_time none second = second
    either_time (some t) second = some t

module _ (sys : Platform) (env : Env) (fmt : Formats) (cfg : Settings) (p : Principal) where
  -- `err != nil || d.OrganizationID != p.OrganizationID`, the other way round.
  abbrev pub is_own : Result Device → Bool
  is_own (ok d) = d.organization_id == p.organization_id
  is_own (err e) = false

  -- The lookup of one identifier of the request.
  unfoldable pub find_own : String → Handler Db ExportBody (Unit {0})
  unfolding get_device_by_identifier
  find_own identifier db =
      let (r, db') = get_device_by_identifier env identifier db in
      demand (is_own r) (bad_request "unknown device_identifier") db'

  -- The loop of createExport; the identifiers kept so far are those that it has seen.
  unfoldable pub own_identifiers : List String → List String → Handler Db ExportBody (List String)
  unfolding require_identifier find_own
  own_identifiers kept [] = give kept
  own_identifiers kept (raw ∷ rest) = do
    identifier ← checked (require_identifier raw)
    let again = any (str_eq identifier) kept
    (if again then give tt else find_own identifier)
    own_identifiers (if again then kept else kept ++ identifier ∷ []) rest

  -- createExport.
  unfoldable pub create_export_handler :
      Option CreateExport → Handler Db ExportBody (Reply ExportBody)
  unfolding parse_export_time own_identifiers create_export_job
  create_export_handler request = do
    demand cfg.has_objects (error 503 "unavailable" "archive store is not configured")
    body ← require request (bad_request "invalid json")
    from_ts ←
        require (parse_export_time fmt body.from_text)
          (bad_request "from must be an RFC3339 timestamp")
    to_ts ←
        require (parse_export_time fmt body.to_text) (bad_request "to must be an RFC3339 timestamp")
    demand (ltb from_ts to_ts) (bad_request "from must be before to")
    demand (leb (time_sub to_ts from_ts) (max_range cfg)) (bad_request "export range is too large")
    ids ← own_identifiers [] body.device_ids
    j ←
        sql (create_export_job env p.organization_id p.user_id from_ts to_ts ids)
          (internal "failed to create export")
    give (json 202 (job j ""))

  -- loadExport.
  unfoldable pub load_export : String → Handler Db ExportBody ExportJob
  unfolding get_export_job write_not_found
  load_export url_id = do
    id ← require (sys.parse_uuid url_id) (bad_request "invalid export id")
    sql (get_export_job env p.organization_id id) write_not_found

  -- A signed address that is there and not empty.
  abbrev pub signed_or : Option String → String → String
  signed_or none url = url
  signed_or (some signed) url = if str_eq signed "" then url else signed

  -- The part of getExport on the download address; `presign` is the store's, or always `none`.
  unfoldable pub download_url : (presign : String → Option String) → ExportJob → String
  download_url presign j =
      if not (str_eq j.status export_succeeded)
      then ""
      else (let url = "/api/exports/" <> (sys.format_uuid j.id <> "/file") in
          if str_eq j.object_key "" then url else signed_or (presign j.object_key) url)

  -- getExport.
  unfoldable pub get_export_handler :
      (presign : String → Option String) → String → Handler Db ExportBody (Reply ExportBody)
  unfolding load_export download_url
  get_export_handler presign url_id = do
    j ← load_export url_id
    give (json 200 (job j (download_url presign j)))

  abbrev pub fetched : Fetched → Reply ExportBody
  fetched missing = error 404 "not_found" "export file not found"
  fetched broken = error 500 "internal" "failed to read export"
  fetched (found content) = json 200 (file content)

  -- downloadExport; `get_object` is Get of the object store.
  unfoldable pub download_export_handler :
      (get_object : String → Fetched) → String → Handler Db ExportBody (Reply ExportBody)
  unfolding load_export
  download_export_handler get_object url_id = do
    j ← load_export url_id
    demand (str_eq j.status export_succeeded && not (str_eq j.object_key ""))
        (error 409 "conflict" "export is not ready")
    give (fetched (get_object j.object_key))
