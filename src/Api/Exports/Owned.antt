-- ===== src/Api/Exports/Owned.antt =====
-- What an export job that createExport of internal/api/exports.go has made may be of.
use iot_backend.Base.{
  ◌<◌, ◌≤◌, String, true, List, [], Option, some, leb, ltb, any, All, ◌≡◌, refl, arith,
}
use iot_backend.Models.{Uuid, Time, ExportJob, export_queued}
use iot_backend.Repository.Jobs.{stored_time, create_export_job}
use iot_backend.Auth.{Platform, Principal}
use iot_backend.Telemetry.{Formats}
use iot_backend.Repository.{ok, Env, Tables, Db}
use iot_backend.Api.{json, sql, internal, go, give, ◌>>=◌}
use iot_backend.Api.Rules.{>>=-eq-go, demand_on, require_on, sql-go}
use iot_backend.Api.Exports.{
  CreateExport, create_export_handler, parse_export_time, time_sub, max_range, job, Settings,
  ExportBody, own_identifiers,
}
use iot_backend.Api.Exports.Named.{is_named, IsDistinct, Kept, own_identifiers-Kept}

-- The job that a statement has made.
create_export_job-ok :
    (env : Env) (org_id user_id : Uuid) (from_ts to_ts : Time) (ids : List String) (db : Db)
    (j : ExportJob)
    → (create_export_job env org_id user_id from_ts to_ts ids db).0 ≡ ok j
    → (j.organization_id ≡ org_id)
      × (j.requested_by ≡ user_id)
      × (j.status ≡ export_queued)
      × (j.from_ts ≡ stored_time from_ts)
      × (j.to_ts ≡ stored_time to_ts)
      × (j.from_ts < j.to_ts)
      × (j.device_ids ≡ ids)
unfolding create_export_job
create_export_job-ok env org_id user_id from_ts to_ts ids db j e = ground arith

module _ (sys : Platform) (env : Env) (fmt : Formats) (cfg : Settings) (p : Principal) where
  -- The job is the principal's, is queued, has a range that is neither empty nor too large, and
  -- names devices of the principal's organization only, each once.
  pub record IsOwned (t : Tables) (request : CreateExport) (j : ExportJob) : Type 0 where
    pub from_read : Time
    pub to_read : Time
    pub from_given : parse_export_time fmt request.from_text ≡ some from_read
    pub to_given : parse_export_time fmt request.to_text ≡ some to_read
    pub range_allowed : time_sub to_read from_read ≤ max_range cfg
    pub organization_own : j.organization_id ≡ p.organization_id
    pub user_own : j.requested_by ≡ p.user_id
    pub queued : j.status ≡ export_queued
    pub from_stored : j.from_ts ≡ stored_time from_read
    pub to_stored : j.to_ts ≡ stored_time to_read
    pub ordered : j.from_ts < j.to_ts
    pub named : All (λ i. any (is_named p.organization_id i) t.devices ≡ true) j.device_ids
    pub distinct : IsDistinct j.device_ids

  made-IsOwned :
      (body : CreateExport) (db d : Db) (from_ts to_ts : Time) (ids : List String) (j : ExportJob)
      (url : String)
      → parse_export_time fmt body.from_text ≡ some from_ts
      → parse_export_time fmt body.to_text ≡ some to_ts
      → leb (time_sub to_ts from_ts) (max_range cfg) ≡ true
      → Kept sys env fmt cfg p db.tables ids
      → ((sql
              (create_export_job env p.organization_id p.user_id from_ts to_ts ids)
              (internal {A = ExportBody} "failed to create export")
            >>= λ k. give {S = Db} {A = ExportBody} (json 202 (job k "")))
          d).0
        ≡ go (json 202 (job j url))
      → IsOwned db.tables body j
  made-IsOwned body db d from_ts to_ts ids j url e_from e_to range (own, distinct) e =
      let made = create_export_job env p.organization_id p.user_id from_ts to_ts ids in
      let failed_ = internal {A = ExportBody} "failed to create export" in
      let (k, e1, e2) = >>=-eq-go (sql made failed_) _ d _ e in
      let same : k ≡ j = cc e2 in
      let e3 = sql-go made failed_ d k e1 in
      let (org, user, queued, from_s, to_s, ordered, listed) =
        create_export_job-ok env p.organization_id p.user_id from_ts to_ts ids d j
          (rw same at e3) in
      record {
        from_read = from_ts;
        to_read = to_ts;
        from_given = e_from;
        to_given = e_to;
        range_allowed = ground (arith, range);
        organization_own = org;
        user_own = user;
        queued = queued;
        from_stored = from_s;
        to_stored = to_s;
        ordered = ordered;
        named = rw listed own;
        distinct = rw listed distinct;
      }

  -- Where createExport answers with a job, the body was there and its two times were read, the range
  -- between them is allowed, and the job is the principal's and its organization's, is queued, has
  -- a range that is not empty once stored, and names devices of that organization only, each once.
  pub create_export_handler-IsOwned :
      (request : Option CreateExport) (db : Db) (j : ExportJob) (url : String)
      → (create_export_handler sys env fmt cfg p request db).0 ≡ go (json 202 (job j url))
      → (body : CreateExport) × (request ≡ some body) × IsOwned db.tables body j
  unfolding create_export_handler
  create_export_handler-IsOwned request db j url e =
      let (has, f1) = demand_on _ cfg.has_objects _ db _ e in
      let (body, given, f2) = require_on _ request _ db _ f1 in
      let (from_ts, e_from, f3) = require_on _ (parse_export_time fmt body.from_text) _ db _ f2 in
      let (to_ts, e_to, f4) = require_on _ (parse_export_time fmt body.to_text) _ db _ f3 in
      let (_, f5) = demand_on _ (ltb from_ts to_ts) _ db _ f4 in
      let (range, f6) = demand_on _ (leb (time_sub to_ts from_ts) (max_range cfg)) _ db _ f5 in
      let loop = own_identifiers sys env fmt cfg p [] body.device_ids in
      let (ids, looped, f7) = >>=-eq-go loop _ db _ f6 in
      let kept =
        own_identifiers-Kept sys env fmt cfg p body.device_ids [] db.tables db ids refl (tt, tt)
          looped in
      (
        body,
        given,
        made-IsOwned body db (loop db).1 from_ts to_ts ids j url e_from e_to range kept f7,
      )
