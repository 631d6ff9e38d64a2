-- ===== src/Repository/Jobs.antt =====
-- The export jobs of internal/repository/postgres.go, with the constraints of
-- migrations/0003_export_jobs.up.sql. A null object key or error message is read as "", and "" is
-- written as null, so the two are one here.
pub mod Queue
pub mod Claims
pub mod Updates
use iot_backend.Base.{
  ℕ, ◌*◌, ◌/◌, String, Bool, List, [], ◌∷◌, ◌++◌, Option, none, some, ◌||◌, ◌&&◌, not, ◌==◌, leb,
  ltb, str_eq, if◌then◌else◌, filter, find?, any,
}
use iot_backend.Models.{
  Uuid, Time, ExportJob, export_queued, export_running, export_succeeded, export_failed,
}
use iot_backend.Repository.{
  Result, ok, err, not_found, failed, Env, Tables, Sql, query, exec, one_row, update_where,
  order_by,
}

-- A timestamp as the driver sends it: in whole microseconds.
abbrev pub stored_time : Time → Time
stored_time t = t / 1000 * 1000

abbrev pub is_queued : ExportJob → Bool
is_queued j = str_eq j.status export_queued

abbrev pub created_before : ExportJob → ExportJob → Bool
created_before i j = leb i.created_at j.created_at

-- CHECK (status IN ('queued', 'running', 'succeeded', 'failed')).
unfoldable pub valid_job_status : String → Bool
valid_job_status s =
    str_eq s export_queued
    || str_eq s export_running
    || str_eq s export_succeeded
    || str_eq s export_failed

abbrev pub first : List ExportJob → Option ExportJob
first [] = none
first (j ∷ js) = some j

-- `ORDER BY created_at LIMIT 1` on the queued jobs.
unfoldable pub next_job : List ExportJob → Option ExportJob
next_job js = first (order_by created_before (filter is_queued js))

module _ (env : Env) where
  -- The row goes in unless its identifier is taken, its range is empty, or its organization or
  -- user is missing.
  unfoldable pub create_export_job : Uuid → Uuid → Time → Time → List String → Sql ExportJob
  unfolding exec
  create_export_job org_id user_id from_ts to_ts device_ids = exec env λ n t.
      let j : ExportJob = record {
        id = env.fresh n;
        organization_id = org_id;
        requested_by = user_id;
        status = export_queued;
        from_ts = stored_time from_ts;
        to_ts = stored_time to_ts;
        device_ids = device_ids;
        object_key = "";
        error_message = "";
        created_at = env.now n;
        updated_at = env.now n;
      } in
      if not (ltb j.from_ts j.to_ts)
      then (err failed, t)
      else if any (λ k. k.id == j.id) t.export_jobs
      then (err failed, t)
      else if any (λ o. o.id == org_id) t.organizations && any (λ u. u.id == user_id) t.users
      then (ok j, record t { export_jobs = t.export_jobs ++ j ∷ [] })
      else (err failed, t)

  unfoldable pub get_export_job : Uuid → Uuid → Sql ExportJob
  unfolding query
  get_export_job org_id id =
      query env λ t. one_row (find? (λ j. j.id == id && j.organization_id == org_id) t.export_jobs)

  abbrev pub claimed : ℕ → ExportJob → ExportJob
  claimed n j = record j { status = export_running; updated_at = env.now n }

  abbrev pub claim : ℕ → Tables → Option ExportJob → Result ExportJob × Tables
  claim n t none = (err not_found, t)
  claim n t (some j) = (
    ok (claimed n j),
    record t { export_jobs = update_where (λ k. k.id == j.id) (claimed n) t.export_jobs },
  )

  -- The oldest queued job, marked as running.
  unfoldable pub claim_next_export_job : Sql ExportJob
  unfolding exec next_job
  claim_next_export_job = exec env λ n t. claim n t (next_job t.export_jobs)

  unfoldable pub finish_export_job : Uuid → String → String → String → Sql (Unit {0})
  unfolding exec valid_job_status
  finish_export_job id status object_key error_message = exec env λ n t.
      if not (any (λ j. j.id == id) t.export_jobs)
      then (err not_found, t)
      else if not (valid_job_status status)
      then (err failed, t)
      else (
        ok tt,
        record t {
          export_jobs =
              update_where (λ j. j.id == id)
                (λ j. record j {
                  status = status;
                  object_key = object_key;
                  error_message = error_message;
                  updated_at = env.now n;
                })
                t.export_jobs;
        },
      )
