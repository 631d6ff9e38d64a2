-- ===== src/Tests/Jobs.antt =====
-- The queue of export jobs.
use iot_backend.Base.{String, [], ◌∷◌, count, ◌≡◌, refl}
use iot_backend.Models.{Uuid, Time, ExportJob, export_queued, export_running, export_succeeded}
use iot_backend.Repository.{Db, ok, err, not_found}
use iot_backend.Repository.Jobs.{is_queued, next_job, claim_next_export_job, finish_export_job}
use iot_backend.Repository.Jobs.Queue.{HasJobIds}
use iot_backend.Repository.Jobs.Claims.{IsClaimed, claim_next_export_job-IsClaimed}
use iot_backend.Tests.{env, tables}

queues : Unit {0}
unfolding claim_next_export_job finish_export_job next_job
queues = tt

abbrev export : Uuid → String → Time → ExportJob
export id status created_at = record {
  id = id;
  organization_id = 7;
  requested_by = 1;
  status = status;
  from_ts = 5000;
  to_ts = 9000;
  device_ids = [];
  object_key = "";
  error_message = "";
  created_at = created_at;
  updated_at = created_at;
}

-- The second queued job of the table is the older one.
abbrev pub db : Db
db = record {
  tables = record tables {
    export_jobs =
        export 1 export_succeeded 1 ∷ export 2 export_queued 5 ∷ export 3 export_queued 4 ∷ [];
  };
  statements = 100;
}

pub db-HasJobIds : HasJobIds db.tables.export_jobs
db-HasJobIds = (refl, (refl, (refl, tt)))

abbrev pub taken : ExportJob
taken = record (export 3 export_running 4) { updated_at = 100 }

claim_tests :
    ((claim_next_export_job env db).0 ≡ ok taken)
    × (count is_queued (claim_next_export_job env db).1.tables.export_jobs ≡ 1)
    × ((finish_export_job env 9 export_succeeded "k" "" db).0 ≡ err not_found)
unfolding queues
claim_tests = (refl, refl, refl)

claim_next_export_job-IsClaimed_example :
    ((j : ExportJob)
      → (claim_next_export_job env db).0 ≡ ok j
      → IsClaimed env 100 db.tables.export_jobs
          (claim_next_export_job env db).1.tables.export_jobs
          j)
    × ((claim_next_export_job env db).0 ≡ err not_found
        → (count is_queued db.tables.export_jobs ≡ 0)
          × ((claim_next_export_job env db).1.tables ≡ db.tables))
claim_next_export_job-IsClaimed_example = claim_next_export_job-IsClaimed env db db-HasJobIds
