-- ===== src/Tests/Worker.antt =====
-- The export worker on the jobs of the queue's tests and the objects of the archive's tests.
use iot_backend.Base.{
  false, ℕ, String, Option, some, none, Bool-cases, inl, inr, ◌==◌, arith, ℕ, ◌+◌, ◌≡◌, ◌⊎◌, refl,
  arith, count,
}
use iot_backend.Repository
use iot_backend.Text.Split.{join}
use iot_backend.Dict.{lookup, insert}
use iot_backend.Archive.Csv.{encode_row}
use iot_backend.Archive.Merge.{list_matching, merge_csv}
use iot_backend.Repository.Jobs.{is_queued, finish_export_job, claim_next_export_job, next_job}
use iot_backend.Models.{Uuid}
use iot_backend.Storage.{Error}
use iot_backend.Storage.Key.{normalize_key}
use iot_backend.Storage.Memory.{Blob, memory, get, list, stream, stream_at}
use iot_backend.Archive.Keys.{export_object_key}
use iot_backend.Exportjob.Returns.{IsDraining}
use iot_backend.Exportjob.{
  blocked, is_stuck, World, finished, stopped, key_of, process, process_queued, run_job,
}
use iot_backend.Exportjob.Moves.{Moves, jobs_of}
use iot_backend.Exportjob.Ends.{process_queued-ends, process_queued-Moves}
use iot_backend.Exportjob.Exported.{IsExported, process-IsExported}
use iot_backend.Tests.{env}
use iot_backend.Tests.Jobs.{db, db-HasJobIds, taken}
use iot_backend.Tests.Archive.{out, stored}

workers : Unit {0}
unfolding list_matching merge_csv encode_row join lookup insert stream list get process_queued
    process run_job finish_export_job claim_next_export_job next_job
workers = tt

abbrev world : World Blob
world = record { db = db; objects = stored }

queue_tests :
    ((process_queued out env memory stream "exports" 3 0 world).0 ≡ finished 2)
    × (count is_queued (jobs_of (process_queued out env memory stream "exports" 3 0 world).1) ≡ 0)
unfolding workers
queue_tests = (refl, refl)

-- A prefix that normalizeKey refuses: Put fails before it reads, and ProcessQueued never returns.
stuck_tests :
    ((process_queued out env memory stream "a..b" 3 0 world).0 ≡ blocked 0)
    × (count is_queued (jobs_of (process_queued out env memory stream "a..b" 3 0 world).1) ≡ 1)
unfolding workers
stuck_tests = (refl, refl)

named :
    (org_id id : Uuid)
    → (k : String) × (normalize_key (export_object_key out "exports" org_id id) ≡ some k)
unfolding export_object_key normalize_key
named org_id id = elim (Bool-cases (org_id == 7)) [
  | inl o ↦ elim (Bool-cases (id == 7)) [
    | inl i ↦ rw (o, i) (_, refl)
    | inr i ↦ rw (o, i) (_, refl)
  ]
  | inr o ↦ elim (Bool-cases (id == 7)) [
    | inl i ↦ rw (o, i) (_, refl)
    | inr i ↦ rw (o, i) (_, refl)
  ]
]

reads_all :
    (k text : String) (end : Option Error) (m : Blob)
    → is_stuck text (stream_at (some k) text end m).0.read_all ≡ false
reads_all k text (some e) m = ground arith
reads_all k text none m = ground arith

draining : IsDraining out "exports" stream
unfolding stream
draining org_id id text end m = let (k, e) = named org_id id in rw e (reads_all k text end m)

abbrev after : World Blob
after = (process_queued out env memory stream "exports" 3 0 world).1

process_queued-ends_example :
    (((process_queued out env memory stream "exports" 3 0 world).0 ≡ finished 2)
      × (count is_queued (jobs_of after) ≡ 0))
    ⊎ ((m : ℕ) × (((process_queued out env memory stream "exports" 3 0 world).0
            ≡ stopped m Repository.failed)
          × (m + count is_queued (jobs_of after) ≡ 2)))
process_queued-ends_example =
    process_queued-ends out env memory stream "exports" 3 world db-HasJobIds (omega arith) draining

process_queued-Moves_example :
    Moves out "exports" (jobs_of world) (jobs_of after)
    × (after.db.tables ≡ record world.db.tables { export_jobs = jobs_of after })
process_queued-Moves_example =
    process_queued-Moves out env memory stream "exports" 3 world db-HasJobIds (omega arith)

process-IsExported_example :
    IsExported out stream taken
      (key_of out env memory stream "exports" taken)
      (process out env memory stream "exports" taken world).1.objects
process-IsExported_example =
    process-IsExported out env memory stream "exports" taken world (unfold workers in refl)
