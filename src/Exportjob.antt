-- ===== src/Exportjob.antt =====
-- internal/exportjob/worker.go: export jobs claimed and run, one after another. The context is never
-- cancelled. MergeCSV writes into a pipe that Put reads; the two run at once in the source, and here
-- the text of MergeCSV is known when Put begins. `fuel` bounds the rounds of the loop of ProcessQueued.
pub mod Round
pub mod Moves
pub mod Returns
pub mod Ends
pub mod Exported
use iot_backend.Base.{
  not, ◌&&◌, ℕ, zero, suc, ◌+◌, String, Bool, true, false, List, Option, none, some, str_eq,
  if◌then◌else◌,
}
use iot_backend.Models.{Uuid, ExportJob, export_succeeded, export_failed}
use iot_backend.Repository
use iot_backend.Repository.{Result, ok, err, Env, Db}
use iot_backend.Repository.Jobs.{claim_next_export_job, finish_export_job}
use iot_backend.Storage
use iot_backend.Storage.{Answer, done, refused, Objects, Upload, Stream}
use iot_backend.Archive.{Outside, Query}
use iot_backend.Archive.Keys.{export_object_key}
use iot_backend.Archive.Csv.{Row}
use iot_backend.Archive.Merge.{Written, text_of, list_matching, merge_csv}

-- The database and the object store.
pub record World (S : Type 0) : Type 0 where
  pub db : Db
  pub objects : S

-- What ProcessQueued returns: the number of jobs run, with an error of the database where there was
-- one. `blocked` is a call that never returns, after so many jobs, within the next one.
pub data Outcome : Type 0 where
  finished : ℕ → Outcome
  stopped : ℕ → Repository.Error → Outcome
  blocked : ℕ → Outcome
  out_of_fuel : Outcome

-- What `process` does: it returns, with `true` for the nil error, or it waits for ever.
pub data Ran : Type 0 where
  returned : Bool → Ran
  waiting : Ran

-- Once Put has returned, nothing reads the pipe, and nothing closes its reading end: MergeCSV, and so
-- `<-errCh`, waits for ever if some of what it writes has not been read.
abbrev pub is_stuck : String → Bool → Bool
is_stuck text read_all = not (str_eq text "") && not read_all

-- The query of a job.
abbrev pub query_of : ExportJob → Query
query_of j = record {
  organization_id = j.organization_id;
  device_ids = j.device_ids;
  from_ts = j.from_ts;
  to_ts = j.to_ts;
}

-- New: the prefix of the objects of exports.
unfoldable pub prefix_or_default : String → String
prefix_or_default prefix = if str_eq prefix "" then "exports" else prefix

module _ (out : Outside) (env : Env) {S : Type 0} (objects : Objects S) (stream : Stream S)
    (prefix : String) where
  abbrev pub answered : World S → Result (Unit {0}) × Db → Bool × World S
  answered w (ok u, db) = (true, record w { db = db })
  answered w (err e, db) = (false, record w { db = db })

  -- FinishExportJob on a world: `true` is the nil error.
  abbrev pub finish : ExportJob → String → String → String → World S → Bool × World S
  finish j status key message w = answered w (finish_export_job env j.id status key message w.db)

  abbrev pub key_of : ExportJob → String
  key_of j = export_object_key out prefix j.organization_id j.id

  abbrev pub as_ran : Bool × World S → Ran × World S
  as_ran (nil, w) = (returned nil, w)

  -- putErr, mergeErr, and the success of both.
  abbrev pub after_both :
      ExportJob → World S → Option Storage.Error → Option Storage.Error → Ran × World S
  after_both j w (some e) merge_error = (returned false, w)
  after_both j w none (some e) = (returned false, w)
  after_both j w none none = as_ran (finish j export_succeeded (key_of j) "" w)

  -- The receive from errCh, and what follows.
  abbrev pub after_put :
      ExportJob → World S → String → Option Storage.Error → Upload × S → Ran × World S
  after_put j w text merge_error (u, s) =
      let w1 = record w { objects = s } in
      if is_stuck text u.read_all then (waiting, w1) else after_both j w1 u.error merge_error

  -- Put reads what MergeCSV writes, and then the end or the error of MergeCSV.
  abbrev pub after_merge : ExportJob → World S → Option Storage.Error × Written × S → Ran × World S
  after_merge j w (e, written, s) =
      after_put j w (text_of out written) e (stream (key_of j) (text_of out written) e s)

  abbrev pub after_list : ExportJob → World S → Answer (List String) × S → Ran × World S
  after_list j w (refused e, s) = (returned false, record w { objects = s })
  after_list j w (done keys, s) = after_merge j w (merge_csv out (query_of j) objects keys s)

  -- Worker.process.
  unfoldable pub process : ExportJob → World S → Ran × World S
  unfolding list_matching merge_csv finish_export_job export_object_key
  process j w = after_list j w (list_matching out (query_of j) objects w.objects)

  -- A job that fails is marked so, if that succeeds: `false` is a job that never returns.
  abbrev pub after_process : ExportJob → Ran × World S → Bool × World S
  after_process j (returned true, w) = (true, w)
  after_process j (returned false, w) =
      (true, (finish j export_failed "" "failed to assemble export" w).1)
  after_process j (waiting, w) = (false, w)

  -- The part of a round after the claim.
  unfoldable pub run_job : ExportJob → World S → Bool × World S
  unfolding process finish_export_job
  run_job j w = after_process j (process j w)

  abbrev pub claimed : World S → Result ExportJob × Db
  claimed w = claim_next_export_job env w.db

  abbrev pub next_round : ℕ → Bool × World S → (World S → Outcome × World S) → Outcome × World S
  next_round n (true, w) rest = rest w
  next_round n (false, w) rest = (blocked n, w)

  abbrev pub round :
      ℕ → Result ExportJob × Db → World S → (World S → Outcome × World S) → Outcome × World S
  round n (err Repository.not_found, db) w rest = (finished n, record w { db = db })
  round n (err e, db) w rest = (stopped n e, record w { db = db })
  round n (ok j, db) w rest = next_round n (run_job j (record w { db = db })) rest

  -- ProcessQueued, with `n` jobs run so far.
  unfoldable pub process_queued : ℕ → ℕ → World S → Outcome × World S
  unfolding claim_next_export_job run_job
  process_queued zero n w = (out_of_fuel, w)
  process_queued (suc fuel) n w = round n (claimed w) w (λ w1. process_queued fuel (n + 1) w1)
