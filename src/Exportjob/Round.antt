-- ===== src/Exportjob/Round.antt =====
-- internal/exportjob/worker.go: one round of the worker, as it changes the table of export jobs.
use iot_backend.Base.{
  Bool-cases, ℕ, String, Bool, true, false, List, Option, none, some, ◌≡◌, ◌⊎◌, refl, inl, inr, ap,
  ◌∙◌,
}
use iot_backend.Models.{ExportJob, export_queued, export_running, export_succeeded, export_failed}
use iot_backend.Repository
use iot_backend.Repository.{Result, ok, err, Env, Db, Tables}
use iot_backend.Repository.Jobs.{finish_export_job, claimed}
use iot_backend.Repository.Jobs.Updates.{
  KeepsId, update, update-update, finished, finish_export_job-cases,
}
use iot_backend.Storage
use iot_backend.Storage.{Answer, done, refused, Objects, Upload, Stream}
use iot_backend.Archive.{Outside}
use iot_backend.Archive.Keys.{export_object_key}
use iot_backend.Archive.Merge.{text_of, list_matching, merge_csv}
use iot_backend.Exportjob.{
  World, Ran, returned, waiting, is_stuck, after_both, after_process, query_of, answered, finish,
  key_of, after_put, after_list, process, run_job,
}

-- A queued job that the worker has taken: it is running, has failed, or has succeeded with its
-- file under the key of its organization and identifier. Nothing else of it has changed.
pub record IsWorked (out : Outside) (prefix : String) (old new : ExportJob) : Type 0 where
  pub was_queued : old.status ≡ export_queued
  pub kept : new ≡ record old {
    status = new.status;
    object_key = new.object_key;
    error_message = new.error_message;
    updated_at = new.updated_at;
  }
  pub ended :
      ((new.status ≡ export_running) × (new.object_key ≡ old.object_key))
      ⊎ (((new.status ≡ export_failed) × (new.object_key ≡ ""))
          ⊎ ((new.status ≡ export_succeeded)
              × (new.object_key ≡ export_object_key out prefix old.organization_id old.id)))

-- A round on the job `old` changes the row of that identifier alone.
pub record IsRound (out : Outside) (prefix : String) (old : ExportJob) (t t' : Tables)
    : Type 0 where
  pub change : ExportJob → ExportJob
  pub keeps : KeepsId change
  pub worked : IsWorked out prefix old (change old)
  pub after : t' ≡ record t { export_jobs = update old.id change t.export_jobs }

module _ (out : Outside) (env : Env) {S : Type 0} (objects : Objects S) (stream : Stream S)
    (prefix : String) where
  -- Where FinishExportJob answers nil, the job has the new status; else no table has changed.
  abbrev HasEnded : ExportJob → String → String → String → Db → Bool × World S → Type 0
  HasEnded j status key message db (nil, w) =
      ((nil ≡ false) × (w.db.tables ≡ db.tables))
      ⊎ ((nil ≡ true)
          × (w.db.tables ≡ record db.tables {
            export_jobs =
                update j.id (finished env db.statements status key message) db.tables.export_jobs;
          }))

  answered-HasEnded :
      (j : ExportJob) (status key message : String) (w : World S) (r : Result (Unit {0}) × Db)
      → (((e : Repository.Error) × (r.0 ≡ err e)) × (r.1.tables ≡ w.db.tables))
        ⊎ ((r.0 ≡ ok tt)
            × (r.1.tables ≡ record w.db.tables {
              export_jobs =
                  update j.id
                    (finished env w.db.statements status key message)
                    w.db.tables.export_jobs;
            }))
      → HasEnded j status key message w.db (answered out env objects stream prefix w r)
  answered-HasEnded j status key message w (ok u, db) (inl ((e, failed), same)) = absurd cc
  answered-HasEnded j status key message w (ok u, db) (inr (nil, changed)) = inr (refl, changed)
  answered-HasEnded j status key message w (err e, db) (inl (failed, same)) = inl (refl, same)
  answered-HasEnded j status key message w (err e, db) (inr (nil, changed)) = absurd cc

  finish-HasEnded :
      (j : ExportJob) (status key message : String) (w : World S)
      → HasEnded j status key message w.db
          (finish out env objects stream prefix j status key message w)
  unfolding process
  finish-HasEnded j status key message w =
      answered-HasEnded j status key message w (finish_export_job env j.id status key message w.db)
        (finish_export_job-cases env j.id status key message w.db)

  -- A job that has been processed: unless it answers nil, no table has changed.
  abbrev HasRun : ExportJob → Db → Ran × World S → Type 0
  HasRun j db (returned nil, w) =
      HasEnded j export_succeeded (key_of out env objects stream prefix j) "" db (nil, w)
  HasRun j db (waiting, w) = w.db.tables ≡ db.tables

  after_both-HasRun :
      (j : ExportJob) (w : World S) (e f : Option Storage.Error)
      → HasRun j w.db (after_both out env objects stream prefix j w e f)
  after_both-HasRun j w (some e) f = inl (refl, refl)
  after_both-HasRun j w none (some f) = inl (refl, refl)
  after_both-HasRun j w none none =
      finish-HasEnded j export_succeeded (key_of out env objects stream prefix j) "" w

  after_put-HasRun :
      (j : ExportJob) (w : World S) (text : String) (e : Option Storage.Error) (r : Upload × S)
      → HasRun j w.db (after_put out env objects stream prefix j w text e r)
  after_put-HasRun j w text e (u, s) = elim (Bool-cases (is_stuck text u.read_all)) [
    | inl stuck ↦ rw stuck refl
    | inr read ↦ rw read (after_both-HasRun j (record w { objects = s }) u.error e)
  ]

  after_list-HasRun :
      (j : ExportJob) (w : World S) (r : Answer (List String) × S)
      → HasRun j w.db (after_list out env objects stream prefix j w r)
  after_list-HasRun j w (refused e, s) = inl (refl, refl)
  after_list-HasRun j w (done keys, s) =
      let (e, written, s1) = merge_csv out (query_of j) objects keys s in
      after_put-HasRun j w (text_of out written) e
        (stream (key_of out env objects stream prefix j) (text_of out written) e s1)

  process-HasRun :
      (j : ExportJob) (w : World S) → HasRun j w.db (process out env objects stream prefix j w)
  unfolding process
  process-HasRun j w = after_list-HasRun j w (list_matching out (query_of j) objects w.objects)

  -- The tables after the claim of `old`.
  abbrev taken : ℕ → ExportJob → Tables → Tables
  taken n old t = record t { export_jobs = update old.id (claimed env n) t.export_jobs }

  claim-IsRound :
      (n : ℕ) (old : ExportJob) (t t' : Tables)
      → old.status ≡ export_queued
      → t' ≡ taken n old t
      → IsRound out prefix old t t'
  claim-IsRound n old t t' waits after = record {
    change = claimed env n;
    keeps = λ k. refl;
    worked = record { was_queued = waits; kept = refl; ended = inl (refl, refl) };
    after = after;
  }

  -- What FinishExportJob does to the claimed job makes one change with the claim.
  finish-IsRound :
      (n m : ℕ) (status key message : String) (old : ExportJob) (t t1 t' : Tables)
      → IsWorked out prefix old (finished env m status key message (claimed env n old))
      → t1 ≡ taken n old t
      → t' ≡ record t1 {
        export_jobs = update old.id (finished env m status key message) t1.export_jobs;
      }
      → IsRound out prefix old t t'
  finish-IsRound n m status key message old t t1 t' worked first then =
      let both =
        update-update (claimed env n) (finished env m status key message) old.id t.export_jobs
          (λ k. refl) in
      record {
        change = λ k. finished env m status key message (claimed env n k);
        keeps = λ k. refl;
        worked = worked;
        after =
            then
            ∙ ap
                (λ (t1 : Tables). record t1 {
                  export_jobs = update old.id (finished env m status key message) t1.export_jobs;
                })
                first
            ∙ ap (λ js. record t { export_jobs = js }) both;
      }

  -- A processed job, and the mark of one that failed.
  after_process-IsRound :
      (n : ℕ) (old : ExportJob) (t : Tables) (db : Db) (r : Ran × World S)
      → old.status ≡ export_queued
      → db.tables ≡ taken n old t
      → HasRun (claimed env n old) db r
      → IsRound out prefix old t
          (after_process out env objects stream prefix (claimed env n old) r).1.db.tables
  after_process-IsRound n old t db (waiting, w) waits taken_now same =
      claim-IsRound n old t w.db.tables waits (same ∙ taken_now)
  after_process-IsRound n old t db (returned true, w) waits taken_now (inl (nil, same)) = cc nil
  after_process-IsRound n old t db (returned true, w) waits taken_now (inr (nil, succeeded)) =
      finish-IsRound n db.statements export_succeeded
        (key_of out env objects stream prefix (claimed env n old)) "" old t db.tables _
        (record { was_queued = waits; kept = refl; ended = inr (inr (refl, refl)) }) taken_now
        succeeded
  after_process-IsRound n old t db (returned false, w) waits taken_now (inr (nil, succeeded)) =
      cc nil
  after_process-IsRound n old t db (returned false, w) waits taken_now (inl (error, same)) =
      elim (finish-HasEnded (claimed env n old) export_failed "" "failed to assemble export" w) [
        | inl (_, still) ↦ claim-IsRound n old t _ waits (still ∙ same ∙ taken_now)
        | inr (_, failed) ↦
            finish-IsRound n w.db.statements export_failed "" "failed to assemble export" old t
              w.db.tables _
              (record { was_queued = waits; kept = refl; ended = inr (inl (refl, refl)) })
              (same ∙ taken_now) failed
      ]

  -- A job that is claimed and run makes a round, also where it never returns.
  pub run_job-IsRound :
      (n : ℕ) (old : ExportJob) (t : Tables) (w : World S)
      → old.status ≡ export_queued
      → w.db.tables ≡ taken n old t
      → IsRound out prefix old t
          (run_job out env objects stream prefix (claimed env n old) w).1.db.tables
  unfolding run_job
  run_job-IsRound n old t w waits taken_now =
      after_process-IsRound n old t w.db
        (process out env objects stream prefix (claimed env n old) w) waits taken_now
        (process-HasRun (claimed env n old) w)
