-- ===== src/Exportjob/Returns.antt =====
-- internal/exportjob/worker.go: jobs return where Put reads all that it is given.
use iot_backend.Base.{
  ℕ, zero, suc, ◌+◌, String, Bool, true, false, List, Option, none, some, ◌≡◌, ◌≢◌, refl,
}
use iot_backend.Models.{Uuid, ExportJob}
use iot_backend.Repository
use iot_backend.Repository.{Result, ok, err, Env, Db}
use iot_backend.Repository.Jobs.{claim_next_export_job}
use iot_backend.Storage
use iot_backend.Storage.{Answer, done, refused, Objects, Upload, Stream}
use iot_backend.Archive.{Outside}
use iot_backend.Archive.Keys.{export_object_key}
use iot_backend.Archive.Merge.{text_of, list_matching, merge_csv}
use iot_backend.Exportjob.{
  World, Outcome, blocked, Ran, returned, waiting, is_stuck, query_of, key_of, after_both,
  after_put, after_list, process, after_process, run_job, next_round, round, process_queued,
}

-- For the key of every export, Put reads all that MergeCSV writes, whether it then succeeds or fails.
abbrev pub IsDraining : {S : Type 0} → Outside → String → Stream S → Type 0
IsDraining {S} out prefix stream =
    (org_id id : Uuid) (text : String) (end : Option Storage.Error) (s : S)
    → is_stuck text (stream (export_object_key out prefix org_id id) text end s).0.read_all ≡ false

module _ (out : Outside) (env : Env) {S : Type 0} (objects : Objects S) (stream : Stream S)
    (prefix : String) (draining : IsDraining out prefix stream) where
  after_both-returns :
      (j : ExportJob) (w : World S) (e f : Option Storage.Error)
      → (after_both out env objects stream prefix j w e f).0 ≢ waiting
  after_both-returns j w (some e) f h = cc h
  after_both-returns j w none (some f) h = cc h
  after_both-returns j w none none h = cc h

  after_put-returns :
      (j : ExportJob) (w : World S) (text : String) (e : Option Storage.Error) (r : Upload × S)
      → is_stuck text r.0.read_all ≡ false
      → (after_put out env objects stream prefix j w text e r).0 ≢ waiting
  after_put-returns j w text e (u, s) read =
      rw read (after_both-returns j (record w { objects = s }) u.error e)

  after_list-returns :
      (j : ExportJob) (w : World S) (r : Answer (List String) × S)
      → (after_list out env objects stream prefix j w r).0 ≢ waiting
  after_list-returns j w (refused e, s) h = cc h
  after_list-returns j w (done keys, s) h =
      let (e, written, s1) = merge_csv out (query_of j) objects keys s in
      after_put-returns j w (text_of out written) e
        (stream (key_of out env objects stream prefix j) (text_of out written) e s1)
        (draining j.organization_id j.id (text_of out written) e s1) h

  after_process-returns :
      (j : ExportJob) (r : Ran × World S)
      → r.0 ≢ waiting
      → (after_process out env objects stream prefix j r).0 ≡ true
  after_process-returns j (returned true, w) h = refl
  after_process-returns j (returned false, w) h = refl
  after_process-returns j (waiting, w) h = absurd (h refl)

  run_job-returns :
      (j : ExportJob) (w : World S) → (run_job out env objects stream prefix j w).0 ≡ true
  unfolding run_job process
  run_job-returns j w =
      after_process-returns j (process out env objects stream prefix j w)
        (after_list-returns j w (list_matching out (query_of j) objects w.objects))

  round-returns :
      (n m : ℕ) (r : Result ExportJob) (db : Db) (w : World S) (rest : World S → Outcome × World S)
      → ((w : World S) → (rest w).0 ≢ blocked m)
      → (round out env objects stream prefix n (r, db) w rest).0 ≢ blocked m
  round-returns n m (err Repository.not_found) db w rest h e = cc e
  round-returns n m (err Repository.conflict) db w rest h e = cc e
  round-returns n m (err Repository.failed) db w rest h e = cc e
  round-returns n m (ok j) db w rest h e =
      at_job (run_job out env objects stream prefix j (record w { db = db }))
        (run_job-returns j (record w { db = db })) e
    where
      at_job :
          (z : Bool × World S)
          → z.0 ≡ true
          → (next_round out env objects stream prefix n z rest).0 ≢ blocked m
      at_job (true, w) nil stuck = h w stuck
      at_job (false, w) nil stuck = cc nil

  pub never_blocked :
      (fuel n m : ℕ) (w : World S)
      → (process_queued out env objects stream prefix fuel n w).0 ≢ blocked m
  unfolding process_queued
  never_blocked zero n m w e = cc e
  never_blocked (suc fuel) n m w e =
      round-returns n m (claim_next_export_job env w.db).0 (claim_next_export_job env w.db).1 w
        (λ w1. process_queued out env objects stream prefix fuel (n + 1) w1)
        (λ w1. never_blocked fuel (n + 1) m w1) e
