-- ===== src/Exportjob/Ends.antt =====
-- internal/exportjob/worker.go: ProcessQueued, which works the queue of export jobs off.
use iot_backend.Base.{
  Bool, true, false, sym, subst, ℕ, zero, suc, ◌+◌, ◌<◌, String, some, ◌==◌, eq_iff, find?, count,
  ◌≡◌, ◌⊎◌, refl, arith, inl, inr, ap, ◌∙◌, subst,
}
use iot_backend.Models.{ExportJob}
use iot_backend.Repository
use iot_backend.Repository.{Result, ok, err, Env, Db, Tables}
use iot_backend.Repository.Jobs.{is_queued, claimed, claim_next_export_job}
use iot_backend.Repository.Jobs.Queue.{HasJobIds}
use iot_backend.Repository.Jobs.Claims.{IsTaken, claim_next_export_job-cases}
use iot_backend.Repository.Jobs.Updates.{update, update-HasJobIds, count-update}
use iot_backend.Storage.{Objects, Stream}
use iot_backend.Archive.{Outside}
use iot_backend.Exportjob.{
  World, Outcome, finished, stopped, blocked, run_job, next_round, round, process_queued,
}
use iot_backend.Exportjob.Returns.{IsDraining, never_blocked}
use iot_backend.Exportjob.Round.{IsRound, run_job-IsRound}
use iot_backend.Exportjob.Moves.{
  jobs_of, Moves, IsWorked-not_queued, Moves-refl, Moves-trans, update-Moves,
}

-- What a number of rounds makes of the database `db` with `n` jobs run before: the answer, the
-- number of jobs run, one more that never returns where there is one, and the jobs.
pub record IsProcessed (out : Outside) (prefix : String) (n : ℕ) (db : Db) (r : Outcome) (db' : Db)
    : Type 0 where
  pub run_jobs : ℕ
  pub held : ℕ
  pub answer :
      ((r ≡ finished run_jobs) × (count is_queued db'.tables.export_jobs ≡ 0) × (held ≡ 0))
      ⊎ (((r ≡ stopped run_jobs Repository.failed) × (held ≡ 0))
          ⊎ ((r ≡ blocked run_jobs) × (held ≡ 1)))
  pub counted :
      run_jobs + held + count is_queued db'.tables.export_jobs
      ≡ n + count is_queued db.tables.export_jobs
  pub moved : Moves out prefix db.tables.export_jobs db'.tables.export_jobs
  pub others : db'.tables ≡ record db.tables { export_jobs = db'.tables.export_jobs }

module _ (out : Outside) (env : Env) {S : Type 0} (objects : Objects S) (stream : Stream S)
    (prefix : String) where
  abbrev Goal : ℕ → Db → Outcome × World S → Type 0
  Goal n db (r, w) = IsProcessed out prefix n db r w.db

  -- Nothing is taken.
  idle :
      (n : ℕ) (w : World S) (db : Db) (r : Result ExportJob) (rest : World S → Outcome × World S)
      → db.tables ≡ w.db.tables
      → (r ≡ err Repository.failed)
        ⊎ ((r ≡ err Repository.not_found) × (count is_queued (jobs_of w) ≡ 0))
      → Goal n w.db (round out env objects stream prefix n (r, db) w rest)
  idle n w db r rest same (inl failed) = rw failed (record {
    run_jobs = n;
    held = 0;
    answer = inr (inl (refl, refl));
    counted = rw same (omega arith);
    moved = rw same (Moves-refl out prefix (jobs_of w));
    others = rw same refl;
  })
  idle n w db r rest same (inr (empty, none_left)) = rw empty (record {
    run_jobs = n;
    held = 0;
    answer = inl (refl, rw same none_left, refl);
    counted = rw same (omega arith);
    moved = rw same (Moves-refl out prefix (jobs_of w));
    others = rw same refl;
  })

  -- What a round leaves of the queue.
  record IsLeft (old : ExportJob) (t t' : Tables) : Type 0 where
    fewer : count is_queued t'.export_jobs + 1 ≡ count is_queued t.export_jobs
    ids : HasJobIds t'.export_jobs
    first : Moves out prefix t.export_jobs t'.export_jobs

  round-IsLeft :
      (old : ExportJob) (t t' : Tables)
      → HasJobIds t.export_jobs
      → find? (λ (i : ExportJob). i.id == old.id) t.export_jobs ≡ some old
      → IsRound out prefix old t t'
      → IsLeft old t t'
  round-IsLeft old t t' ids there h =
      let js' : t'.export_jobs ≡ update old.id h.change t.export_jobs =
        ap (λ (t : Tables). t.export_jobs) h.after in
      let waits = (eq_iff old.status "queued").1 h.worked.was_queued in
      let left = IsWorked-not_queued out prefix old (h.change old) h.worked in
      record {
        fewer = rw js' (count-update h.change t.export_jobs old ids there waits left);
        ids = rw js' (update-HasJobIds old.id h.change t.export_jobs h.keeps ids);
        first = rw js' (update-Moves out prefix h.change t.export_jobs old ids there h.worked);
      }

  -- A round, and then the rest, or nothing more.
  worked :
      (n : ℕ) (old : ExportJob) (w : World S) (z : Bool × World S)
      (rest : World S → Outcome × World S)
      → IsRound out prefix old w.db.tables z.1.db.tables
      → IsLeft old w.db.tables z.1.db.tables
      → (z.0 ≡ true → Goal (n + 1) z.1.db (rest z.1))
      → Goal n w.db (next_round out env objects stream prefix n z rest)
  worked n old w (true, w') rest h k then =
      let p = then refl in
      let counted = p.counted in
      let fewer = k.fewer in
      record {
        run_jobs = p.run_jobs;
        held = p.held;
        answer = p.answer;
        counted = omega (arith, counted, fewer);
        moved = Moves-trans out prefix (jobs_of w) (jobs_of w') _ k.first p.moved;
        others =
            p.others
            ∙ ap (λ (t : Tables). record t { export_jobs = (rest w').1.db.tables.export_jobs })
                h.after;
      }
  worked n old w (false, w') rest h k then =
      let fewer = k.fewer in
      record {
        run_jobs = n;
        held = 1;
        answer = inr (inr (refl, refl));
        counted = omega (arith, fewer);
        moved = k.first;
        others =
            h.after
            ∙ ap (λ js. record w.db.tables { export_jobs = js })
                (sym (ap (λ (t : Tables). t.export_jobs) h.after));
      }

  -- The claim has answered.
  answered :
      (n : ℕ) (w : World S) (r : Result ExportJob) (db : Db) (rest : World S → Outcome × World S)
      → HasJobIds (jobs_of w)
      → (taken : IsTaken env w.db db r)
      → ((w' : World S)
          → count is_queued (jobs_of w') + 1 ≡ count is_queued (jobs_of w)
          → HasJobIds (jobs_of w')
          → Goal (n + 1) w'.db (rest w'))
      → Goal n w.db (round out env objects stream prefix n (r, db) w rest)
  answered n w (err e) db rest ids taken then = absurd (cc taken.answer)
  answered n w (ok j) db rest ids taken then =
      let same : claimed env w.db.statements taken.old ≡ j = cc taken.answer in
      let z = run_job out env objects stream prefix j (record w { db = db }) in
      let waits = (eq_iff taken.old.status "queued").0 taken.waits in
      let h : IsRound out prefix taken.old w.db.tables z.1.db.tables =
        subst
          (λ j.
            IsRound out prefix taken.old w.db.tables
              (run_job out env objects stream prefix j (record w { db = db })).1.db.tables)
          same
          (run_job-IsRound out env objects stream prefix w.db.statements taken.old w.db.tables
            (record w { db = db }) waits taken.after) in
      let k = round-IsLeft taken.old w.db.tables z.1.db.tables ids taken.there h in
      worked n taken.old w z rest h k (λ _. then z.1 k.fewer k.ids)

  all_rounds :
      (fuel n : ℕ) (w : World S)
      → HasJobIds (jobs_of w)
      → count is_queued (jobs_of w) < fuel
      → Goal n w.db (process_queued out env objects stream prefix fuel n w)
  unfolding process_queued
  all_rounds zero n w ids enough = absurd (omega (arith, enough))
  all_rounds (suc fuel) n w ids enough =
      let rest : World S → Outcome × World S =
        λ w1. process_queued out env objects stream prefix fuel (n + 1) w1 in
      elim (claim_next_export_job-cases env w.db ids) [
        | inl taken ↦
            answered n w (claim_next_export_job env w.db).0 (claim_next_export_job env w.db).1 rest
              ids taken
              (λ w' fewer ids'. all_rounds fuel (n + 1) w' ids' (omega (arith, enough, fewer)))
        | inr (same, r) ↦
            idle n w (claim_next_export_job env w.db).1 (claim_next_export_job env w.db).0 rest same
              r
      ]

  module _ (fuel : ℕ) (w : World S) where
    abbrev left : ℕ
    left = count is_queued (jobs_of (process_queued out env objects stream prefix fuel 0 w).1)

    abbrev answer : Outcome
    answer = (process_queued out env objects stream prefix fuel 0 w).0

    -- Where no two jobs have one identifier, there is more fuel than there are queued jobs, and Put of
    -- the object store reads all that it is given for the key of an export: ProcessQueued returns, with
    -- the number of jobs that were queued, and none is queued then, or with an error of the database and
    -- the number of the jobs that are no longer queued.
    pub process_queued-ends :
        HasJobIds (jobs_of w)
        → count is_queued (jobs_of w) < fuel
        → IsDraining out prefix stream
        → ((answer ≡ finished (count is_queued (jobs_of w))) × (left ≡ 0))
          ⊎ ((m : ℕ) × ((answer ≡ stopped m Repository.failed)
                × (m + left ≡ count is_queued (jobs_of w))))
    process_queued-ends ids enough draining =
        let p = all_rounds fuel 0 w ids enough in
        let counted = p.counted in
        elim p.answer [
          | inl (e, none_left, free) ↦
              let all_run : p.run_jobs ≡ count is_queued (jobs_of w) =
                omega (arith, counted, none_left, free) in
              inl (e ∙ ap finished all_run, none_left)
          | inr (inl (e, free)) ↦ inr (p.run_jobs, (e, omega (arith, counted, free)))
          | inr (inr (e, _)) ↦
              absurd (never_blocked out env objects stream prefix draining fuel 0 p.run_jobs w e)
        ]

    -- Where no two jobs have one identifier, and with more fuel than there are queued jobs, each job
    -- after ProcessQueued is as before, or was queued before and is running, has failed without an
    -- object key, or has succeeded with the key that is made of its own organization and identifier;
    -- of such a job only the status, the object key, the message and the time of the update have
    -- changed. No other table has changed. This holds also where ProcessQueued never returns, of the
    -- tables that it has left.
    pub process_queued-Moves :
        HasJobIds (jobs_of w)
        → count is_queued (jobs_of w) < fuel
        → Moves out prefix
            (jobs_of w)
            (jobs_of (process_queued out env objects stream prefix fuel 0 w).1)
          × ((process_queued out env objects stream prefix fuel 0 w).1.db.tables
              ≡ record w.db.tables {
                export_jobs = jobs_of (process_queued out env objects stream prefix fuel 0 w).1;
              })
    process_queued-Moves ids enough = let p = all_rounds fuel 0 w ids enough in (p.moved, p.others)
