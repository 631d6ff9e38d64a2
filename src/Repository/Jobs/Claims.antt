-- ===== src/Repository/Jobs/Claims.antt =====
-- What ClaimNextExportJob of internal/repository/postgres.go returns and changes.
use iot_backend.Base.{
  ℕ, ◌+◌, ◌≤◌, true, List, [], ◌∷◌, none, some, ◌==◌, eq_iff, if◌then◌else◌, filter, find?, count,
  All, ◌≡◌, ◌⊎◌, refl, Bool-cases, Option-cases, inl, inr, subst,
}
use iot_backend.Models.{Uuid, ExportJob, export_queued, export_running}
use iot_backend.Repository.{
  Result, ok, err, failed, not_found, update_where, Env, Db, place, order_by,
}
use iot_backend.Repository.Jobs.{
  first, is_queued, created_before, next_job, claimed, claim, claim_next_export_job,
}
use iot_backend.Repository.Jobs.Queue.{
  HasJobIds, next_job-earliest, next_job-one_of, All-queued, All-found, All-filter, count-claimed,
  find?-claimed,
}

-- The job was queued, and created no later than any queued job; it is running now, all else of it
-- and every other job is as before, and the queue has one job less.
pub record IsClaimed (env : Env) (n : ℕ) (js js' : List ExportJob) (j : ExportJob) : Type 0 where
  pub old : ExportJob
  pub there : find? (λ (i : ExportJob). i.id == old.id) js ≡ some old
  pub was_queued : old.status ≡ export_queued
  pub earliest : All (λ k. is_queued k ≡ true → old.created_at ≤ k.created_at) js
  pub marked : j ≡ record old { status = export_running; updated_at = env.now n }
  pub after :
      (id : Uuid)
      → find? (λ (i : ExportJob). i.id == id) js'
        ≡ (if old.id == id then some j else find? (λ (i : ExportJob). i.id == id) js)
  pub fewer : count is_queued js' + 1 ≡ count is_queued js

empty_filter : (js : List ExportJob) → filter is_queued js ≡ [] → count is_queued js ≡ 0
empty_filter [] e = refl
empty_filter (j ∷ js) e = elim (Bool-cases (is_queued j)) [
  | inl waits ↦ cc (rw waits at e)
  | inr idle ↦ rw idle (empty_filter js (rw idle at e))
]

first-place-some :
    (x : ExportJob) (ys : List ExportJob) → first (place created_before x ys) ≡ none → ⊥
first-place-some x [] e = cc
first-place-some x (y ∷ ys) e = elim (Bool-cases (created_before x y)) [
  | inl le ↦ cc (rw le at e)
  | inr gt ↦ cc (rw gt at e)
]

empty_order : (js : List ExportJob) → first (order_by created_before js) ≡ none → js ≡ []
empty_order [] e = refl
empty_order (j ∷ js) e = absurd (first-place-some j (order_by created_before js) e)

module _ (env : Env) where
  -- On a table of jobs with distinct identifiers, ClaimNextExportJob returns a job only where it
  -- was queued and the oldest queued one; it marks that job as running, and changes no other. It
  -- reports that there is none only where no job is queued, and then changes none.
  pub claim_next_export_job-IsClaimed :
      (db : Db)
      → HasJobIds db.tables.export_jobs
      → ((j : ExportJob)
          → (claim_next_export_job env db).0 ≡ ok j
          → IsClaimed env db.statements db.tables.export_jobs
              (claim_next_export_job env db).1.tables.export_jobs
              j)
        × ((claim_next_export_job env db).0 ≡ err not_found
            → (count is_queued db.tables.export_jobs ≡ 0)
              × ((claim_next_export_job env db).1.tables ≡ db.tables))
  unfolding claim_next_export_job next_job
  claim_next_export_job-IsClaimed db ids =
      let js = db.tables.export_jobs in
      elim (Bool-cases (env.fails db.statements)) [
        | inl down ↦ rw down (λ j e. cc, λ e. cc)
        | inr up ↦ elim (Option-cases (next_job js)) [
          | inl none_left ↦
              rw (up, none_left)
                (
                  λ j e. cc,
                  λ e. (empty_filter js (empty_order (filter is_queued js) none_left), refl),
                )
          | inr (old, next) ↦
              let waits = next_job-one_of js old (λ k. is_queued k ≡ true) (All-queued js) next in
              let there =
                next_job-one_of js old (λ k. find? (λ (i : ExportJob). i.id == k.id) js ≡ some k)
                  (All-filter _ js (All-found js ids)) next in
              rw (up, next)
                (
                  λ j e.
                      let made : claimed env db.statements old ≡ j = cc e in
                      subst
                        (IsClaimed env db.statements js
                          (claim env db.statements db.tables (some old)).1.export_jobs)
                        made
                        (record {
                          old = old;
                          there = there;
                          was_queued = (eq_iff _ _).0 waits;
                          earliest = next_job-earliest js old next;
                          marked = refl;
                          after = λ id. find?-claimed env db.statements js old id there;
                          fewer = count-claimed env db.statements js old ids there waits;
                        }),
                  λ e. cc,
                )
        ]
      ]

-- The queued job that is taken.
pub record IsTaken (env : Env) (db db' : Db) (r : Result ExportJob) : Type 0 where
  pub old : ExportJob
  pub there : find? (λ (i : ExportJob). i.id == old.id) db.tables.export_jobs ≡ some old
  pub waits : is_queued old ≡ true
  pub answer : r ≡ ok (claimed env db.statements old)
  pub after : db'.tables ≡ record db.tables {
    export_jobs =
        update_where (λ k. k.id == old.id) (claimed env db.statements) db.tables.export_jobs;
  }

module _ (env : Env) where
  -- ClaimNextExportJob takes a queued job, or changes nothing: it failed, or no job is queued.
  pub claim_next_export_job-cases :
      (db : Db)
      → HasJobIds db.tables.export_jobs
      → IsTaken env db (claim_next_export_job env db).1 (claim_next_export_job env db).0
        ⊎ (((claim_next_export_job env db).1.tables ≡ db.tables)
            × (((claim_next_export_job env db).0 ≡ err failed)
                ⊎ (((claim_next_export_job env db).0 ≡ err not_found)
                    × (count is_queued db.tables.export_jobs ≡ 0))))
  unfolding claim_next_export_job next_job
  claim_next_export_job-cases db ids =
      let js = db.tables.export_jobs in
      elim (Bool-cases (env.fails db.statements)) [
        | inl down ↦ inr (rw down (refl, inl refl))
        | inr up ↦ elim (Option-cases (next_job js)) [
          | inl none_left ↦
              let empty = empty_filter js (empty_order (filter is_queued js) none_left) in
              inr (rw (up, none_left) (refl, inr (refl, empty)))
          | inr (old, next) ↦
              let found =
                next_job-one_of js old (λ k. find? (λ (i : ExportJob). i.id == k.id) js ≡ some k)
                  (All-filter _ js (All-found js ids)) next in
              let waits = next_job-one_of js old (λ k. is_queued k ≡ true) (All-queued js) next in
              inl (
                rw (up, next)
                  (record { old = old; there = found; waits = waits; answer = refl; after = refl }))
        ]
      ]
