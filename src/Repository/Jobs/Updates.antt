-- ===== src/Repository/Jobs/Updates.antt =====
-- Updates of the export jobs of one identifier, as ClaimNextExportJob and FinishExportJob of
-- internal/repository/postgres.go make them.
use iot_backend.Base.{
  ℕ, ◌+◌, String, true, false, List, [], ◌∷◌, some, ◌==◌, ==_refl, find?, any, count, ◌≡◌, ◌⊎◌,
  refl, arith, Bool-cases, inl, inr, ap, ◌∙◌,
}
use iot_backend.Models.{Uuid, ExportJob}
use iot_backend.Repository.{Error, Env, Db, ok, err, failed, not_found, update_where}
use iot_backend.Repository.Jobs.{is_queued, valid_job_status, finish_export_job}
use iot_backend.Repository.Jobs.Queue.{HasJobIds}

abbrev pub KeepsId : (ExportJob → ExportJob) → Type 0
KeepsId f = (k : ExportJob) → (f k).id ≡ k.id

-- The jobs of an identifier, changed.
abbrev pub update : Uuid → (ExportJob → ExportJob) → List ExportJob → List ExportJob
update id f js = update_where (λ k. k.id == id) f js

module _ (id : Uuid) (f : ExportJob → ExportJob) where
  pub update-absent : (js : List ExportJob) → any (λ k. k.id == id) js ≡ false → update id f js ≡ js
  update-absent [] new = refl
  update-absent (j ∷ js) new = ground (arith, update-absent js)

  pub any-update :
      (i : Uuid) (js : List ExportJob)
      → KeepsId f
      → any (λ (k : ExportJob). k.id == i) (update id f js) ≡ any (λ k. k.id == i) js
  any-update i [] keeps = refl
  any-update i (j ∷ js) keeps = elim (Bool-cases (j.id == id)) [
    | inl here ↦ rw (here, keeps j, any-update i js keeps) refl
    | inr there ↦ rw (there, any-update i js keeps) refl
  ]

  pub update-HasJobIds :
      (js : List ExportJob) → KeepsId f → HasJobIds js → HasJobIds (update id f js)
  update-HasJobIds [] keeps h = tt
  update-HasJobIds (j ∷ js) keeps (new, h) = elim (Bool-cases (j.id == id)) [
    | inl here ↦ rw (here, keeps j, any-update j.id js keeps) (new, update-HasJobIds js keeps h)
    | inr there ↦ rw (there, any-update j.id js keeps) (new, update-HasJobIds js keeps h)
  ]

-- A queued job that leaves the queue is one job less in it.
pub count-update :
    (f : ExportJob → ExportJob) (js : List ExportJob) (j : ExportJob)
    → HasJobIds js
    → find? (λ (i : ExportJob). i.id == j.id) js ≡ some j
    → is_queued j ≡ true
    → is_queued (f j) ≡ false
    → count is_queued (update j.id f js) + 1 ≡ count is_queued js
count-update f [] j h found waits left = cc
count-update f (k ∷ ks) j (new, h) found waits left = elim (Bool-cases (k.id == j.id)) [
  | inl here ↦
      let same : k ≡ j = cc (rw here at found) in
      let alone : any (λ (i : ExportJob). i.id == j.id) ks ≡ false = rw same at new in
      let still = update-absent j.id f ks alone in
      rw (same, ==_refl j.id, still, waits, left) (omega arith)
  | inr there ↦ ground (arith, there, count-update f ks j h)
]

module _ (f g : ExportJob → ExportJob) (id : Uuid) where
  -- Two updates of one identifier are one update.
  pub update-update :
      (js : List ExportJob) → KeepsId f → update id g (update id f js) ≡ update id (λ k. g (f k)) js
  update-update [] keeps = refl
  update-update (j ∷ js) keeps = elim (Bool-cases (j.id == id)) [
    | inl here ↦
        let still : ((f j).id == id) ≡ true = ap (λ i. i == id) (keeps j) ∙ here in
        rw (here, still) (ap (λ ks. g (f j) ∷ ks) (update-update js keeps))
    | inr there ↦ rw there (rw there (ap (λ ks. j ∷ ks) (update-update js keeps)))
  ]

module _ (env : Env) where
  abbrev pub finished : ℕ → String → String → String → ExportJob → ExportJob
  finished n status object_key error_message j = record j {
    status = status;
    object_key = object_key;
    error_message = error_message;
    updated_at = env.now n;
  }

  -- FinishExportJob changes the job of that identifier, or reports an error and changes nothing.
  pub finish_export_job-cases :
      (id : Uuid) (status key message : String) (db : Db)
      → (((e : Error) × ((finish_export_job env id status key message db).0 ≡ err e))
          × ((finish_export_job env id status key message db).1.tables ≡ db.tables))
        ⊎ (((finish_export_job env id status key message db).0 ≡ ok tt)
            × ((finish_export_job env id status key message db).1.tables ≡ record db.tables {
              export_jobs =
                  update id (finished db.statements status key message) db.tables.export_jobs;
            }))
  unfolding finish_export_job
  finish_export_job-cases id status key message db = elim (Bool-cases (env.fails db.statements)) [
    | inl down ↦ inl (rw down ((failed, refl), refl))
    | inr up ↦ elim (Bool-cases (any (λ (j : ExportJob). j.id == id) db.tables.export_jobs)) [
      | inr missing ↦ inl (rw (up, missing) ((not_found, refl), refl))
      | inl there ↦ elim (Bool-cases (valid_job_status status)) [
        | inr invalid ↦ inl (rw (up, there, invalid) ((failed, refl), refl))
        | inl valid ↦ inr (rw (up, there, valid) (refl, refl))
      ]
    ]
  ]
