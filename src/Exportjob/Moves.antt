-- ===== src/Exportjob/Moves.antt =====
-- internal/exportjob/worker.go: what the worker may do to the table of export jobs.
use iot_backend.Base.{
  String, false, List, [], ◌∷◌, some, ◌==◌, eq_iff, find?, any, ◌≡◌, ◌⊎◌, refl, sym, Bool-cases,
  inl, inr, ap, subst, str_eq,
}
use iot_backend.Models.{ExportJob}
use iot_backend.Repository.Jobs.{is_queued}
use iot_backend.Repository.Jobs.Queue.{HasJobIds}
use iot_backend.Repository.Jobs.Updates.{update, update-absent}
use iot_backend.Archive.{Outside}
use iot_backend.Exportjob.{World}
use iot_backend.Exportjob.Round.{IsWorked}

module _ {S : Type 0} where
  abbrev pub jobs_of : World S → List ExportJob
  jobs_of w = w.db.tables.export_jobs

module _ (out : Outside) (prefix : String) where
  -- Each job is as before, or was queued and has been taken.
  abbrev pub Moves : List ExportJob → List ExportJob → Type 0
  Moves [] [] = Unit
  Moves (j ∷ js) (k ∷ ks) = ((k ≡ j) ⊎ IsWorked out prefix j k) × Moves js ks
  Moves [] (k ∷ ks) = ⊥
  Moves (j ∷ js) [] = ⊥

  pub IsWorked-not_queued : (j k : ExportJob) → IsWorked out prefix j k → is_queued k ≡ false
  IsWorked-not_queued j k w = elim w.ended [
    | inl (e, _) ↦ ap (λ s. str_eq s "queued") e
    | inr (inl (e, _)) ↦ ap (λ s. str_eq s "queued") e
    | inr (inr (e, _)) ↦ ap (λ s. str_eq s "queued") e
  ]

  worked_once : (i j k : ExportJob) → IsWorked out prefix i j → IsWorked out prefix j k → ⊥
  worked_once i j k w v = cc (IsWorked-not_queued i j w, (eq_iff _ _).1 v.was_queued)

  pub Moves-refl : (js : List ExportJob) → Moves js js
  Moves-refl [] = tt
  Moves-refl (j ∷ js) = (inl refl, Moves-refl js)

  pub Moves-trans : (is js ks : List ExportJob) → Moves is js → Moves js ks → Moves is ks
  Moves-trans [] [] ks m m' = m'
  Moves-trans (i ∷ is) (j ∷ js) (k ∷ ks) (m, ms) (m', ms') = (
    elim m [
      | inl e ↦ subst (λ i. (k ≡ i) ⊎ IsWorked out prefix i k) e m'
      | inr w ↦ elim m' [
        | inl e ↦ inr (subst (λ k. IsWorked out prefix i k) (sym e) w)
        | inr v ↦ absurd (worked_once i j k w v)
      ]
    ],
    Moves-trans is js ks ms ms',
  )
  Moves-trans [] (j ∷ js) ks m m' = absurd m
  Moves-trans (i ∷ is) [] ks m m' = absurd m
  Moves-trans (i ∷ is) (j ∷ js) [] m m' = absurd m'

  pub update-Moves :
      (f : ExportJob → ExportJob) (js : List ExportJob) (j : ExportJob)
      → HasJobIds js
      → find? (λ (i : ExportJob). i.id == j.id) js ≡ some j
      → IsWorked out prefix j (f j)
      → Moves js (update j.id f js)
  update-Moves f [] j h found w = tt
  update-Moves f (k ∷ ks) j (new, h) found w = elim (Bool-cases (k.id == j.id)) [
    | inl here ↦
        let same : k ≡ j = cc (rw here at found) in
        let alone : any (λ (i : ExportJob). i.id == j.id) ks ≡ false = rw same at new in
        rw here (
          inr (subst (λ i. IsWorked out prefix i (f i)) (sym same) w),
          rw (update-absent j.id f ks alone) (Moves-refl ks),
        )
    | inr there ↦ rw there (inl refl, update-Moves f ks j h (rw there at found) w)
  ]
