-- ===== src/Repository/Jobs/Queue.antt =====
-- The queue of export jobs: what ClaimNextExportJob of internal/repository/postgres.go takes.
use iot_backend.Base.{
  ℕ, ◌+◌, ◌≤◌, true, false, List, [], ◌∷◌, some, ◌==◌, ==_refl, if◌then◌else◌, filter, find?, any,
  count, All, ◌≡◌, refl, arith, Bool-cases, inl, inr, subst,
}
use iot_backend.Models.{Uuid, ExportJob}
use iot_backend.Repository.{Env, update_where, place, order_by}
use iot_backend.Repository.Jobs.{first, is_queued, created_before, next_job, claimed}

-- No two jobs have one identifier: the table's primary key.
abbrev pub HasJobIds : List ExportJob → Type 0
HasJobIds [] = Unit
HasJobIds (j ∷ js) = (any (λ k. k.id == j.id) js ≡ false) × HasJobIds js

module _ {ℓ} (P : ExportJob → Type ℓ) where
  All-place :
      (x : ExportJob) (ys : List ExportJob) → P x → All P ys → All P (place created_before x ys)
  All-place x [] p ps = (p, tt)
  All-place x (y ∷ ys) p (q, qs) = elim (Bool-cases (created_before x y)) [
    | inl le ↦ rw le (p, (q, qs))
    | inr gt ↦ rw gt (q, All-place x ys p qs)
  ]

  All-order_by : (xs : List ExportJob) → All P xs → All P (order_by created_before xs)
  All-order_by [] ps = tt
  All-order_by (x ∷ xs) (p, ps) = All-place x (order_by created_before xs) p (All-order_by xs ps)

  -- What holds of every job holds of the first.
  All-first : (xs : List ExportJob) (j : ExportJob) → All P xs → first xs ≡ some j → P j
  All-first [] j ps e = cc
  All-first (x ∷ xs) j (p, ps) e = subst P (cc e) p

  All-unplace :
      (x : ExportJob) (ys : List ExportJob) → All P (place created_before x ys) → P x × All P ys
  All-unplace x [] (p, _) = (p, tt)
  All-unplace x (y ∷ ys) ps = elim (Bool-cases (created_before x y)) [
    | inl le ↦ rw le at ps
    | inr gt ↦
        let (q, later) : P y × All P (place created_before x ys) = rw gt at ps in
        let (p, qs) = All-unplace x ys later in (p, (q, qs))
  ]

  All-unorder : (xs : List ExportJob) → All P (order_by created_before xs) → All P xs
  All-unorder [] ps = tt
  All-unorder (x ∷ xs) ps =
      let (p, later) = All-unplace x (order_by created_before xs) ps in (p, All-unorder xs later)

  All-unfilter :
      (xs : List ExportJob) → All P (filter is_queued xs) → All (λ k. is_queued k ≡ true → P k) xs
  All-unfilter [] ps = tt
  All-unfilter (x ∷ xs) ps = elim (Bool-cases (is_queued x)) [
    | inl waits ↦
        let (p, later) : P x × All P (filter is_queued xs) = rw waits at ps in
        (λ _. p, All-unfilter xs later)
    | inr idle ↦ (λ waits. absurd (cc (waits, idle)), All-unfilter xs (rw idle at ps))
  ]

  pub All-filter : (xs : List ExportJob) → All P xs → All P (filter is_queued xs)
  All-filter [] ps = tt
  All-filter (x ∷ xs) (p, ps) = elim (Bool-cases (is_queued x)) [
    | inl waits ↦ rw waits (p, All-filter xs ps)
    | inr idle ↦ rw idle (All-filter xs ps)
  ]

All-later :
    (x y : ExportJob) (ks : List ExportJob)
    → x.created_at ≤ y.created_at
    → All (λ k. y.created_at ≤ k.created_at) ks
    → All (λ k. x.created_at ≤ k.created_at) ks
All-later x y [] le ps = tt
All-later x y (k ∷ ks) le (p, ps) = (omega (arith, le, p), All-later x y ks le ps)

-- The first job was created no later than the others.
abbrev IsHeaded : List ExportJob → Type 0
IsHeaded [] = Unit
IsHeaded (j ∷ js) = All (λ k. j.created_at ≤ k.created_at) js

place-IsHeaded :
    (x : ExportJob) (ys : List ExportJob) → IsHeaded ys → IsHeaded (place created_before x ys)
place-IsHeaded x [] h = tt
place-IsHeaded x (y ∷ ys) h = elim (Bool-cases (created_before x y)) [
  | inl le ↦
      let earlier : x.created_at ≤ y.created_at = ground (arith, le) in
      rw le (earlier, All-later x y ys earlier h)
  | inr gt ↦
      let earlier : y.created_at ≤ x.created_at = ground (arith, gt) in
      rw gt (All-place (λ k. y.created_at ≤ k.created_at) x ys earlier h)
]

order_by-IsHeaded : (xs : List ExportJob) → IsHeaded (order_by created_before xs)
order_by-IsHeaded [] = tt
order_by-IsHeaded (x ∷ xs) = place-IsHeaded x (order_by created_before xs) (order_by-IsHeaded xs)

first-earliest :
    (xs : List ExportJob) (j : ExportJob)
    → IsHeaded xs
    → first xs ≡ some j
    → All (λ k. j.created_at ≤ k.created_at) xs
first-earliest [] j h e = tt
first-earliest (x ∷ xs) j h e =
    let same : x ≡ j = cc e in
    subst (λ i. All (λ (k : ExportJob). i.created_at ≤ k.created_at) (x ∷ xs)) same
      ((omega arith), h)

module _ (js : List ExportJob) (j : ExportJob) where
  -- The next job was created no later than any queued job.
  pub next_job-earliest :
      next_job js ≡ some j → All (λ k. is_queued k ≡ true → j.created_at ≤ k.created_at) js
  unfolding next_job
  next_job-earliest e =
      let P = λ (k : ExportJob). j.created_at ≤ k.created_at in
      let waiting = filter is_queued js in
      All-unfilter P js (
        All-unorder P waiting
          (first-earliest (order_by created_before waiting) j (order_by-IsHeaded waiting) e))

  pub next_job-one_of {ℓ} :
      (P : ExportJob → Type ℓ) → All P (filter is_queued js) → next_job js ≡ some j → P j
  unfolding next_job
  next_job-one_of P ps e =
      let waiting = filter is_queued js in
      All-first P (order_by created_before waiting) j (All-order_by P waiting ps) e

pub All-queued : (js : List ExportJob) → All (λ k. is_queued k ≡ true) (filter is_queued js)
All-queued [] = tt
All-queued (j ∷ js) = elim (Bool-cases (is_queued j)) [
  | inl waits ↦ rw waits (waits, All-queued js)
  | inr idle ↦ rw idle (All-queued js)
]

-- A job in front of the others, of another identifier than theirs, is not found in their place.
All-found_later :
    (j : ExportJob) (js ks : List ExportJob)
    → any (λ k. k.id == j.id) ks ≡ false
    → All (λ k. find? (λ (i : ExportJob). i.id == k.id) js ≡ some k) ks
    → All (λ k. find? (λ (i : ExportJob). i.id == k.id) (j ∷ js) ≡ some k) ks
All-found_later j js [] new ps = tt
All-found_later j js (k ∷ ks) new (p, ps) =
    let other : (j.id == k.id) ≡ false = ground (arith, new) in
    let rest : any (λ k. k.id == j.id) ks ≡ false = ground (arith, new) in
    (rw other p, All-found_later j js ks rest ps)

-- Each job is found by its identifier.
pub All-found :
    (js : List ExportJob)
    → HasJobIds js
    → All (λ k. find? (λ (i : ExportJob). i.id == k.id) js ≡ some k) js
All-found [] h = tt
All-found (j ∷ js) (new, h) = (ground arith, All-found_later j js js new (All-found js h))

module _ (env : Env) (n : ℕ) where
  absent :
      (id : Uuid) (js : List ExportJob)
      → any (λ k. k.id == id) js ≡ false
      → update_where (λ k. k.id == id) (claimed env n) js ≡ js
  absent id [] new = refl
  absent id (j ∷ js) new = ground (arith, absent id js)

  -- Claiming a queued job takes one job from the queue.
  pub count-claimed :
      (js : List ExportJob) (j : ExportJob)
      → HasJobIds js
      → find? (λ (i : ExportJob). i.id == j.id) js ≡ some j
      → is_queued j ≡ true
      → count is_queued (update_where (λ k. k.id == j.id) (claimed env n) js) + 1
        ≡ count is_queued js
  count-claimed [] j h found waits = cc
  count-claimed (k ∷ ks) j (new, h) found waits = elim (Bool-cases (k.id == j.id)) [
    | inl here ↦
        let same : k ≡ j = cc (rw here at found) in
        let alone : any (λ (i : ExportJob). i.id == j.id) ks ≡ false = rw same at new in
        let still = absent j.id ks alone in rw (same, ==_refl j.id, still, waits) (omega arith)
    | inr there ↦ ground (arith, there, count-claimed ks j h)
  ]

  find?-other :
      (js : List ExportJob) (j : ExportJob) (id : Uuid)
      → (j.id == id) ≡ false
      → find? (λ (i : ExportJob). i.id == id) (update_where (λ k. k.id == j.id) (claimed env n) js)
        ≡ find? (λ (i : ExportJob). i.id == id) js
  find?-other [] j id other = refl
  find?-other (k ∷ ks) j id other = ground (arith, find?-other ks j id other)

  pub find?-claimed :
      (js : List ExportJob) (j : ExportJob) (id : Uuid)
      → find? (λ (i : ExportJob). i.id == j.id) js ≡ some j
      → find? (λ (i : ExportJob). i.id == id) (update_where (λ k. k.id == j.id) (claimed env n) js)
        ≡ (if j.id == id then some (claimed env n j) else find? (λ (i : ExportJob). i.id == id) js)
  find?-claimed [] j id found = cc
  find?-claimed (k ∷ ks) j id found = elim (Bool-cases (k.id == j.id)) [
    | inl here ↦
        let same : k ≡ j = cc (rw here at found) in
        elim (Bool-cases (j.id == id)) [
          | inl asked ↦ rw (same, ==_refl j.id, asked)
          | inr other ↦ rw (same, ==_refl j.id, other) (find?-other ks j id other)
        ]
    | inr there ↦ ground (arith, there, find?-claimed ks j id)
  ]
