-- ===== src/Dict.antt =====
-- Go maps with texts as keys, as association lists.
use iot_backend.Base.{
  String, true, false, List, [], ◌∷◌, Option, none, some, str_eq, eq_iff, if◌then◌else◌, ◌≡◌, refl,
  arith, ◌∙◌, Bool-cases, inl, inr, ◌⊎◌,
}

module _ {ℓ} {V : Type ℓ} where
  -- `m[k]`.
  unfoldable pub lookup : String → List (String × V) → Option V
  lookup k [] = none
  lookup k ((j, v) ∷ m) = if str_eq j k then some v else lookup k m

  -- `m[k] = v`.
  unfoldable pub insert : String → V → List (String × V) → List (String × V)
  insert k v [] = (k, v) ∷ []
  insert k v ((j, w) ∷ m) = if str_eq j k then (k, v) ∷ m else (j, w) ∷ insert k v m

  -- `delete(m, k)`: a key stands once.
  unfoldable pub remove : String → List (String × V) → List (String × V)
  remove k [] = []
  remove k ((j, w) ∷ m) = if str_eq j k then m else (j, w) ∷ remove k m

  pub lookup-insert :
      (k j : String) (v : V) (m : List (String × V))
      → lookup j (insert k v m) ≡ (if str_eq k j then some v else lookup j m)
  unfolding lookup insert
  lookup-insert k j v [] = refl
  lookup-insert k j v ((i, w) ∷ m) =
      ground (arith, eq_iff i k, eq_iff i j, eq_iff k j, lookup-insert k j v m)

  -- A text that is not a key.
  abbrev pub IsNew : String → List (String × V) → Type ℓ
  IsNew k m = lookup k m ≡ none

  -- Each key stands once.
  abbrev pub IsDict : List (String × V) → Type ℓ
  IsDict [] = Unit
  IsDict ((k, v) ∷ m) = IsNew k m × IsDict m

  pub IsDict-insert :
      (k : String) (v : V) (m : List (String × V)) → IsDict m → IsDict (insert k v m)
  unfolding insert lookup
  IsDict-insert k v [] h = (refl, tt)
  IsDict-insert k v ((j, w) ∷ m) (new, h) = elim (Bool-cases (str_eq j k)) [
    | inl here ↦ let same : j ≡ k = (eq_iff j k).0 here in rw here (rw same at new, h)
    | inr there ↦
        let other : str_eq k j ≡ false = ground (arith, there, eq_iff j k, eq_iff k j) in
        rw there (lookup-insert k j v m ∙ rw other new, IsDict-insert k v m h)
  ]

  pub lookup-remove :
      (k j : String) (m : List (String × V))
      → IsDict m
      → lookup j (remove k m) ≡ (if str_eq k j then none else lookup j m)
  unfolding remove lookup
  lookup-remove k j [] h = ground arith
  lookup-remove k j ((i, w) ∷ m) (new, h) = elim (Bool-cases (str_eq i k)) [
    | inl here ↦
        let same : i ≡ k = (eq_iff i k).0 here in
        rw (here, same) (at_key (Bool-cases (str_eq k j)) (rw same at new))
    | inr there ↦
        rw there (ground (arith, there, eq_iff i k, eq_iff i j, eq_iff k j, lookup-remove k j m h))
  ]
    where
      at_key :
          (str_eq k j ≡ true) ⊎ (str_eq k j ≡ false)
          → lookup k m ≡ none
          → lookup j m ≡ (if str_eq k j then none else if str_eq k j then some w else lookup j m)
      at_key (inl here) new = let same : k ≡ j = (eq_iff k j).0 here in rw here (rw (← same) new)
      at_key (inr there) new = rw there

  pub IsDict-remove : (k : String) (m : List (String × V)) → IsDict m → IsDict (remove k m)
  unfolding remove
  IsDict-remove k [] h = tt
  IsDict-remove k ((j, w) ∷ m) (new, h) = elim (Bool-cases (str_eq j k)) [
    | inl here ↦ rw here h
    | inr there ↦
        let other : str_eq k j ≡ false = ground (arith, there, eq_iff j k, eq_iff k j) in
        rw there (lookup-remove k j m h ∙ rw other new, IsDict-remove k m h)
  ]
