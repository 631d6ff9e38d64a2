-- ===== src/Text/Split.antt =====
-- Splitting a string at a separator, and joining the parts again.
use Prim.Native.Char.{Char, code}
use Prim.Native.String.{[], ◌∷◌}
use text.Mathlib.TextLemmas.{nil-append, cons-append}
use text.Mathlib.TextEquality.{Char-path}
use iot_backend.Base.{
  ℕ, String, Bool, true, false, not, ◌&&◌, List, [], ◌∷◌, ◌++◌, ◌==◌, All, ◌≡◌, ◌≢◌, arith, ap,
  refl, sym, Bool-cases, inl, inr, ==_iff, str_eq, eq_iff, ◌∙◌,
}
use iot_backend.Text.{◌<>◌, cons_first, split}

-- No character of the text is the separator.
abbrev pub IsFree : ℕ → String → Type 0
IsFree sep [] = Unit
IsFree sep (c ∷ s) = (code c ≢ sep) × IsFree sep s

-- The parts joined with the separator between them; strings.Join.
unfoldable pub join : Char → List String → String
join sep [] = []
join sep (p ∷ []) = p
join sep (p ∷ q ∷ ps) = p <> (sep ∷ join sep (q ∷ ps))

pub IsFree-append : (sep : ℕ) (s t : String) → IsFree sep s → IsFree sep t → IsFree sep (s <> t)
IsFree-append sep [] t h k = rw nil-append k
IsFree-append sep (c ∷ s) t (h, hs) k = rw cons-append (h, IsFree-append sep s t hs k)

split-cons_free :
    (sep : ℕ) (c : Char) (s : String)
    → code c ≢ sep
    → split sep (c ∷ s) ≡ cons_first c (split sep s)
unfolding split
split-cons_free sep c s h = ground arith

-- A text free of the separator, then the separator: the first part is that text.
pub split-append_sep :
    (sep : Char) (p s : String)
    → IsFree (code sep) p
    → split (code sep) (p <> (sep ∷ s)) ≡ p ∷ split (code sep) s
unfolding split
split-append_sep sep [] s h = rw (nil-append, split) (ground arith)
split-append_sep sep (c ∷ p) s (h, hs) =
    rw (cons-append, split-cons_free (code sep) c (p <> (sep ∷ s)) h)
      (ap (cons_first c) (split-append_sep sep p s hs))

cons_first-append :
    (c : Char) (ps qs : List String) → ps ≢ [] → cons_first c (ps ++ qs) ≡ cons_first c ps ++ qs
cons_first-append c [] qs h = absurd (h refl)
cons_first-append c (p ∷ ps) qs h = refl

pub split_free : (sep : ℕ) (p : String) → IsFree sep p → split sep p ≡ p ∷ []
unfolding split
split_free sep [] h = refl
split_free sep (c ∷ p) (h, hs) = rw (split-cons_free sep c p h, split_free sep p hs)

cons_first-ne-nil : (c : Char) (ps : List String) → cons_first c ps ≢ []
cons_first-ne-nil c [] e = cc
cons_first-ne-nil c (p ∷ ps) e = cc

split-ne-nil : (sep : ℕ) (s : String) → split sep s ≢ []
unfolding split
split-ne-nil sep [] e = cc
split-ne-nil sep (c ∷ s) e = elim (Bool-cases (code c == sep)) [
  | inl here ↦ cc (rw here at e)
  | inr other ↦ cons_first-ne-nil c (split sep s) (rw other at e)
]

cons_first-IsFree :
    (sep : ℕ) (c : Char) (ps : List String)
    → code c ≢ sep
    → All (IsFree sep) ps
    → All (IsFree sep) (cons_first c ps)
cons_first-IsFree sep c [] h hs = ((h, tt), tt)
cons_first-IsFree sep c (p ∷ ps) h (k, ks) = ((h, k), ks)

-- Each part of a split text is free of the separator.
pub split-IsFree : (sep : ℕ) (s : String) → All (IsFree sep) (split sep s)
unfolding split
split-IsFree sep [] = (tt, tt)
split-IsFree sep (c ∷ s) = elim (Bool-cases (code c == sep)) [
  | inl here ↦ rw here (tt, split-IsFree sep s)
  | inr other ↦ rw other (cons_first-IsFree sep c (split sep s) (ground arith) (split-IsFree sep s))
]

join-cons_first : (sep c : Char) (ps : List String) → join sep (cons_first c ps) ≡ c ∷ join sep ps
unfolding join
join-cons_first sep c [] = refl
join-cons_first sep c (p ∷ []) = refl
join-cons_first sep c (p ∷ q ∷ ps) = cons-append c p (sep ∷ join sep (q ∷ ps))

join-nil_cons : (sep : Char) (ps : List String) → ps ≢ [] → join sep ([] ∷ ps) ≡ sep ∷ join sep ps
unfolding join
join-nil_cons sep [] h = absurd (h refl)
join-nil_cons sep (p ∷ ps) h = nil-append _

-- strings.Join after strings.Split at the same separator gives the text back.
pub join-split : (sep : Char) (s : String) → join sep (split (code sep) s) ≡ s
unfolding split
join-split sep [] = unfold join in refl
join-split sep (c ∷ s) = elim (Bool-cases (code c == code sep)) [
  | inl here ↦
      let same : c ≡ sep = Char-path c sep ((==_iff _ _).0 here) in
      rw
        (here, join-nil_cons sep (split (code sep) s) (split-ne-nil (code sep) s), join-split sep s)
        (ap (λ d. d ∷ s) (sym same))
  | inr other ↦
      rw (other, join-cons_first sep c (split (code sep) s)) (ap (λ t. c ∷ t) (join-split sep s))
]

-- A separator between two texts: the parts of the one, then those of the other.
pub split-append :
    (sep : Char) (p s : String)
    → split (code sep) (p <> (sep ∷ s)) ≡ split (code sep) p ++ split (code sep) s
unfolding split
split-append sep [] s = rw (nil-append, split) (ground arith)
split-append sep (c ∷ p) s = elim (Bool-cases (code c == code sep)) [
  | inl here ↦ rw (cons-append, here, split-append sep p s)
  | inr other ↦
      rw (cons-append, other, split-append sep p s)
        (cons_first-append c (split (code sep) p) (split (code sep) s) (split-ne-nil (code sep) p))
]

pub not_empty : (s : String) → s ≢ "" → str_eq s "" ≡ false
not_empty s h = elim (Bool-cases (str_eq s "")) [
  | inl empty ↦ absurd (h ((eq_iff s "").0 empty))
  | inr filled ↦ filled
]

pub append-filled : (s t : String) → t ≢ "" → s <> t ≢ ""
append-filled [] t h e = h (sym (nil-append t) ∙ e)
append-filled (c ∷ s) t h e = cc (sym (cons-append c s t) ∙ e)

-- The test of IsFree.
abbrev pub is_free : ℕ → String → Bool
is_free sep [] = true
is_free sep (c ∷ s) = not (code c == sep) && is_free sep s

pub is_free-IsFree : (sep : ℕ) (s : String) → is_free sep s ≡ true → IsFree sep s
is_free-IsFree sep [] h = tt
is_free-IsFree sep (c ∷ s) h = (ground (arith, h), is_free-IsFree sep s (ground (arith, h)))

pub unequal : (s t : String) → s ≢ t → str_eq s t ≡ false
unequal s t h = elim (Bool-cases (str_eq s t)) [ inl e ↦ absurd (h ((eq_iff s t).0 e)) | inr e ↦ e ]
