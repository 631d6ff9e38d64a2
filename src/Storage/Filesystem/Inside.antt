-- ===== src/Storage/Filesystem/Inside.antt =====
-- resolve of internal/storage/filesystem.go stays in the root.
use text.Mathlib.TextLemmas.{cons-append, nil-append}
use text.Mathlib.TextLemmas.{append_assoc}
use iot_backend.Base.{
  String, Option, false, List, [], ◌∷◌, ◌++◌, none, some, not, str_eq, eq_iff, eq_refl, filter, All,
  All-append, ◌≡◌, ◌≢◌, refl, ap, ◌∙◌, subst, Bool-cases, Option-cases, inl, inr,
}
use iot_backend.Text.{◌<>◌, split}
use iot_backend.Text.Split.{join-split, split-append, not_empty}
use iot_backend.Text.Search.{after, has_prefix, after_sound}
use iot_backend.Archive.Keys.{slash, slash_char}
use iot_backend.Storage.Key.{normalize_key}
use iot_backend.Storage.Key.Plain.{
  IsPart, IsPlain, split-slash, clean_rooted-IsPlain, normalize_key-IsPlain,
}
use iot_backend.Storage.Filesystem.{segments, rel_parts, rel, join_path, kept_inside, resolve}

filter-IsPart : (ps : List String) → All IsPart ps → filter (λ s. not (str_eq s "")) ps ≡ ps
filter-IsPart [] h = refl
filter-IsPart (p ∷ ps) (h, hs) = rw (not_empty p h.0) (ap (λ qs. p ∷ qs) (filter-IsPart ps hs))

not_parent : (k : String) → k ≢ ".." → str_eq k ".." ≡ false
not_parent k h = elim (Bool-cases (str_eq k "..")) [
  | inl e ↦ absurd (h ((eq_iff k "..").0 e))
  | inr e ↦ e
]

segments-IsPlain : (k : String) → IsPlain k → segments ("/" <> k) ≡ split slash k
segments-IsPlain k h = rw (split-slash k) (filter-IsPart (split slash k) h)

rel_parts-append : (ps qs : List String) → rel_parts ps (ps ++ qs) ≡ qs
unfolding rel_parts
rel_parts-append [] qs = refl
rel_parts-append (p ∷ ps) qs = rw (eq_refl p) (rel_parts-append ps qs)

split-parts : (s k : String) → split slash (s <> ("/" <> k)) ≡ split slash s ++ split slash k
split-parts s k = rw (cons-append, nil-append) (split-append slash_char s k)

pub IsPlain-parts : (s k : String) → IsPlain s → IsPlain k → IsPlain (s <> ("/" <> k))
IsPlain-parts s k h l = rw (split-parts s k) (All-append IsPart (split slash s) (split slash k) h l)

IsPlain-level : (k : String) → IsPlain k → (k ≢ "") × (k ≢ "..")
unfolding split
IsPlain-level k h = (λ e. (subst IsPlain e h).0.0 refl, λ e. (subst IsPlain e h).0.2 refl)

-- A plain name does not begin with the name of the parent.
IsPlain-has_prefix : (k : String) → IsPlain k → has_prefix k "../" ≡ false
unfolding has_prefix split
IsPlain-has_prefix k h = elim (Option-cases (after "../" k)) [
  | inl none_there ↦ rw none_there refl
  | inr (t, found) ↦
      let whole : k ≡ ".." <> ("/" <> t) = after_sound "../" k t found ∙ append_assoc ".." "/" t in
      let parts : split slash k ≡ ".." ∷ split slash t =
        ap (split slash) whole ∙ split-parts ".." t in
      let (p, ps) : All IsPart (".." ∷ split slash t) = subst (All IsPart) parts h in
      absurd (p.2 refl)
]

rel-IsPlain : (s k : String) → IsPlain s → IsPlain k → rel ("/" <> s) ("/" <> (s <> ("/" <> k))) ≡ k
unfolding rel
rel-IsPlain s k h l =
    rw
      (
        segments-IsPlain s h,
        segments-IsPlain (s <> ("/" <> k)) (IsPlain-parts s k h l),
        split-parts s k,
        rel_parts-append (split slash s) (split slash k),
        join-split slash_char k,
        not_empty k (IsPlain-level k l).0,
      )
      refl

join_path-IsPlain :
    (s k : String) → IsPlain s → IsPlain k → join_path ("/" <> s) k ≡ ("/" <> s) <> ("/" <> k)
unfolding join_path
join_path-IsPlain s k h l =
    let whole = append_assoc "/" s ("/" <> k) in
    rw (whole, clean_rooted-IsPlain (s <> ("/" <> k)) (IsPlain-parts s k h l)) refl

kept_inside-IsPlain :
    (s k : String)
    → IsPlain s
    → IsPlain k
    → kept_inside ("/" <> s) (("/" <> s) <> ("/" <> k)) ≡ some (("/" <> s) <> ("/" <> k))
kept_inside-IsPlain s k h l =
    rw
      (
        append_assoc "/" s ("/" <> k),
        rel-IsPlain s k h l,
        not_parent k (IsPlain-level k l).1,
        IsPlain-has_prefix k l,
      )
      refl

-- The path of a name below the root.
abbrev pub below : String → Option String → Option String
below root none = none
below root (some k) = some (root <> ("/" <> k))

-- A name, where there is one, whose parts all stand for themselves.
abbrev pub IsPlainName : Option String → Type 0
IsPlainName none = Unit
IsPlainName (some k) = IsPlain k

-- Where the root is a clean path of at least one part, `resolve` gives the root, a slash and the name
-- that normalizeKey gives, and fails only where normalizeKey does. No part of that name is empty, "."
-- or "..": the file lies below the root, and the test on filepath.Rel refuses nothing.
pub resolve-inside :
    (s raw : String)
    → IsPlain s
    → (resolve ("/" <> s) raw ≡ below ("/" <> s) (normalize_key raw))
      × IsPlainName (normalize_key raw)
unfolding resolve
resolve-inside s raw h = elim (Option-cases (normalize_key raw)) [
  | inl bad ↦ rw bad (refl, tt)
  | inr (k, named) ↦
      let l = normalize_key-IsPlain raw k named in
      rw (named, join_path-IsPlain s k h l) (kept_inside-IsPlain s k h l, l)
]
