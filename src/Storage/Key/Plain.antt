-- ===== src/Storage/Key/Plain.antt =====
-- What normalizeKey of internal/storage/key.go gives, and which names it keeps.
use text.Mathlib.TextLemmas.{nil-append, cons-append}
use mathlib.Core.List.{append-nil, append_assoc}
use iot_backend.Base.{
  String, false, List, [], ◌∷◌, ◌++◌, none, some, ◌||◌, str_eq, eq_iff, any, All, ◌≡◌, ◌≢◌, refl,
  sym, ap, ◌∙◌, arith, subst, Bool-cases, Option-cases, inl, inr,
}
use iot_backend.Text.{◌<>◌, split, trim_space}
use iot_backend.Text.Split.{join-split, unequal}
use iot_backend.Text.Search.{after, trim_prefix, contains, after-append, after_sound}
use iot_backend.Archive.Keys.{slash, slash_char}
use iot_backend.Storage.Key.{clean_parts, clean_rooted, bad_part, checked, normalize_key}

-- A part of a path that stands for itself.
abbrev pub IsPart : String → Type 0
IsPart p = (p ≢ "") × (p ≢ ".") × (p ≢ "..")

-- Every part of the path between slashes stands for itself.
abbrev pub IsPlain : String → Type 0
IsPlain k = All IsPart (split slash k)

differs : (s t : String) → str_eq s t ≡ false → s ≢ t
differs s t h e = cc (h, (eq_iff s t).1 e)

bad_part-IsPart : (p : String) → bad_part p ≡ false → IsPart p
bad_part-IsPart p h = (
  differs p "" (ground (arith, h)),
  differs p "." (ground (arith, h)),
  differs p ".." (ground (arith, h)),
)

IsPart-bad_part : (p : String) → IsPart p → bad_part p ≡ false
IsPart-bad_part p (h, k, l) = rw (unequal p "" h, unequal p "." k, unequal p ".." l) refl

pub any-bad_part : (ps : List String) → any bad_part ps ≡ false → All IsPart ps
any-bad_part [] h = tt
any-bad_part (p ∷ ps) h =
    (bad_part-IsPart p (ground (arith, h)), any-bad_part ps (ground (arith, h)))

IsPart-any : (ps : List String) → All IsPart ps → any bad_part ps ≡ false
IsPart-any [] h = refl
IsPart-any (p ∷ ps) (h, hs) = rw (IsPart-bad_part p h) (IsPart-any ps hs)

checked-IsPlain : (s k : String) → checked s ≡ some k → IsPlain k
checked-IsPlain s k e = elim (Bool-cases (str_eq s "." || str_eq s "")) [
  | inl bad ↦ cc (rw bad at e)
  | inr fine ↦ elim (Bool-cases (any bad_part (split slash s))) [
    | inl bad ↦ cc (rw (fine, bad) at e)
    | inr all ↦
        let same : s ≡ k = cc (rw (fine, all) at e) in subst IsPlain same (any-bad_part _ all)
  ]
]

-- A name that normalizeKey gives has no part that is empty, ".", or "..": it does not lead out of
-- the directory that it is put in.
pub normalize_key-IsPlain : (raw k : String) → normalize_key raw ≡ some k → IsPlain k
unfolding normalize_key
normalize_key-IsPlain raw k e =
    let key = trim_prefix (trim_space raw) "/" in
    elim (Bool-cases (str_eq key "")) [
      | inl empty ↦ cc (rw empty at e)
      | inr named ↦ elim (Bool-cases (contains key "\\" || contains key "..")) [
        | inl bad ↦ cc (rw (named, bad) at e)
        | inr fine ↦
            checked-IsPlain (trim_prefix (clean_rooted ("/" <> key)) "/") k (rw (named, fine) at e)
      ]
    ]

pub clean_parts-IsPart : (kept ps : List String) → All IsPart ps → clean_parts kept ps ≡ kept ++ ps
unfolding clean_parts
clean_parts-IsPart kept [] h = sym (append-nil kept)
clean_parts-IsPart kept (p ∷ ps) ((h, k, l), hs) =
    rw (unequal p "" h, unequal p "." k, unequal p ".." l)
      (clean_parts-IsPart (kept ++ p ∷ []) ps hs ∙ append_assoc kept (p ∷ []) ps)

-- A name without spaces around it, backslashes and two dots in a row, whose parts all stand for
-- themselves.
pub record IsName (k : String) : Type 0 where
  pub trimmed : trim_space k ≡ k
  pub plain : IsPlain k
  pub no_backslash : contains k "\\" ≡ false
  pub no_dots : contains k ".." ≡ false

pub split-slash : (s : String) → split slash ("/" <> s) ≡ "" ∷ split slash s
unfolding split
split-slash s = rw (cons-append, nil-append) refl

pub IsPlain-after : (k : String) → IsPlain k → after "/" k ≡ none
IsPlain-after k h = elim (Option-cases (after "/" k)) [
  | inl none_there ↦ none_there
  | inr (t, found) ↦
      let whole : k ≡ "/" <> t = after_sound "/" k t found in
      let parts : split slash k ≡ "" ∷ split slash t = ap (split slash) whole ∙ split-slash t in
      let (p, ps) : All IsPart ("" ∷ split slash t) = subst (All IsPart) parts h in
      absurd (p.0 refl)
]

pub clean_rooted-IsPlain : (k : String) → IsPlain k → clean_rooted ("/" <> k) ≡ "/" <> k
unfolding clean_rooted clean_parts
clean_rooted-IsPlain k h =
    rw (split-slash k, clean_parts-IsPart [] (split slash k) h, join-split slash_char k) refl

IsPlain-named : (k : String) → IsPlain k → (k ≢ "") × (k ≢ ".")
unfolding split
IsPlain-named k h = (λ e. (subst IsPlain e h).0.0 refl, λ e. (subst IsPlain e h).0.1 refl)

-- normalizeKey keeps a name that has no spaces around it, no backslash, no two dots in a row and no
-- part that is empty or ".".
pub normalize_key-IsName : (k : String) → IsName k → normalize_key k ≡ some k
unfolding normalize_key trim_prefix
normalize_key-IsName k h =
    let (full, no_dot) = IsPlain-named k h.plain in
    rw
      (
        h.trimmed,
        IsPlain-after k h.plain,
        unequal k "" full,
        h.no_backslash,
        h.no_dots,
        clean_rooted-IsPlain k h.plain,
        after-append "/" k,
        unequal k "." no_dot,
        unequal k "" full,
        IsPart-any (split slash k) h.plain,
      )
      refl
