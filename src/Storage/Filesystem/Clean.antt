-- ===== src/Storage/Filesystem/Clean.antt =====
-- The paths that resolve of internal/storage/filesystem.go gives, and their directories, are clean.
use text.Mathlib.TextLemmas.{cons-append, nil-append, append_assoc}
use Prim.Native.String.{◌∷◌}
use iot_backend.Base.{
  String, List, [], ◌∷◌, some, str_eq, All, ◌≡◌, ◌≢◌, refl, sym, ap, ◌∙◌, subst, if◌then◌else◌,
  Option-cases, inl, inr,
}
use iot_backend.Text.{◌<>◌, split}
use iot_backend.Text.Split.{IsFree, join, split_free, split-IsFree, split-append, unequal}
use iot_backend.Archive.Keys.{slash, slash_char}
use iot_backend.Storage.Key.{drop_last, clean_rooted, normalize_key}
use iot_backend.Storage.Key.Plain.{
  IsPart, IsPlain, split-slash, clean_rooted-IsPlain, normalize_key-IsPlain,
}
use iot_backend.Storage.Filesystem.{dir, resolve}
use iot_backend.Storage.Filesystem.Inside.{below, IsPlain-parts, resolve-inside}

-- A path as filepath.Join and filepath.Abs give it, which has no other spelling.
abbrev pub IsClean : String → Type 0
IsClean q = clean_rooted q ≡ q

split-join :
    (p : String) (ps : List String)
    → All (IsFree slash) (p ∷ ps)
    → split slash (join slash_char (p ∷ ps)) ≡ p ∷ ps
unfolding join
split-join p [] (h, hs) = split_free slash p h
split-join p (q ∷ ps) (h, hs) =
    rw (split-append slash_char p (join slash_char (q ∷ ps)), split_free slash p h)
      (ap (λ t. p ∷ t) (split-join q ps hs))

All-drop_last : (P : String → Type 0) (ps : List String) → All P ps → All P (drop_last ps)
All-drop_last P [] h = tt
All-drop_last P (p ∷ []) h = tt
All-drop_last P (p ∷ q ∷ ps) (h, hs) = (h, All-drop_last P (q ∷ ps) hs)

join-IsClean :
    (p : String) (ps : List String)
    → All IsPart (p ∷ ps)
    → All (IsFree slash) (p ∷ ps)
    → IsClean ("/" <> join slash_char (p ∷ ps))
join-IsClean p ps h free =
    clean_rooted-IsPlain (join slash_char (p ∷ ps))
      (subst (All IsPart) (sym (split-join p ps free)) h)

slash-cons : (t : String) → "/" <> t ≡ slash_char ∷ t
slash-cons t = rw (cons-append, nil-append) refl

root-IsClean : IsClean "/"
unfolding clean_rooted
root-IsClean = refl

-- filepath.Dir of the path that stands below the root with these parts.
abbrev dir_of : List String → String
dir_of ps = let d = join slash_char (drop_last ("" ∷ ps)) in if str_eq d "" then "/" else d

dir_of-IsClean : (ps : List String) → All IsPart ps → All (IsFree slash) ps → IsClean (dir_of ps)
unfolding join
dir_of-IsClean [] h free = root-IsClean
dir_of-IsClean (p ∷ []) h free = root-IsClean
dir_of-IsClean (p ∷ q ∷ ps) (h, hs) (f, fs) =
    let rest = drop_last (q ∷ ps) in
    let d : join slash_char ("" ∷ p ∷ rest) ≡ "/" <> join slash_char (p ∷ rest) =
      nil-append _ ∙ sym (slash-cons (join slash_char (p ∷ rest))) in
    let filled : "/" <> join slash_char (p ∷ rest) ≢ "" =
      rw (cons-append, nil-append) (λ e. cc e) in
    rw (d, unequal ("/" <> join slash_char (p ∷ rest)) "" filled)
      (join-IsClean p rest (h, All-drop_last IsPart (q ∷ ps) hs)
        (f, All-drop_last (IsFree slash) (q ∷ ps) fs))

dir-IsClean : (x : String) → IsPlain x → IsClean (dir ("/" <> x))
unfolding dir
dir-IsClean x h = rw (split-slash x) (dir_of-IsClean (split slash x) h (split-IsFree slash x))

-- Below a clean root of at least one part, every path that resolve gives is clean, and so is its
-- directory.
pub resolve-IsClean :
    (s raw full : String)
    → IsPlain s
    → resolve ("/" <> s) raw ≡ some full
    → IsClean full × IsClean (dir full)
resolve-IsClean s raw full h found = elim (Option-cases (normalize_key raw)) [
  | inl bad ↦ cc (sym found ∙ (resolve-inside s raw h).0 ∙ ap (below ("/" <> s)) bad)
  | inr (k, named) ↦
      let l = normalize_key-IsPlain raw k named in
      let x = s <> ("/" <> k) in
      let same : "/" <> x ≡ full = cc (
        sym found ∙ (resolve-inside s raw h).0 ∙ ap (below ("/" <> s)) named,
        append_assoc "/" s ("/" <> k),
      ) in
      let plain = IsPlain-parts s k h l in
      subst (λ q. IsClean q × IsClean (dir q)) same
        (clean_rooted-IsPlain x plain, dir-IsClean x plain)
]
