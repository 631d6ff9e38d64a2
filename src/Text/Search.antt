-- ===== src/Text/Search.antt =====
-- The functions of Go's `strings` that look for one text in another, and sort.Strings.
use Prim.Native.Char.{code}
use Prim.Native.String.{[], ◌∷◌, compare}
use Prim.Native.Nat.{Ordering}
use text.Mathlib.TextEquality.{Char-path}
use text.Mathlib.TextLemmas.{nil-append, cons-append}
use iot_backend.Base.{
  String, Bool, true, false, ◌||◌, ◌==◌, ==_iff, Option, none, some, or_else, if◌then◌else◌, ◌≡◌,
  refl, ap, arith, Bool-cases, inl, inr,
}
use iot_backend.Text.{◌<>◌}

-- What stands after a text at the front of another.
unfoldable pub after : String → String → Option String
after [] s = some s
after (c ∷ w) [] = none
after (c ∷ w) (d ∷ s) = if code c == code d then after w s else none

abbrev is_some : Option String → Bool
is_some none = false
is_some (some s) = true

-- strings.HasPrefix(s, prefix).
unfoldable pub has_prefix : String → String → Bool
unfolding after
has_prefix s prefix = is_some (after prefix s)

-- strings.TrimPrefix(s, prefix).
unfoldable pub trim_prefix : String → String → String
unfolding after
trim_prefix s prefix = or_else (after prefix s) s

-- strings.Contains(s, part).
unfoldable pub contains : String → String → Bool
unfolding has_prefix
contains [] part = has_prefix [] part
contains (c ∷ s) part = has_prefix (c ∷ s) part || contains s part

-- `a <= b` on texts.
abbrev pub text_le : String → String → Bool
text_le a b = elim (compare a b) [ Ordering.gt ↦ false | _ ↦ true ]

pub after-append : (w s : String) → after w (w <> s) ≡ some s
unfolding after
after-append [] s = rw nil-append refl
after-append (c ∷ w) s = rw cons-append (ground (arith, after-append w s))

pub after_sound : (w s t : String) → after w s ≡ some t → s ≡ w <> t
unfolding after
after_sound [] s t e = rw nil-append (cc e)
after_sound (c ∷ w) [] t e = cc e
after_sound (c ∷ w) (d ∷ s) t e = elim (Bool-cases (code c == code d)) [
  | inl same ↦
      let one : c ≡ d = Char-path c d ((==_iff _ _).0 same) in
      rw (one, cons-append) (ap (λ r. d ∷ r) (after_sound w s t (rw same at e)))
  | inr other ↦ cc (rw other at e)
]
