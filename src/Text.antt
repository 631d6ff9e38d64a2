-- ===== src/Text.antt =====
-- The functions of Go's `strings` package that the program calls. A Go string is a native `String`
-- here: the code points of valid UTF-8 text, with `len` the number of its bytes.

pub mod Split
pub mod Search
use Prim.Native.Char.{Char, code}
use Prim.Native.String.{[], ◌∷◌}
use iot_backend.Base.{
  ℕ, String, Bool, true, false, ◌||◌, ◌&&◌, List, [], ◌∷◌, ◌==◌, leb, if◌then◌else◌, Option, none,
  some,
}

infixr 65 ◌<>◌
-- Concatenation of strings.
abbrev pub ◌<>◌ : String → String → String
s <> t = Prim.Native.String.◌++◌ s t

-- Put a character in front of the first part.
abbrev pub cons_first : Char → List String → List String
cons_first c [] = (c ∷ []) ∷ []
cons_first c (p ∷ ps) = (c ∷ p) ∷ ps

-- strings.Split(s, sep) for a separator of one character.
unfoldable pub split : ℕ → String → List String
split sep [] = [] ∷ []
split sep (c ∷ s) = if code c == sep then [] ∷ split sep s else cons_first c (split sep s)

-- unicode.IsSpace.
unfoldable pub is_space : ℕ → Bool
is_space n =
    (leb 9 n && leb n 13)
    || n == 32
    || n == 0x85
    || n == 0xa0
    || n == 0x1680
    || (leb 0x2000 n && leb n 0x200a)
    || n == 0x2028
    || n == 0x2029
    || n == 0x202f
    || n == 0x205f
    || n == 0x3000

-- The text without the characters at its front that pass a test (strings.TrimLeft).
unfoldable pub trim_left : (ℕ → Bool) → String → String
trim_left p [] = []
trim_left p (c ∷ s) = if p (code c) then trim_left p s else c ∷ s

-- The character goes on in front of what is left, unless nothing is left and it passes the test.
abbrev pub keep_char : (ℕ → Bool) → Char → String → String
keep_char p c [] = if p (code c) then [] else c ∷ []
keep_char p c (d ∷ t) = c ∷ d ∷ t

-- The text without the characters at its end that pass a test (strings.TrimRight).
unfoldable pub trim_right : (ℕ → Bool) → String → String
trim_right p [] = []
trim_right p (c ∷ s) = keep_char p c (trim_right p s)

-- strings.TrimSpace.
unfoldable pub trim_space : String → String
unfolding trim_left trim_right is_space
trim_space s = trim_right is_space (trim_left is_space s)

abbrev cut_later : Char → Option (String × String) → Option (String × String)
cut_later c none = none
cut_later c (some (before, after)) = some (c ∷ before, after)

-- strings.Cut(s, sep) for a separator of one character: the texts before and after the first one.
unfoldable pub cut : ℕ → String → Option (String × String)
cut sep [] = none
cut sep (c ∷ s) = let rest = cut sep s in if code c == sep then some ([], s) else cut_later c rest
