-- ===== src/Config/Environment.antt =====
-- What loadDotEnv of internal/config/config.go does to the variables of the process.
use iot_backend.Base.{
  String, false, List, [], ◌∷◌, Option, none, some, ◌||◌, str_eq, eq_iff, if◌then◌else◌, ◌≡◌, ◌≢◌,
  refl, ap, ◌∙◌, arith, subst, Bool-cases, inl, inr,
}
use iot_backend.Text.{split, cut, trim_space}
use iot_backend.Text.Search.{has_prefix}
use iot_backend.Dict.{lookup, lookup-insert}
use iot_backend.Config.{Vars, unquoted, set_new, set_pair, set_line, set_lines, load_dot_env}

abbrev trimmed : Option (String × String) → Option (String × String)
trimmed none = none
trimmed (some (key, val)) = some (trim_space key, unquoted (trim_space val))

-- The assignment of a line that is not empty, is no comment and has an equals sign.
abbrev pub assignment : String → Option (String × String)
assignment raw =
    let line = trim_space raw in
    if str_eq line "" || has_prefix line "#" then none else trimmed (cut b'=' line)

abbrev pub value_at : String → Option (String × String) → Option String
value_at k none = none
value_at k (some (key, val)) = if str_eq key k then some val else none

abbrev pub first_of : Option String → Option String → Option String
first_of none later = later
first_of (some v) later = some v

-- The value of the first line that assigns to a variable.
abbrev pub assigned : String → List String → Option String
assigned k [] = none
assigned k (line ∷ lines) = first_of (value_at k (assignment line)) (assigned k lines)

abbrev pub lines_of : Option String → List String
lines_of none = []
lines_of (some text) = split 10 text

unchanged : (o : Option String) → o ≡ first_of o none
unchanged none = refl
unchanged (some v) = refl

first_of-first_of : (o p q : Option String) → first_of (first_of o p) q ≡ first_of o (first_of p q)
first_of-first_of none p q = refl
first_of-first_of (some v) p q = refl

module _ (k : String) (named : k ≢ "") where
  -- A variable that the line names is set if it is new.
  set_new-lookup :
      (key val : String) (vars : Vars) (o : Option String)
      → lookup key vars ≡ o
      → lookup k (set_new key val o vars)
        ≡ first_of (lookup k vars) (if str_eq key k then some val else none)
  set_new-lookup key val vars (some old) there = elim (Bool-cases (str_eq key k)) [
    | inl here ↦
        let same : key ≡ k = (eq_iff key k).0 here in
        let found : lookup k vars ≡ some old = subst (λ j. lookup j vars ≡ some old) same there in
        rw found refl
    | inr other ↦ rw other (unchanged (lookup k vars))
  ]
  set_new-lookup key val vars none new = elim (Bool-cases (str_eq key "")) [
    | inl empty ↦
        let other : str_eq key k ≡ false =
          ground (arith, eq_iff key "", eq_iff key k, empty, named) in
        rw (empty, other) (unchanged (lookup k vars))
    | inr full ↦ elim (Bool-cases (str_eq key k)) [
      | inl here ↦
          let same : key ≡ k = (eq_iff key k).0 here in
          let missing : lookup k vars ≡ none = subst (λ j. lookup j vars ≡ none) same new in
          rw (full, lookup-insert key k val vars, here, missing) refl
      | inr other ↦ rw (full, lookup-insert key k val vars, other) (unchanged (lookup k vars))
    ]
  ]

  set_pair-lookup :
      (o : Option (String × String)) (vars : Vars)
      → lookup k (set_pair o vars) ≡ first_of (lookup k vars) (value_at k (trimmed o))
  set_pair-lookup none vars = unchanged (lookup k vars)
  set_pair-lookup (some (key, val)) vars =
      set_new-lookup (trim_space key) (unquoted (trim_space val)) vars
        (lookup (trim_space key) vars) refl

  set_line-lookup :
      (raw : String) (vars : Vars)
      → lookup k (set_line raw vars) ≡ first_of (lookup k vars) (value_at k (assignment raw))
  unfolding set_line
  set_line-lookup raw vars =
      let line = trim_space raw in
      elim (Bool-cases (str_eq line "" || has_prefix line "#")) [
        | inl skipped ↦ rw skipped (unchanged (lookup k vars))
        | inr used ↦ rw used (set_pair-lookup (cut b'=' line) vars)
      ]

  set_lines-lookup :
      (lines : List String) (vars : Vars)
      → lookup k (set_lines lines vars) ≡ first_of (lookup k vars) (assigned k lines)
  unfolding set_lines
  set_lines-lookup [] vars = unchanged (lookup k vars)
  set_lines-lookup (line ∷ lines) vars =
      set_lines-lookup lines (set_line line vars)
      ∙ ap (λ o. first_of o (assigned k lines)) (set_line-lookup line vars)
      ∙ first_of-first_of (lookup k vars) (value_at k (assignment line)) (assigned k lines)

  -- After loadDotEnv, a variable with a name has the value that it had before, if it was set; else that
  -- of the first line of the file that assigns to it, if there is one; else it is not set. A file that
  -- cannot be read has no lines.
  pub load_dot_env-lookup :
      (file : Option String) (vars : Vars)
      → lookup k (load_dot_env file vars) ≡ first_of (lookup k vars) (assigned k (lines_of file))
  unfolding load_dot_env
  load_dot_env-lookup none vars = unchanged (lookup k vars)
  load_dot_env-lookup (some text) vars = set_lines-lookup (split 10 text) vars
