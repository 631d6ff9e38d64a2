-- ===== src/Api.antt =====
-- The shape of the handlers of internal/api: a handler runs its steps on a state until one of
-- them answers the request. Decoding JSON, and so the request's body, is a parameter: `none` is a
-- body that decodeJSON refuses.
pub mod Validate
pub mod Users
pub mod Rules
pub mod Checks
pub mod Access
pub mod Locations
pub mod Devices
pub mod Exports
pub mod Overview
pub mod Session
use iot_backend.Base.{ℕ, String, Bool, true, false, Option, none, some}
use iot_backend.Repository.{Error, not_found, conflict, failed, Result, ok, err, Db, Sql}

-- writeError, writeJSON and a bare status 204.
pub data Reply {ℓ} (A : Type ℓ) : Type ℓ where
  error : (status : ℕ) (code message : String) → Reply A
  json : (status : ℕ) → A → Reply A
  no_content : Reply A

-- A step answers, or goes on with a value.
pub data Step {ℓ} (A B : Type ℓ) : Type ℓ where
  answer : Reply A → Step A B
  go : B → Step A B

abbrev pub Handler {ℓ} : Type ℓ → Type ℓ → Type ℓ → Type ℓ
Handler S A B = S → Step A B × S

module _ {ℓ} {S A B : Type ℓ} where
  abbrev pub give : B → Handler S A B
  give b s = (go b, s)

  abbrev pub stop : Reply A → Handler S A B
  stop r s = (answer r, s)

  -- A value that a check refuses with an answer.
  abbrev pub require : Option B → Reply A → Handler S A B
  require none r s = (answer r, s)
  require (some b) r s = (go b, s)

module _ {ℓ} {S A : Type ℓ} where
  -- Answer, and stop, unless the test holds.
  abbrev pub demand : Bool → Reply A → S → Step A (Unit {ℓ}) × S
  demand true r s = (go tt, s)
  demand false r s = (answer r, s)

module _ {ℓ} {S A B C : Type ℓ} where
  abbrev pub follow : Step A B → (B → Handler S A C) → Handler S A C
  follow (answer r) k s = (answer r, s)
  follow (go b) k s = k b s

  infixl 5 ◌>>=◌ ◌>>◌
  abbrev pub ◌>>=◌ : Handler S A B → (B → Handler S A C) → Handler S A C
  ◌>>=◌ m k s = let (r, s') = m s in follow r k s'

  abbrev pub ◌>>◌ : Handler S A B → Handler S A C → Handler S A C
  m >> k = m >>= λ _. k

module _ {A B : Type 0} where
  abbrev pub on_error : Result B → (Error → Reply A) → Step A B
  on_error (ok b) f = go b
  on_error (err e) f = answer (f e)

  -- A call of the repository, with the answer to each error.
  abbrev pub sql : Sql B → (Error → Reply A) → Handler Db A B
  sql m f db = let (r, db') = m db in (on_error r f, db')

module _ {A : Type 0} where
  abbrev pub internal : String → Error → Reply A
  internal message e = error 500 "internal" message

  abbrev pub bad_request : String → Reply A
  bad_request message = error 400 "validation_error" message

  -- writeNotFound.
  unfoldable pub write_not_found : Error → Reply A
  write_not_found not_found = error 404 "not_found" "not found"
  write_not_found conflict = error 500 "internal" "request failed"
  write_not_found failed = error 500 "internal" "request failed"

  -- The answer of a finished handler.
  abbrev pub final : Step A (Reply A) → Reply A
  final (answer r) = r
  final (go r) = r
