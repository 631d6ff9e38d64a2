-- ===== src/Api/Rules.antt =====
-- Rules for the steps of a handler: what holds of the state after a block, and how a block that
-- goes on has gone.
use iot_backend.Repository.{Error, Result, ok, err, Db, Sql}
use iot_backend.Base.{Bool, true, false, Option, none, some, ◌≡◌, refl}
use iot_backend.Api.{
  Reply, demand, require, on_error, sql, ◌>>◌, Step, answer, go, Handler, follow, ◌>>=◌,
}

module _ {ℓ κ} {S A B C : Type ℓ} (Q : S → Type κ) where
  follow-keeps :
      (r : Step A B) (k : B → Handler S A C) (s : S)
      → Q s
      → ((b : B) → r ≡ go b → Q (k b s).1)
      → Q (follow r k s).1
  follow-keeps (answer r) k s h next = h
  follow-keeps (go b) k s h next = next b refl

  -- The state after a block: after its first step, which may answer, and after the rest.
  pub >>=-keeps :
      (m : Handler S A B) (k : B → Handler S A C) (s : S)
      → Q (m s).1
      → ((b : B) → (m s).0 ≡ go b → Q (k b (m s).1).1)
      → Q ((m >>= k) s).1
  >>=-keeps m k s h next = follow-keeps (m s).0 k (m s).1 h next

module _ {ℓ} {S A B C : Type ℓ} where
  follow-eq-go :
      (r : Step A B) (k : B → Handler S A C) (s : S) (c : C)
      → (follow r k s).0 ≡ go c
      → (b : B) × (r ≡ go b) × ((k b s).0 ≡ go c)
  follow-eq-go (answer r) k s c e = cc
  follow-eq-go (go b) k s c e = (b, refl, e)

  -- A block that goes on has gone on at its first step.
  pub >>=-eq-go :
      (m : Handler S A B) (k : B → Handler S A C) (s : S) (c : C)
      → ((m >>= k) s).0 ≡ go c
      → (b : B) × ((m s).0 ≡ go b) × ((k b (m s).1).0 ≡ go c)
  >>=-eq-go m k s c e = follow-eq-go (m s).0 k (m s).1 c e

module _ {ℓ κ μ} {S A B C : Type ℓ} (P : S → Type κ) (Q : S → Type μ)
    (weaken : (s : S) → P s → Q s) where
  follow-keeps_at :
      (r : Step A B) (k : B → Handler S A C) (s : S)
      → P s
      → ((b : B) → r ≡ go b → Q (k b s).1)
      → Q (follow r k s).1
  follow-keeps_at (answer r) k s h next = weaken s h
  follow-keeps_at (go b) k s h next = next b refl

  -- The same, where all that the rest of the block needs of the state is `P`.
  pub >>=-keeps_at :
      (m : Handler S A B) (k : B → Handler S A C) (s : S)
      → P (m s).1
      → ((b : B) (s' : S) → P s' → (m s).0 ≡ go b → Q (k b s').1)
      → Q ((m >>= k) s).1
  >>=-keeps_at m k s h next = follow-keeps_at (m s).0 k (m s).1 h (λ b e. next b (m s).1 h e)

module _ {A C : Type 0} (r : Reply A) where
  -- A block that goes on has passed the test at its start.
  pub demand_on :
      (b : Bool) (k : Handler Db A C) (s : Db) (c : C)
      → ((demand b r >> k) s).0 ≡ go c
      → (b ≡ true) × ((k s).0 ≡ go c)
  demand_on true k s c e = (refl, e)
  demand_on false k s c e = cc

  -- A block that goes on has been given the value that it requires.
  pub require_on :
      {B : Type 0} (o : Option B) (k : B → Handler Db A C) (s : Db) (c : C)
      → ((require o r >>= k) s).0 ≡ go c
      → (x : B) × (o ≡ some x) × ((k x s).0 ≡ go c)
  require_on none k s c e = cc
  require_on (some x) k s c e = (x, refl, e)

-- A call of the repository that goes on has succeeded.
pub sql-go :
    {A B : Type 0} (m : Sql B) (f : Error → Reply A) (d : Db) (b : B)
    → (sql m f d).0 ≡ go b
    → (m d).0 ≡ ok b
sql-go {A = A} {B = B} m f d b e = at_result (m d).0 e
  where
    at_result : (r : Result B) → on_error r f ≡ go b → r ≡ ok b
    at_result (ok x) e = cc
    at_result (err x) e = cc
