-- ===== src/Repository/Laws.antt =====
-- Laws of the rows that a statement selects and orders.
use iot_backend.Base.{Bool, List, [], ◌∷◌, ◌≡◌, refl, arith, any}
use iot_backend.Repository.{place, order_by}

module _ {ℓ} {A : Type ℓ} (le : A → A → Bool) (p : A → Bool) where
  any-place : (x : A) (ys : List A) → any p (place le x ys) ≡ any p (x ∷ ys)
  any-place x [] = refl
  any-place x (y ∷ ys) = ground (arith, any-place x ys)

  -- Ordering keeps the elements.
  pub any-order_by : (xs : List A) → any p (order_by le xs) ≡ any p xs
  any-order_by [] = refl
  any-order_by (x ∷ xs) = ground (arith, any-place x (order_by le xs), any-order_by xs)
