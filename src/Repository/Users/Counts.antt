-- ===== src/Repository/Users/Counts.antt =====
-- How counts of users change when rows are updated, removed or added.
use iot_backend.Base.{
  ℕ, ◌+◌, ◌≤◌, String, Bool, true, false, List, [], ◌∷◌, Option, some, not, ◌==◌, filter, find?,
  any, count, ◌≡◌, inl, inr, refl, arith, Bool-cases,
}
use iot_backend.Models.{Uuid, User}
use iot_backend.Repository.{Env, Tables, update_where}
use iot_backend.Repository.Users.{is_user, is_active_admin, clashes}
use iot_backend.Repository.Users.Effects.{with_values}

-- The number of active admins of an organization.
abbrev pub admins : Uuid → Tables → ℕ
admins org_id t = count (is_active_admin org_id) t.users

-- No two users have one identifier: the table's primary key.
abbrev pub HasUserIds : Tables → Type 0
HasUserIds t = (id : Uuid) → count (λ u. u.id == id) t.users ≤ 1

-- Whatever the change of the selected rows, the count falls by no more than their number.
pub count-update_where-le :
    (p m : User → Bool) (f : User → User) (us : List User)
    → count p us ≤ count p (update_where m f us) + count m us
count-update_where-le p m f [] = omega arith
count-update_where-le p m f (u ∷ us) = ground (arith, count-update_where-le p m f us)

pub count-is_user_le :
    (org_id id : Uuid) (us : List User) → count (is_user org_id id) us ≤ count (λ u. u.id == id) us
count-is_user_le org_id id [] = omega arith
count-is_user_le org_id id (u ∷ us) = ground (arith, count-is_user_le org_id id us)

-- No row is selected, so nothing changes.
pub update_where_absent :
    (m : User → Bool) (f : User → User) (us : List User) → count m us ≤ 0 → update_where m f us ≡ us
update_where_absent m f [] h = refl
update_where_absent m f (u ∷ us) h = ground (arith, update_where_absent m f us)

-- Only the found row is selected, so the count keeps if that row counts for no less than before.
pub count-update_where-found :
    (p m : User → Bool) (f : User → User) (us : List User) (target : User)
    → count m us ≤ 1
    → find? m us ≡ some target
    → (p target ≡ true → p (f target) ≡ true)
    → count p us ≤ count p (update_where m f us)
count-update_where-found p m f [] target one found keep = cc
count-update_where-found p m f (u ∷ us) target one found keep = elim (Bool-cases (m u)) [
  | inl here ↦ ground (arith, here, update_where_absent m f us)
  | inr other ↦ ground (arith, other, count-update_where-found p m f us target)
]

pub count_id-with_values :
    (org_id id j : Uuid) (r : Option String) (c : Option Bool) (s : Option String) (us : List User)
    → count (λ u. u.id == j) (update_where (is_user org_id id) (with_values r c s) us)
      ≡ count (λ u. u.id == j) us
count_id-with_values org_id id j r c s [] = refl
count_id-with_values org_id id j r c s (u ∷ us) =
    ground (arith, count_id-with_values org_id id j r c s us)

pub count-filter-le :
    (p m : User → Bool) (us : List User)
    → count p us ≤ count p (filter (λ u. not (m u)) us) + count m us
count-filter-le p m [] = omega arith
count-filter-le p m (u ∷ us) = ground (arith, count-filter-le p m us)

pub count-filter-ge :
    (p m : User → Bool) (us : List User) → count p (filter (λ u. not (m u)) us) ≤ count p us
count-filter-ge p m [] = omega arith
count-filter-ge p m (u ∷ us) = ground (arith, count-filter-ge p m us)

pub filter_absent :
    (m : User → Bool) (us : List User) → count m us ≤ 0 → filter (λ u. not (m u)) us ≡ us
filter_absent m [] h = refl
filter_absent m (u ∷ us) h = ground (arith, filter_absent m us)

pub count-filter-found :
    (p m : User → Bool) (us : List User) (target : User)
    → count m us ≤ 1
    → find? m us ≡ some target
    → p target ≡ false
    → count p us ≤ count p (filter (λ u. not (m u)) us)
count-filter-found p m [] target one found idle = cc
count-filter-found p m (u ∷ us) target one found idle = elim (Bool-cases (m u)) [
  | inl here ↦ ground (arith, here, filter_absent m us)
  | inr other ↦ ground (arith, other, count-filter-found p m us target)
]

-- A row that clashes with none has an identifier of its own.
pub count_id-free :
    (env : Env) (v : User) (us : List User)
    → any (clashes env v) us ≡ false
    → count (λ u. u.id == v.id) us ≤ 0
unfolding clashes
count_id-free env v [] h = omega arith
count_id-free env v (u ∷ us) h = ground (arith, count_id-free env v us)
