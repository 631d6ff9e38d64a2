-- ===== src/Api/Users/Steps.antt =====
-- The single steps of the user handlers: what each has found when it goes on, and that only the
-- statements that write change the tables.
use iot_backend.Base.{
  ℕ, ◌<◌, String, Bool, true, false, Option, none, some, ◌≡◌, refl, arith, find?, count, ◌==◌,
}
use iot_backend.Models.{Uuid, User, Organization}
use iot_backend.Auth.{Principal}
use iot_backend.Repository.{Error, Env, Db}
use iot_backend.Repository.Users.{
  is_user, is_active_admin, in_org, get_organization, get_user, count_users, count_active_admins,
}
use iot_backend.Api.{Reply, go, sql, demand, require, give, ◌>>=◌}
use iot_backend.Api.Validate.{Checked, good, bad}
use iot_backend.Api.Checks.{checked, checked?}
use iot_backend.Api.Users.{guard_last_admin, guard_if}

module _ {A : Type 0} (env : Env) (f : Error → Reply A) (db : Db) where
  pub get_user-go :
      (org_id id : Uuid) (target : User)
      → (sql (get_user env org_id id) f db).0 ≡ go target
      → find? (is_user org_id id) db.tables.users ≡ some target
  unfolding get_user
  get_user-go org_id id target e = ground arith

  pub get_organization-go :
      (id : Uuid) (org : Organization)
      → (sql (get_organization env id) f db).0 ≡ go org
      → find? (λ o. o.id == id) db.tables.organizations ≡ some org
  unfolding get_organization
  get_organization-go id org e = ground arith

  pub count_users-go :
      (id : Uuid) (n : ℕ)
      → (sql (count_users env id) f db).0 ≡ go n
      → n ≡ count (in_org id) db.tables.users
  unfolding count_users
  count_users-go id n e = ground arith

module _ {A : Type 0} (r : Reply A) (db : Db) where
  pub demand-go : (b : Bool) (u : Unit {0}) → (demand b r db).0 ≡ go u → b ≡ true
  demand-go true u e = refl
  demand-go false u e = cc

  pub demand-state : (b : Bool) → (demand b r db).1 ≡ db
  demand-state true = refl
  demand-state false = refl

  pub require-state : {B : Type 0} (o : Option B) → (require o r db).1 ≡ db
  require-state none = refl
  require-state (some b) = refl

module _ (A : Type 0) (db : Db) where
  pub checked-state : (c : Checked) → (checked {A = A} c db).1 ≡ db
  checked-state (good s) = refl
  checked-state (bad m) = refl

  follow-state : (c : Checked) → ((checked {A = A} c >>= λ v. give (some v)) db).1 ≡ db
  follow-state (good s) = refl
  follow-state (bad m) = refl

  pub checked?-state : (f : String → Checked) (o : Option String) → (checked? {A = A} f o db).1 ≡ db
  checked?-state f none = refl
  checked?-state f (some s) = follow-state (f s)

module _ (env : Env) (p : Principal) where
  pub guard_if-tables : (b : Bool) (db : Db) → (guard_if env p b db).1.tables ≡ db.tables
  unfolding guard_if guard_last_admin count_active_admins
  guard_if-tables b db = ground arith

  pub guard_if-go :
      (b : Bool) (db : Db) (u : Unit {0})
      → (guard_if env p b db).0 ≡ go u
      → b ≡ true
      → 1 < count (is_active_admin p.organization_id) db.tables.users
  unfolding guard_if guard_last_admin count_active_admins
  guard_if-go b db u e t = ground arith
