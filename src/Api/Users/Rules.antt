-- ===== src/Api/Users/Rules.antt =====
-- One rule for each step of the handlers of internal/api/users.go: what the rest of the handler
-- may rely on, and what the last step does to the tables.
use iot_backend.Base.{
  ℕ, ◌<◌, count, String, Bool, true, Option, some, ◌==◌, find?, ◌≡◌, ap, subst, ◌∙◌, inl, inr,
}
use iot_backend.Repository.Users.{is_user, in_org}
use iot_backend.Repository.Users.Effects.{IsPatched, update_user-IsPatched}
use iot_backend.Repository.Users.Growth.{removed, create_user-IsGrown, delete_user-tables, IsGrown}
use iot_backend.Models.{Organization, Uuid, User}
use iot_backend.Auth.{Principal}
use iot_backend.Repository.{Error, Env, Db}
use iot_backend.Repository.Users.{
  get_organization, get_user, count_users, create_user, update_user, delete_user,
}
use iot_backend.Api.{Reply, go, Handler, sql, demand, require, ◌>>=◌}
use iot_backend.Api.Rules.{>>=-keeps_at}
use iot_backend.Api.Validate.{Checked}
use iot_backend.Api.Checks.{checked, checked?}
use iot_backend.Api.Users.{is_acting_admin, guard_if}
use iot_backend.Api.Users.Steps.{
  get_user-go, get_organization-go, count_users-go, demand-go, demand-state, require-state,
  checked-state, checked?-state, guard_if-tables, guard_if-go,
}
use iot_backend.Api.Users.Effect.{
  Effect, nothing, patched_row, removed_row, added_row, takes_away, Guarded,
}

module _ (env : Env) (p : Principal) (db : Db) where
  -- The tables are those of the start.
  abbrev pub Same : Db → Type 0
  Same d = d.tables ≡ db.tables

  abbrev pub Kept : Db → Type 0
  Kept d = Effect env p.organization_id db.tables d.tables

  Same-Kept : (d : Db) → Same d → Kept d
  Same-Kept d e = nothing e

  -- A step that leaves the tables alone, and the rest of the block.
  quiet :
      {A B C : Type 0} (m : Handler Db A B) (k : B → Handler Db A C) (d : Db)
      → Same (m d).1
      → ((b : B) (d' : Db) → Same d' → (m d).0 ≡ go b → Kept (k b d').1)
      → Kept ((m >>= k) d).1
  quiet = >>=-keeps_at Same Kept Same-Kept

  get_user-Same : (id : Uuid) (d : Db) → Same d → Same (get_user env p.organization_id id d).1
  unfolding get_user
  get_user-Same id d e = e

  get_organization-Same : (d : Db) → Same d → Same (get_organization env p.organization_id d).1
  unfolding get_organization
  get_organization-Same d e = e

  count_users-Same : (d : Db) → Same d → Same (count_users env p.organization_id d).1
  unfolding count_users
  count_users-Same d e = e

  -- One rule for each step that only reads or checks.
  pub require_step :
      {A B C : Type 0} (o : Option B) (r : Reply A) (k : B → Handler Db A C) (d : Db)
      → Same d
      → ((b : B) (d' : Db) → Same d' → Kept (k b d').1)
      → Kept ((require o r >>= k) d).1
  require_step o r k d same next =
      quiet (require o r) k d (rw (require-state r d o) same) (λ b d' s _. next b d' s)

  pub demand_step :
      {A C : Type 0} (b : Bool) (r : Reply A) (k : Unit {0} → Handler Db A C) (d : Db)
      → Same d
      → ((u : Unit {0}) (d' : Db) → Same d' → b ≡ true → Kept (k u d').1)
      → Kept ((demand b r >>= k) d).1
  demand_step b r k d same next =
      quiet (demand b r) k d (rw (demand-state r d b) same)
        (λ u d' s e. next u d' s (demand-go r d b u e))

  pub checked_step :
      {C : Type 0} (c : Checked) (k : String → Handler Db User C) (d : Db)
      → Same d
      → ((b : String) (d' : Db) → Same d' → Kept (k b d').1)
      → Kept ((checked c >>= k) d).1
  checked_step c k d same next =
      quiet (checked c) k d (rw (checked-state User d c) same) (λ b d' s _. next b d' s)

  pub checked?_step :
      {C : Type 0} (f : String → Checked) (o : Option String)
      (k : Option String → Handler Db User C) (d : Db)
      → Same d
      → ((b : Option String) (d' : Db) → Same d' → Kept (k b d').1)
      → Kept ((checked? f o >>= k) d).1
  checked?_step f o k d same next =
      quiet (checked? f o) k d (rw (checked?-state User d f o) same) (λ b d' s _. next b d' s)

  pub guard_step :
      {C : Type 0} (goes : Bool) (k : Unit {0} → Handler Db User C) (d : Db)
      → Same d
      → ((u : Unit {0}) (d' : Db)
          → Same d'
          → Guarded goes p.organization_id db.tables
          → Kept (k u d').1)
      → Kept ((guard_if env p goes >>= k) d).1
  guard_step goes k d same next =
      quiet (guard_if env p goes) k d (guard_if-tables env p goes d ∙ same)
        (λ u d' s e. next u d' s (λ t. rw (← same) (guard_if-go env p goes d u e t)))

  pub get_user_step :
      {C : Type 0} (id : Uuid) (f : Error → Reply User) (k : User → Handler Db User C) (d : Db)
      → Same d
      → ((target : User) (d' : Db)
          → Same d'
          → find? (is_user p.organization_id id) db.tables.users ≡ some target
          → Kept (k target d').1)
      → Kept ((sql (get_user env p.organization_id id) f >>= k) d).1
  get_user_step id f k d same next =
      quiet (sql (get_user env p.organization_id id) f) k d (get_user-Same id d same)
        (λ u d' s e. next u d' s (rw (← same) (get_user-go env f d p.organization_id id u e)))

  pub get_organization_step :
      {C : Type 0} (f : Error → Reply User) (k : Organization → Handler Db User C) (d : Db)
      → Same d
      → ((org : Organization) (d' : Db)
          → Same d'
          → find? (λ o. o.id == p.organization_id) db.tables.organizations ≡ some org
          → Kept (k org d').1)
      → Kept ((sql (get_organization env p.organization_id) f >>= k) d).1
  get_organization_step f k d same next =
      quiet (sql (get_organization env p.organization_id) f) k d (get_organization-Same d same)
        (λ o d' s e. next o d' s (rw (← same) (get_organization-go env f d p.organization_id o e)))

  pub count_users_step :
      {C : Type 0} (f : Error → Reply User) (k : ℕ → Handler Db User C) (d : Db)
      → Same d
      → ((n : ℕ) (d' : Db)
          → Same d'
          → n ≡ count (in_org p.organization_id) db.tables.users
          → Kept (k n d').1)
      → Kept ((sql (count_users env p.organization_id) f >>= k) d).1
  count_users_step f k d same next =
      quiet (sql (count_users env p.organization_id) f) k d (count_users-Same d same)
        (λ n d' s e. next n d' s (rw (← same) (count_users-go env f d p.organization_id n e)))

  -- What the last step of each handler does, from tables that are still those of the start.
  pub deleted :
      (id : Uuid) (target : User) (d : Db)
      → find? (is_user p.organization_id id) db.tables.users ≡ some target
      → Guarded (is_acting_admin target) p.organization_id db.tables
      → Same d
      → Kept (delete_user env p.organization_id id d).1
  deleted id target d found guarded same = elim (delete_user-tables env p.organization_id id d) [
    | inl e ↦ nothing (e ∙ same)
    | inr e ↦ removed_row id target found guarded (e ∙ ap (removed p.organization_id id) same)
  ]

  pub updated :
      (id : Uuid) (r : Option String) (c : Option Bool) (s : Option String) (target : User) (d : Db)
      → find? (is_user p.organization_id id) db.tables.users ≡ some target
      → Guarded (takes_away r s target) p.organization_id db.tables
      → Same d
      → Kept (update_user env p.organization_id id r c s d).1
  updated id r c s target d found guarded same =
      let after = (update_user env p.organization_id id r c s d).1.tables in
      patched_row id r c s target found guarded (
        subst (λ t. IsPatched p.organization_id id r c s t after) same
          (update_user-IsPatched env p.organization_id id r c s d))

  pub created :
      (row : User) (org : Organization) (d : Db)
      → row.organization_id ≡ p.organization_id
      → find? (λ o. o.id == p.organization_id) db.tables.organizations ≡ some org
      → count (in_org p.organization_id) db.tables.users < org.user_limit
      → Same d
      → Kept (create_user env row d).1
  created row org d own found room same =
      let after = (create_user env row d).1.tables in
      added_row org found room (
        subst (λ t. IsGrown env p.organization_id t after) same
          (subst (λ o. IsGrown env o d.tables after) own (create_user-IsGrown env row d)))
