-- ===== src/Repository/Users/Growth.antt =====
-- What CreateUser and DeleteUser of internal/repository/postgres.go do to the tables.
use iot_backend.Base.{
  false, [], ◌∷◌, ◌++◌, ◌&&◌, not, ◌==◌, filter, any, ◌≡◌, ◌⊎◌, inl, inr, refl, arith, Bool-cases,
}
use iot_backend.Models.{Uuid, User, valid_auth_role}
use iot_backend.Repository.{Env, Tables, Db}
use iot_backend.Repository.Users.{
  valid_user_status, is_user, delete_user, clashes, create_user, insert_user,
}

-- `t'` is `t`, or `t` with one more row, which clashes with no other.
pub data IsGrown (env : Env) (org_id : Uuid) (t : Tables) : Tables → Type 0 where
  same : {t' : Tables} → t' ≡ t → IsGrown env org_id t t'
  grown :
      {t' : Tables} (v : User)
      → any (clashes env v) t.users ≡ false
      → v.organization_id ≡ org_id
      → t' ≡ record t { users = t.users ++ v ∷ [] }
      → IsGrown env org_id t t'

insert_user-IsGrown :
    (env : Env) (v : User) (t : Tables) → IsGrown env v.organization_id t (insert_user env v t).1
unfolding insert_user
insert_user-IsGrown env v t =
    elim (Bool-cases (not (valid_auth_role v.role && valid_user_status v.status))) [
      | inl refused ↦ rw refused (same refl)
      | inr allowed ↦ elim (Bool-cases (any (clashes env v) t.users)) [
        | inl taken ↦ rw (allowed, taken) (same refl)
        | inr free ↦ elim (Bool-cases (any (λ o. o.id == v.organization_id) t.organizations)) [
          | inl there ↦ rw (allowed, free, there) (grown v free refl refl)
          | inr lost ↦ rw (allowed, free, lost) (same refl)
        ]
      ]
    ]

-- CreateUser adds a row that clashes with no other, or changes nothing.
pub create_user-IsGrown :
    (env : Env) (u : User) (db : Db)
    → IsGrown env u.organization_id db.tables (create_user env u db).1.tables
unfolding create_user
create_user-IsGrown env u db = elim (Bool-cases (env.fails db.statements)) [
  | inl fault ↦ rw fault (same refl)
  | inr fine ↦ rw fine (
      insert_user-IsGrown env
        (record u { id = env.fresh db.statements; created_at = env.now db.statements }) db.tables)
]

-- The tables without the selected user.
abbrev pub removed : Uuid → Uuid → Tables → Tables
removed org_id id t = record t { users = filter (λ u. not (is_user org_id id u)) t.users }

-- DeleteUser takes the selected row out, or changes nothing.
pub delete_user-tables :
    (env : Env) (org_id id : Uuid) (db : Db)
    → ((delete_user env org_id id db).1.tables ≡ db.tables)
      ⊎ ((delete_user env org_id id db).1.tables ≡ removed org_id id db.tables)
unfolding delete_user
delete_user-tables env org_id id db = ground arith
