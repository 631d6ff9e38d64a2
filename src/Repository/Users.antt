-- ===== src/Repository/Users.antt =====
-- The organizations and users of internal/repository/postgres.go, with the constraints of
-- migrations/0001_init.up.sql and migrations/0002_platform_role.up.sql on the table `users`.
pub mod Effects
pub mod Growth
pub mod Counts
use iot_backend.Base.{
  ℕ, String, Bool, true, false, List, [], ◌∷◌, ◌++◌, Option, none, some, ◌||◌, ◌&&◌, not, ◌==◌,
  str_eq, if◌then◌else◌, filter, find?, any, count,
}
use iot_backend.Models.{
  Uuid, Organization, User, ExportJob, role_org_admin, status_active, status_disabled,
  valid_auth_role,
}
use iot_backend.Repository.{
  Result, ok, err, not_found, conflict, failed, Env, Tables, Sql, pure, ◌>>=◌, ◌>>◌, query, exec,
  one_row, update_where, order_by,
}

-- `id=$1 AND organization_id=$2`.
abbrev pub is_user : Uuid → Uuid → User → Bool
is_user org_id id u = u.id == id && u.organization_id == org_id

abbrev pub in_org : Uuid → User → Bool
in_org org_id u = u.organization_id == org_id

-- `organization_id=$1 AND role=$2 AND status=$3` of CountActiveAdmins.
abbrev pub is_active_admin : Uuid → User → Bool
is_active_admin org_id u =
    u.organization_id == org_id && str_eq u.role role_org_admin && str_eq u.status status_active

-- CHECK (status IN ('active', 'disabled')).
unfoldable pub valid_user_status : String → Bool
valid_user_status s = str_eq s status_active || str_eq s status_disabled

module _ (env : Env) where
  unfoldable pub get_organization : Uuid → Sql Organization
  unfolding query
  get_organization id = query env λ t. one_row (find? (λ o. o.id == id) t.organizations)

  unfoldable pub list_organizations : Sql (List Organization)
  unfolding query
  list_organizations =
      query env λ t. ok (order_by (λ a b. env.text_le a.name b.name) t.organizations)

  unfoldable pub get_user_by_id : Uuid → Sql User
  unfolding query
  get_user_by_id id = query env λ t. one_row (find? (λ u. u.id == id) t.users)

  unfoldable pub get_user_by_subject : String → Sql User
  unfolding query
  get_user_by_subject subject =
      query env λ t. one_row (find? (λ u. str_eq u.cognito_subject subject) t.users)

  unfoldable pub get_user_by_email : String → Sql User
  unfolding query
  get_user_by_email email =
      query env λ t. one_row (find? (λ u. str_eq (env.lower u.email) (env.lower email)) t.users)

  unfoldable pub get_user : Uuid → Uuid → Sql User
  unfolding query
  get_user org_id id = query env λ t. one_row (find? (is_user org_id id) t.users)

  unfoldable pub list_users : Uuid → Sql (List User)
  unfolding query
  list_users org_id =
      query env
        λ t. ok (order_by (λ a b. env.text_le a.email b.email) (filter (in_org org_id) t.users))

  unfoldable pub list_all_users : Sql (List User)
  unfolding query
  list_all_users = query env λ t. ok (order_by (λ a b. env.text_le a.email b.email) t.users)

  unfoldable pub count_users : Uuid → Sql ℕ
  unfolding query
  count_users org_id = query env λ t. ok (count (in_org org_id) t.users)

  unfoldable pub count_active_admins : Uuid → Sql ℕ
  unfolding query
  count_active_admins org_id = query env λ t. ok (count (is_active_admin org_id) t.users)

  -- A primary key or a unique index of the table has the new row's value already.
  unfoldable pub clashes : User → User → Bool
  clashes u v =
      v.id == u.id
      || str_eq v.cognito_subject u.cognito_subject
      || str_eq (env.lower v.email) (env.lower u.email)

  -- INSERT INTO users: the checks, the unique indexes, then the foreign key.
  unfoldable pub insert_user : User → Tables → Result User × Tables
  insert_user u t =
      if not (valid_auth_role u.role && valid_user_status u.status)
      then (err failed, t)
      else if any (clashes u) t.users
      then (err conflict, t)
      else if any (λ o. o.id == u.organization_id) t.organizations
      then (ok u, record t { users = t.users ++ u ∷ [] })
      else (err failed, t)

  -- The row's identifier and time are the database's.
  unfoldable pub create_user : User → Sql User
  unfolding exec insert_user clashes valid_user_status valid_auth_role
  create_user u = exec env λ n. insert_user (record u { id = env.fresh n; created_at = env.now n })

  -- UPDATE users SET … WHERE id AND organization_id, with a CHECK on the value that is set.
  unfoldable pub update_users : Uuid → Uuid → Bool → (User → User) → Sql (Unit {0})
  unfolding exec
  update_users org_id id allowed f = exec env λ n t.
      if any (is_user org_id id) t.users && not allowed
      then (err failed, t)
      else (ok tt, record t { users = update_where (is_user org_id id) f t.users })

  unfoldable pub set_role : Uuid → Uuid → Option String → Sql (Unit {0})
  unfolding update_users valid_auth_role
  set_role org_id id none = pure tt
  set_role org_id id (some r) =
      update_users org_id id (valid_auth_role r) (λ u. record u { role = r })

  unfoldable pub set_can_export : Uuid → Uuid → Option Bool → Sql (Unit {0})
  unfolding update_users
  set_can_export org_id id none = pure tt
  set_can_export org_id id (some c) = update_users org_id id true (λ u. record u { can_export = c })

  unfoldable pub set_status : Uuid → Uuid → Option String → Sql (Unit {0})
  unfolding update_users valid_user_status
  set_status org_id id none = pure tt
  set_status org_id id (some s) =
      update_users org_id id (valid_user_status s) (λ u. record u { status = s })

  -- The statements are not in one transaction: after an error the earlier ones stand.
  unfoldable pub update_user : Uuid → Uuid → Option String → Option Bool → Option String → Sql User
  unfolding get_user set_role set_can_export set_status
  update_user org_id id role can_export status = do
    get_user org_id id
    set_role org_id id role
    set_can_export org_id id can_export
    set_status org_id id status
    get_user org_id id

  -- The foreign key of export_jobs keeps a user who has requested an export.
  unfoldable pub delete_user : Uuid → Uuid → Sql (Unit {0})
  unfolding exec
  delete_user org_id id = exec env λ n t.
      if not (any (is_user org_id id) t.users)
      then (err not_found, t)
      else if any (λ j. j.requested_by == id) t.export_jobs
      then (err failed, t)
      else (ok tt, record t { users = filter (λ u. not (is_user org_id id u)) t.users })
