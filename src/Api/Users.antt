-- ===== src/Api/Users.antt =====
-- internal/api/users.go: the handlers of an organization's users. `p` is the principal that the
-- middleware has put into the request's context.
pub mod Steps
pub mod Effect
pub mod LastAdmin
pub mod Limit
pub mod Rules
pub mod Handlers
pub mod Requests
use iot_backend.Base.{
  ℕ, String, Bool, true, false, List, Option, none, some, ◌||◌, ◌&&◌, not, str_eq, ◌==◌, leb,
  if◌then◌else◌,
}
use iot_backend.Models.{Uuid, User, role_org_admin, status_active, status_disabled}
use iot_backend.Text.{◌<>◌}
use iot_backend.Auth.{Platform, Principal}
use iot_backend.Repository.{Error, not_found, conflict, failed, Env, Db}
use iot_backend.Repository.Users.{
  get_organization, get_user, list_users, count_users, count_active_admins, create_user,
  update_user, delete_user,
}
use iot_backend.Api.{
  Reply, error, json, no_content, Handler, give, stop, require, demand, ◌>>=◌, ◌>>◌, sql, internal,
  bad_request, write_not_found,
}
use iot_backend.Api.Checks.{checked, checked?}
use iot_backend.Api.Validate.{Checked, good, bad, require_email, require_role}

pub record CreateUser : Type 0 where
  pub email : String
  pub role : String
  pub can_export : Bool

pub record PatchUser : Type 0 where
  pub role : Option String
  pub can_export : Option Bool
  pub status : Option String

-- The row that createUser inserts; the database fills in the identifier and the time.
abbrev pub new_user : Uuid → String → String → String → Bool → User
new_user org_id drawn email role can_export = record {
  id = 0;
  organization_id = org_id;
  cognito_subject = "local-" <> drawn;
  email = email;
  role = role;
  can_export = can_export;
  status = status_active;
  created_at = 0;
}

-- `*role != models.RoleOrgAdmin` and the like, for a pointer that may be nil.
abbrev pub is_other : Option String → String → Bool
is_other none s = false
is_other (some t) s = not (str_eq t s)

-- The status of a patch is one of the two that a user can have.
abbrev pub status_allowed : Option String → Bool
status_allowed none = true
status_allowed (some s) = str_eq s status_active || str_eq s status_disabled

-- `target.Role == models.RoleOrgAdmin && target.Status == models.StatusActive`.
unfoldable pub is_acting_admin : User → Bool
is_acting_admin u = str_eq u.role role_org_admin && str_eq u.status status_active

abbrev pub conflict_or_internal : String → String → Error → Reply User
conflict_or_internal taken message conflict = error 409 "conflict" taken
conflict_or_internal taken message _ = error 500 "internal" message

module _ (env : Env) (p : Principal) where
  -- guardLastAdmin, with the answer that both callers give.
  unfoldable pub guard_last_admin : Handler Db User (Unit {0})
  guard_last_admin = do
    n ←
        sql (count_active_admins env p.organization_id)
          (λ _. error 409 "last_admin" "failed to count admins")
    demand (not (leb n 1)) (error 409 "last_admin" "cannot remove or demote the last admin")

  -- `if demote || disable { guardLastAdmin }`.
  unfoldable pub guard_if : Bool → Handler Db User (Unit {0})
  guard_if true = guard_last_admin
  guard_if false = give tt

  -- listUsers, without the rendering of the list.
  unfoldable pub list_users_handler : Handler Db (List User) (Reply (List User))
  unfolding list_users
  list_users_handler = do
    users ← sql (list_users env p.organization_id) (internal "failed to list users")
    give (json 200 users)

module _ (sys : Platform) (env : Env) (p : Principal) where
  -- createUser; `drawn` is what uuid.NewString returns.
  unfoldable pub create_user_handler : String → Option CreateUser → Handler Db User (Reply User)
  create_user_handler drawn request = do
    body ← require request (bad_request "invalid json")
    email ← checked (require_email sys body.email)
    role ← checked (require_role body.role)
    org ← sql (get_organization env p.organization_id) (internal "failed to load organization")
    n ← sql (count_users env p.organization_id) (internal "failed to count users")
    demand (not (leb org.user_limit n)) (error 409 "user_limit" "organization user limit reached")
    created ←
        sql (create_user env (new_user p.organization_id drawn email role body.can_export))
          (conflict_or_internal "email already exists" "failed to create user")
    give (json 201 created)

  -- patchUser.
  unfoldable pub patch_user_handler : String → Option PatchUser → Handler Db User (Reply User)
  unfolding guard_if guard_last_admin is_acting_admin
  patch_user_handler url_id request = do
    id ← require (sys.parse_uuid url_id) (bad_request "invalid user id")
    body ← require request (bad_request "invalid json")
    target ← sql (get_user env p.organization_id id) write_not_found
    role ← checked? require_role body.role
    demand (status_allowed body.status) (bad_request "status must be active or disabled")
    let demote = is_other role role_org_admin && is_acting_admin target
    let disable = is_other body.status status_active && is_acting_admin target
    guard_if env p (demote || disable)
    demand (not (p.user_id == id && is_other body.status status_active))
        (error 403 "forbidden" "cannot disable yourself")
    demand (not (p.user_id == id && is_other role role_org_admin))
        (error 403 "forbidden" "cannot demote yourself")
    updated ←
        sql (update_user env p.organization_id id role body.can_export body.status) write_not_found
    give (json 200 updated)

  -- deleteUser.
  unfoldable pub delete_user_handler : String → Handler Db User (Reply User)
  unfolding guard_if guard_last_admin is_acting_admin
  delete_user_handler url_id = do
    id ← require (sys.parse_uuid url_id) (bad_request "invalid user id")
    target ← sql (get_user env p.organization_id id) write_not_found
    guard_if env p (is_acting_admin target)
    demand (not (p.user_id == id)) (error 403 "forbidden" "cannot remove yourself")
    sql (delete_user env p.organization_id id) write_not_found
    give no_content
