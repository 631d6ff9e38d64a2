-- ===== src/Api/Access.antt =====
-- Who may run a handler: authMiddleware, lookupUser and the guards of internal/api/handlers.go and
-- internal/api/internal.go.
pub mod Current
use iot_backend.Base.{String, Bool, true, false, Option, none, some, ◌==◌, str_eq, if◌then◌else◌}
use iot_backend.Models.{Uuid, User, Organization, status_active, is_active}
use iot_backend.Auth.{
  Platform, Principal, Jwt, Validator, Parsed, valid, invalid_token, parse, bearer_token, is_admin,
  is_platform_admin,
}
use iot_backend.Repository.{Error, Result, ok, err, Env, Db, Sql}
use iot_backend.Repository.Users.{get_user_by_id, get_user_by_subject, get_organization}
use iot_backend.Api.{Reply, error, Handler, give, require, demand, ◌>>=◌, ◌>>◌, sql}

module _ {A : Type 0} where
  abbrev pub unauthorized : String → Reply A
  unauthorized message = error 401 "unauthorized" message

  abbrev pub forbidden : String → Reply A
  forbidden message = error 403 "forbidden" message

abbrev pub principal_of : Parsed Principal → Option Principal
principal_of (valid p) = some p
principal_of (invalid_token what) = none

-- The principal that the request goes on with: its rights are those of the user's row.
abbrev pub current : Principal → User → Principal
current p u = record p { email = u.email; user_id = u.id; role = u.role; can_export = u.can_export }

module _ (env : Env) where
  abbrev pub second_lookup : Principal → Result User × Db → Result User × Db
  second_lookup p (ok u, db) = (ok u, db)
  second_lookup p (err e, db) =
      if str_eq p.subject "" then (err e, db) else get_user_by_subject env p.subject db

  -- lookupUser.
  unfoldable pub lookup_user : Principal → Sql User
  unfolding get_user_by_id get_user_by_subject
  lookup_user p db = second_lookup p (get_user_by_id env p.user_id db)

module _ (sys : Platform) (env : Env) (jwt : Jwt) (v : Validator) {A : Type 0} where
  -- authMiddleware on the header `Authorization`.
  unfoldable pub auth_middleware : String → Handler Db A Principal
  unfolding bearer_token parse lookup_user is_active get_organization
  auth_middleware header = do
    token ← require (bearer_token sys header) (unauthorized "missing bearer token")
    p ← require (principal_of (parse sys jwt v token)) (unauthorized "invalid token")
    u ← sql (lookup_user env p) (λ _. unauthorized "unknown user")
    demand (is_active u) (forbidden "user disabled")
    demand (u.organization_id == p.organization_id) (forbidden "organization mismatch")
    org ← sql (get_organization env p.organization_id) (λ _. forbidden "organization unavailable")
    demand (str_eq org.status status_active) (forbidden "organization unavailable")
    give (current p u)

  -- requireAdmin, behind authMiddleware.
  unfoldable pub require_admin : String → Handler Db A Principal
  unfolding auth_middleware is_admin
  require_admin header = do
    p ← auth_middleware header
    demand (is_admin p) (forbidden "admin role required")
    give p

  -- requireCanExport, behind authMiddleware.
  unfoldable pub require_can_export : String → Handler Db A Principal
  unfolding auth_middleware
  require_can_export header = do
    p ← auth_middleware header
    demand p.can_export (forbidden "export permission required")
    give p

  -- requirePlatformAdmin, behind authMiddleware.
  unfoldable pub require_platform_admin : String → Handler Db A Principal
  unfolding auth_middleware is_platform_admin
  require_platform_admin header = do
    p ← auth_middleware header
    demand (is_platform_admin p) (forbidden "platform admin required")
    give p
