-- ===== src/Api/Session.antt =====
-- The handlers `ready`, `me` and `devLogin` of internal/api/handlers.go, without the rendering of their
-- replies. The database's answer to a ping, and the seconds of the expiry, are parameters.
pub mod Login
use iot_backend.Base.{String, Bool, true, Option, none, some, not, str_eq, if◌then◌else◌, ℤ}
use iot_backend.Models.{Uuid, User, Organization, is_active}
use iot_backend.Text.{trim_space}
use iot_backend.Auth.{Platform, Principal, Validator}
use iot_backend.Auth.Mint.{Signer, mint_local}
use iot_backend.Repository.{failed, Env, Db}
use iot_backend.Repository.Users.{get_user_by_email, get_organization}
use iot_backend.Api.{
  Reply, error, json, Handler, give, require, demand, ◌>>=◌, ◌>>◌, sql, internal, bad_request,
}
use iot_backend.Api.Access.{unauthorized, forbidden}

-- health, and ready with a pool.
unfoldable pub health : Reply String
health = json 200 "ok"

unfoldable pub ready : Bool → Reply String
ready pinged = if pinged then json 200 "ready" else error 503 "not_ready" "database unavailable"

pub record Me : Type 0 where
  pub user_id : Uuid
  pub organization_id : Uuid
  pub organization_name : String
  pub email : String
  pub role : String
  pub can_export : Bool

module _ (env : Env) where
  -- me, behind authMiddleware.
  unfoldable pub me : Principal → Handler Db Me (Reply Me)
  unfolding get_organization
  me p = do
    org ← sql (get_organization env p.organization_id) (internal "failed to load organization")
    give (
        json 200 (record {
          user_id = p.user_id;
          organization_id = p.organization_id;
          organization_name = org.name;
          email = p.email;
          role = p.role;
          can_export = p.can_export;
        }))

-- The reply of devLogin.
pub record Session : Type 0 where
  pub token : String
  pub expires_in : ℤ

module _ (sys : Platform) (env : Env) (signer : Signer) (v : Validator) (expires_in : ℤ) where
  -- devLogin, which is routed where AUTH_MODE is "local".
  unfoldable pub dev_login : Option String → Handler Db Session (Reply Session)
  unfolding trim_space get_user_by_email is_active mint_local
  dev_login request = do
    email ← require request (bad_request "email is required")
    demand (not (str_eq (trim_space email) "")) (bad_request "email is required")
    user ← sql (get_user_by_email env (trim_space email)) (λ _. unauthorized "unknown user")
    demand (is_active user) (forbidden "user disabled")
    token ← require (mint_local sys signer v user) (internal "failed to issue token" failed)
    give (json 200 (record { token = token; expires_in = expires_in }))
