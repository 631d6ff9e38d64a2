-- ===== src/Api/Users/Requests.antt =====
-- Sequences of requests to the handlers of internal/api/users.go.
use iot_backend.Base.{◌≤◌, String, List, [], ◌∷◌, Option, ◌==◌, ◌≡◌, refl, All, ◌∙◌, false}
use iot_backend.Models.{Uuid}
use iot_backend.Auth.{Platform, Principal}
use iot_backend.Repository.{Env, Db}
use iot_backend.Repository.Users.Counts.{admins, HasUserIds}
use iot_backend.Api.Users.{
  CreateUser, PatchUser, create_user_handler, patch_user_handler, delete_user_handler,
}
use iot_backend.Api.Users.Effect.{Effect}
use iot_backend.Api.Users.LastAdmin.{IsKept, IsKept-refl, IsKept-trans, Effect-IsKept}
use iot_backend.Api.Users.Limit.{IsWithin, Effect-IsWithin, users_of, Effect-users_of}
use iot_backend.Api.Users.Handlers.{delete_user-Effect, patch_user-Effect, create_user-Effect}

-- A request to the user handlers, by a principal.
pub data UserRequest : Type 0 where
  create : Principal → (drawn : String) → Option CreateUser → UserRequest
  patch : Principal → (url_id : String) → Option PatchUser → UserRequest
  remove : Principal → (url_id : String) → UserRequest

-- The organization that a request acts for.
abbrev pub org_of : UserRequest → Uuid
org_of (create p drawn body) = p.organization_id
org_of (patch p url_id body) = p.organization_id
org_of (remove p url_id) = p.organization_id

module _ (sys : Platform) (env : Env) where
  -- One request, and many, one after another.
  unfoldable pub serve : UserRequest → Db → Db
  unfolding create_user_handler patch_user_handler delete_user_handler
  serve (create p drawn body) db = (create_user_handler sys env p drawn body db).1
  serve (patch p url_id body) db = (patch_user_handler sys env p url_id body db).1
  serve (remove p url_id) db = (delete_user_handler sys env p url_id db).1

  unfoldable pub serve_all : List UserRequest → Db → Db
  unfolding serve
  serve_all [] db = db
  serve_all (r ∷ rs) db = serve_all rs (serve r db)

  pub serve-Effect :
      (r : UserRequest) (db : Db) → Effect env (org_of r) db.tables (serve r db).tables
  unfolding serve
  serve-Effect (create p drawn body) db = create_user-Effect sys env p db drawn body
  serve-Effect (patch p url_id body) db = patch_user-Effect sys env p db url_id body
  serve-Effect (remove p url_id) db = delete_user-Effect sys env p db url_id

  serve_all-IsKept : (rs : List UserRequest) (db : Db) → IsKept db.tables (serve_all rs db).tables
  unfolding serve_all
  serve_all-IsKept [] db = IsKept-refl refl
  serve_all-IsKept (r ∷ rs) db =
      IsKept-trans (Effect-IsKept (serve-Effect r db)) (serve_all-IsKept rs (serve r db))

  -- Where user identifiers are unique, an organization that has an active admin still has one
  -- after any sequence of create, patch and delete requests served one after another, by any
  -- principals, whichever of their statements fail.
  pub serve_all-manned :
      (rs : List UserRequest) (db : Db) (o : Uuid)
      → HasUserIds db.tables
      → 1 ≤ admins o db.tables
      → 1 ≤ admins o (serve_all rs db).tables
  serve_all-manned rs db o ids one = (serve_all-IsKept rs db).manned o ids one

  -- Where no organization has more users than its limit, none has after any sequence of user
  -- requests served one after another.
  pub serve_all-IsWithin :
      (rs : List UserRequest) (db : Db) → IsWithin db.tables → IsWithin (serve_all rs db).tables
  unfolding serve_all
  serve_all-IsWithin [] db h = h
  serve_all-IsWithin (r ∷ rs) db h =
      serve_all-IsWithin rs (serve r db) (Effect-IsWithin (serve-Effect r db) h)

  -- User requests of other organizations, served one after another, leave the users of an
  -- organization as they are.
  pub serve_all-users_of :
      (rs : List UserRequest) (db : Db) (o : Uuid)
      → All (λ r. (org_of r == o) ≡ false) rs
      → users_of o (serve_all rs db).tables ≡ users_of o db.tables
  unfolding serve_all
  serve_all-users_of [] db o h = refl
  serve_all-users_of (r ∷ rs) db o (h, hs) =
      serve_all-users_of rs (serve r db) o hs ∙ Effect-users_of o h (serve-Effect r db)
