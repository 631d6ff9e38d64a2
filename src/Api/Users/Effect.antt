-- ===== src/Api/Users/Effect.antt =====
-- What one request to a handler of internal/api/users.go can do to the tables.
use iot_backend.Base.{◌<◌, String, Bool, Option, some, ◌||◌, ◌&&◌, ◌==◌, ◌≡◌, find?, count, true}
use iot_backend.Models.{Uuid, User, Organization, role_org_admin, status_active}
use iot_backend.Repository.{Env, Tables}
use iot_backend.Repository.Users.{is_user, in_org}
use iot_backend.Repository.Users.Counts.{admins}
use iot_backend.Repository.Users.Effects.{IsPatched}
use iot_backend.Repository.Users.Growth.{removed, IsGrown}
use iot_backend.Api.Users.{is_other, is_acting_admin}

-- The guard of patchUser and of deleteUser: if an acting admin goes, there are others.
abbrev pub Guarded : Bool → Uuid → Tables → Type 0
Guarded goes org_id t = goes ≡ true → 1 < admins org_id t

-- A patch of an acting admin that takes the role or the status away.
abbrev pub takes_away : Option String → Option String → User → Bool
takes_away role status target =
    (is_other role role_org_admin && is_acting_admin target)
    || (is_other status status_active && is_acting_admin target)

-- Nothing; some new values in the row of one user of the organization; that row gone; or a new
-- row, while there was room under the organization's limit.
pub data Effect (env : Env) (org_id : Uuid) (t t' : Tables) : Type 0 where
  nothing : t' ≡ t → Effect env org_id t t'
  patched_row :
      (id : Uuid) (role : Option String) (can_export : Option Bool) (status : Option String)
      (target : User)
      → find? (is_user org_id id) t.users ≡ some target
      → Guarded (takes_away role status target) org_id t
      → IsPatched org_id id role can_export status t t'
      → Effect env org_id t t'
  removed_row :
      (id : Uuid) (target : User)
      → find? (is_user org_id id) t.users ≡ some target
      → Guarded (is_acting_admin target) org_id t
      → t' ≡ removed org_id id t
      → Effect env org_id t t'
  added_row :
      (org : Organization)
      → find? (λ o. o.id == org_id) t.organizations ≡ some org
      → count (in_org org_id) t.users < org.user_limit
      → IsGrown env org_id t t'
      → Effect env org_id t t'
