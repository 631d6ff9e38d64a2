-- ===== src/Tests/Access.antt =====
-- Requests with a bearer token, of a user whose token names a role that the user does not have.
use iot_backend.Base.{ℕ, String, false, [], none, some, ◌≡◌, refl, str_eq, if◌then◌else◌}
use iot_backend.Models.{User, role_org_admin, role_org_user}
use iot_backend.Auth.{Principal, text, flag, Claims, Jwt, Validator, valid, parse, bearer_token}
use iot_backend.Api.{error, go, answer}
use iot_backend.Api.Access.{current, auth_middleware, require_admin, require_platform_admin}
use iot_backend.Api.Access.Current.{IsCurrent, auth_middleware-IsCurrent, require_admin-IsAdmin}
use iot_backend.Tests.{sys, env, db, principal}

accesses : Unit {0}
unfolding require_admin require_platform_admin
accesses = tt

abbrev claims : Claims
claims key =
    if str_eq key "sub"
    then some (text "u1")
    else if str_eq key "organization_id"
    then some (text "o7")
    else if str_eq key "role"
    then some (text role_org_user)
    else if str_eq key "can_export"
    then some (flag false)
    else none

abbrev jwt : Jwt
jwt = record {
  verify = λ source issuer token. if str_eq token "good" then some claims else none;
  audiences = λ c. [];
}

abbrev validator : Validator
validator = record { mode = "local"; issuer = ""; audience = "" }

abbrev ann : Principal
ann = record (principal 1 7 "u1") { email = "ann" }

access_tests :
    ((auth_middleware sys env jwt validator {A = ℕ} "Bearer good" db).0 ≡ go ann)
    × ((auth_middleware sys env jwt validator {A = ℕ} "Bearer bad" db).0
        ≡ answer (error 401 "unauthorized" "invalid token"))
    × ((auth_middleware sys env jwt validator {A = ℕ} "Bearergood" db).0
        ≡ answer (error 401 "unauthorized" "missing bearer token"))
    × ((require_platform_admin sys env jwt validator {A = ℕ} "Bearer good" db).0
        ≡ answer (error 403 "forbidden" "platform admin required"))
unfolding accesses
access_tests = (refl, refl, refl, refl)

auth_middleware-IsCurrent_example :
    (token : String) × (p : Principal) × (u : User) × (bearer_token sys "Bearer good" ≡ some token)
    × (parse sys jwt validator token ≡ valid p)
    × IsCurrent db.tables p u
    × (ann ≡ current p u)
unfolding accesses
auth_middleware-IsCurrent_example =
    auth_middleware-IsCurrent sys env jwt validator {A = ℕ} "Bearer good" db ann refl

require_admin-IsAdmin_example :
    (token : String) × (p : Principal) × (u : User) × (bearer_token sys "Bearer good" ≡ some token)
    × (parse sys jwt validator token ≡ valid p)
    × IsCurrent db.tables p u
    × (ann ≡ current p u)
    × (u.role ≡ role_org_admin)
unfolding accesses
require_admin-IsAdmin_example =
    require_admin-IsAdmin sys env jwt validator {A = ℕ} "Bearer good" db ann refl
