-- ===== src/Tests/Users.antt =====
-- The user handlers, run on the database of the tests.
use iot_backend.Base.{◌≤◌, false, List, [], ◌∷◌, Option, none, some, ◌≡◌, refl, arith}
use iot_backend.Models.{role_org_user}
use iot_backend.Auth.{Principal}
use iot_backend.Repository.Users.{get_user, count_active_admins}
use iot_backend.Api.Validate.{require_role}
use iot_backend.Repository.Users.Counts.{admins, HasUserIds}
use iot_backend.Api.{error, final, write_not_found}
use iot_backend.Api.Users.{
  CreateUser, PatchUser, create_user_handler, patch_user_handler, delete_user_handler,
}
use iot_backend.Api.Users.Limit.{IsWithin, users_of}
use iot_backend.Api.Users.Requests.{
  UserRequest, create, patch, remove, serve_all, serve_all-manned, serve_all-IsWithin,
  serve_all-users_of,
}
use iot_backend.Tests.{sys, env, tables, db, principal}

handlers : Unit {0}
unfolding create_user_handler patch_user_handler delete_user_handler get_user count_active_admins
    write_not_found require_role
handlers = tt

abbrev ann : Principal
ann = principal 1 7 "ann"

abbrev carl : Option CreateUser
carl = some (record { email = "carl"; role = role_org_user; can_export = false })

abbrev demotion : Option PatchUser
demotion = some (record { role = some role_org_user; can_export = none; status = none })

-- A new user, one over the limit, the last admin's removal, and a user of another organization.
abbrev requests : List UserRequest
requests =
    create ann "x" carl ∷ create ann "y" carl ∷ remove ann "u1" ∷ patch ann "u2" demotion ∷ []

handler_tests :
    (final (create_user_handler sys env ann "x" none db).0
      ≡ error 400 "validation_error" "invalid json")
    × (final (delete_user_handler sys env ann "u1" db).0
        ≡ error 409 "last_admin" "cannot remove or demote the last admin")
    × (final (delete_user_handler sys env ann "u2" db).0 ≡ error 404 "not_found" "not found")
    × (final (patch_user_handler sys env ann "u1" demotion db).0
        ≡ error 409 "last_admin" "cannot remove or demote the last admin")
unfolding handlers
handler_tests = (refl, refl, refl, refl)

tables-HasUserIds : HasUserIds tables
tables-HasUserIds id = ground arith

tables-IsWithin : IsWithin tables
tables-IsWithin o org found = ground arith

serve_all-manned_example : 1 ≤ admins 7 (serve_all sys env requests db).tables
serve_all-manned_example = serve_all-manned sys env requests db 7 tables-HasUserIds (omega arith)

serve_all-IsWithin_example : IsWithin (serve_all sys env requests db).tables
serve_all-IsWithin_example = serve_all-IsWithin sys env requests db tables-IsWithin

serve_all-users_of_example : users_of 8 (serve_all sys env requests db).tables ≡ users_of 8 tables
serve_all-users_of_example =
    serve_all-users_of sys env requests db 8 (refl, (refl, (refl, (refl, tt))))
