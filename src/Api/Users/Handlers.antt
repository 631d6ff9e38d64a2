-- ===== src/Api/Users/Handlers.antt =====
-- Each handler of internal/api/users.go that writes, and what it keeps of the tables.
use iot_backend.Base.{ℕ, ◌<◌, String, true, Option, ◌&&◌, not, ◌==◌, leb, ◌≡◌, refl, arith}
use iot_backend.Models.{role_org_admin, status_active}
use iot_backend.Auth.{Platform, Principal}
use iot_backend.Repository.{Env, Db}
use iot_backend.Repository.Users.{create_user, update_user, delete_user}
use iot_backend.Api.{sql, write_not_found}
use iot_backend.Api.Rules.{>>=-keeps}
use iot_backend.Api.Validate.{require_email, require_role}
use iot_backend.Api.Users.{
  CreateUser, PatchUser, new_user, is_other, is_acting_admin, create_user_handler,
  patch_user_handler, delete_user_handler, status_allowed, conflict_or_internal,
}
use iot_backend.Api.Users.Effect.{takes_away}
use iot_backend.Api.Users.Rules.{
  Kept, require_step, demand_step, checked_step, checked?_step, guard_step, get_user_step,
  get_organization_step, count_users_step, deleted, updated, created,
}

module _ (sys : Platform) (env : Env) (p : Principal) (db : Db) where
  pub delete_user-Effect :
      (url_id : String) → Kept env p db (delete_user_handler sys env p url_id db).1
  unfolding delete_user_handler
  delete_user-Effect url_id = require_step env p db (sys.parse_uuid url_id) _ _ db refl λ id d1 s1.
      get_user_step env p db id _ _ d1 s1 λ target d2 s2 found.
        guard_step env p db (is_acting_admin target) _ d2 s2 λ _ d3 s3 guarded.
          demand_step env p db (not (p.user_id == id)) _ _ d3 s3 λ _ d4 s4 _.
            let kept = deleted env p db id target d4 found guarded s4 in
            >>=-keeps (Kept env p db) (sql (delete_user env p.organization_id id) write_not_found) _
              d4 kept λ _ _. kept

  pub patch_user-Effect :
      (url_id : String) (request : Option PatchUser)
      → Kept env p db (patch_user_handler sys env p url_id request db).1
  unfolding patch_user_handler
  patch_user-Effect url_id request =
      require_step env p db (sys.parse_uuid url_id) _ _ db refl λ id d1 s1.
        require_step env p db request _ _ d1 s1 λ body d2 s2.
          get_user_step env p db id _ _ d2 s2 λ target d3 s3 found.
            checked?_step env p db require_role body.role _ d3 s3 λ role d4 s4.
              demand_step env p db (status_allowed body.status) _ _ d4 s4 λ _ d5 s5 _.
                guard_step env p db (takes_away role body.status target) _ d5 s5 λ _ d6 s6 guarded.
                  demand_step env p db (not (p.user_id == id && is_other body.status status_active))
                    _ _ d6 s6
                    λ _ d7 s7 _.
                      demand_step env p db (not (p.user_id == id && is_other role role_org_admin)) _
                        _ d7 s7
                        λ _ d8 s8 _.
                          let kept =
                            updated env p db id role body.can_export body.status target d8 found
                              guarded s8 in
                          >>=-keeps (Kept env p db)
                            (sql
                              (update_user env p.organization_id id role body.can_export
                                body.status)
                              write_not_found)
                            _ d8 kept λ _ _. kept

  room_of_test : (limit n m : ℕ) → not (leb limit n) ≡ true → n ≡ m → m < limit
  room_of_test limit n m h e = ground arith

  pub create_user-Effect :
      (drawn : String) (request : Option CreateUser)
      → Kept env p db (create_user_handler sys env p drawn request db).1
  unfolding create_user_handler
  create_user-Effect drawn request = require_step env p db request _ _ db refl λ body d1 s1.
      checked_step env p db (require_email sys body.email) _ d1 s1 λ email d2 s2.
        checked_step env p db (require_role body.role) _ d2 s2 λ role d3 s3.
          get_organization_step env p db _ _ d3 s3 λ org d4 s4 found.
            count_users_step env p db _ _ d4 s4 λ n d5 s5 counted.
              demand_step env p db (not (leb org.user_limit n)) _ _ d5 s5 λ _ d6 s6 room.
                let row = new_user p.organization_id drawn email role body.can_export in
                let fits = room_of_test org.user_limit n _ room counted in
                let kept = created env p db row org d6 refl found fits s6 in
                >>=-keeps (Kept env p db)
                  (sql (create_user env row)
                    (conflict_or_internal "email already exists" "failed to create user"))
                  _ d6 kept λ _ _. kept
