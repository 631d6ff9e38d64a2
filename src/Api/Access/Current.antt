-- ===== src/Api/Access/Current.antt =====
-- Whom the middleware of internal/api/handlers.go lets through.
use iot_backend.Base.{
  String, Bool, true, false, Option, none, some, ◌==◌, ==_iff, str_eq, eq_iff, if◌then◌else◌, find?,
  ◌≡◌, ◌≢◌, ◌⊎◌, inl, inr, refl, sym, ap, ◌∙◌, Bool-cases, if-keeps,
}
use iot_backend.Models.{User, Organization, status_active, is_active, role_org_admin}
use iot_backend.Auth.{
  Platform, Principal, Jwt, Validator, Parsed, valid, invalid_token, parse, bearer_token, is_admin,
}
use iot_backend.Repository.{Error, Result, ok, err, failed, Env, Tables, Db, one_row}
use iot_backend.Repository.Users.{get_user_by_id, get_user_by_subject, get_organization}
use iot_backend.Api.{go, sql}
use iot_backend.Api.Rules.{>>=-eq-go, demand_on, require_on, sql-go}
use iot_backend.Api.Access.{
  unauthorized, forbidden, principal_of, current, second_lookup, lookup_user, auth_middleware,
  require_admin,
}

-- The user's row is there, by the identifier or the subject of the token; the user and its
-- organization are active, and the organization is the token's.
pub record IsCurrent (t : Tables) (p : Principal) (u : User) : Type 0 where
  pub there :
      (find? (λ (x : User). x.id == p.user_id) t.users ≡ some u)
      ⊎ ((p.subject ≢ "")
          × (find? (λ (x : User). str_eq x.cognito_subject p.subject) t.users ≡ some u))
  pub user_active : u.status ≡ status_active
  pub own : u.organization_id ≡ p.organization_id
  pub org : Organization
  pub org_there : find? (λ o. o.id == p.organization_id) t.organizations ≡ some org
  pub org_active : org.status ≡ status_active

module _ {A : Type 0} where
  one_row-ok :
      (b : Bool) (o : Option A) (a : A) → (if b then err failed else one_row o) ≡ ok a → o ≡ some a
  one_row-ok true o a e = cc
  one_row-ok false none a e = cc
  one_row-ok false (some x) a e = cc

lookup_user-ok :
    (env : Env) (p : Principal) (db : Db) (u : User)
    → (lookup_user env p db).0 ≡ ok u
    → (find? (λ (x : User). x.id == p.user_id) db.tables.users ≡ some u)
      ⊎ ((p.subject ≢ "")
          × (find? (λ (x : User). str_eq x.cognito_subject p.subject) db.tables.users ≡ some u))
unfolding lookup_user get_user_by_id get_user_by_subject
lookup_user-ok env p db u e =
    at_first
      (if env.fails db.statements
        then err failed
        else one_row (find? (λ (x : User). x.id == p.user_id) db.tables.users))
      refl e
  where
    at_first :
        (r : Result User)
        → (if env.fails db.statements
            then err failed
            else one_row (find? (λ (x : User). x.id == p.user_id) db.tables.users))
          ≡ r
        → (second_lookup env p (r, (get_user_by_id env p.user_id db).1)).0 ≡ ok u
        → (find? (λ (x : User). x.id == p.user_id) db.tables.users ≡ some u)
          ⊎ ((p.subject ≢ "")
              × (find? (λ (x : User). str_eq x.cognito_subject p.subject) db.tables.users ≡ some u))
    at_first (ok w) found e = inl (one_row-ok _ _ u (found ∙ e))
    at_first (err w) found e = elim (Bool-cases (str_eq p.subject "")) [
      | inl empty ↦ cc (rw empty at e)
      | inr named ↦
          inr
            ((λ empty. cc ((eq_iff p.subject "").1 empty, named)), one_row-ok _ _ u (rw named at e))
    ]

lookup_user-tables :
    (env : Env) (p : Principal) (db : Db) → (lookup_user env p db).1.tables ≡ db.tables
unfolding lookup_user get_user_by_id get_user_by_subject
lookup_user-tables env p db = at_first _ (get_user_by_id env p.user_id db).1
  where
    at_first : (r : Result User) (d : Db) → (second_lookup env p (r, d)).1.tables ≡ d.tables
    at_first (ok w) d = refl
    at_first (err w) d =
        if-keeps (λ (z : Result User × Db). z.1.tables ≡ d.tables) (str_eq p.subject "") _ _
          (λ _. refl) (λ _. refl)

principal_of-some : (r : Parsed Principal) (p : Principal) → principal_of r ≡ some p → r ≡ valid p
principal_of-some (valid q) p e = cc
principal_of-some (invalid_token what) p e = cc

module _ (sys : Platform) (env : Env) (jwt : Jwt) (v : Validator) {A : Type 0} where
  -- A request that authMiddleware passes on has a bearer token that parses, and the user that the
  -- token names stands in the database, active and in the token's active organization; the request
  -- goes on with the role and the permission of the user's row, whatever the token says.
  pub auth_middleware-IsCurrent :
      (header : String) (db : Db) (q : Principal)
      → (auth_middleware sys env jwt v {A = A} header db).0 ≡ go q
      → (token : String) × (p : Principal) × (u : User) × (bearer_token sys header ≡ some token)
        × (parse sys jwt v token ≡ valid p)
        × IsCurrent db.tables p u
        × (q ≡ current p u)
  unfolding auth_middleware get_organization is_active
  auth_middleware-IsCurrent header db q e =
      let (token, given, f1) = require_on _ (bearer_token sys header) _ db _ e in
      let (p, read, f2) = require_on _ (principal_of (parse sys jwt v token)) _ db _ f1 in
      let unknown = λ (x : Error). unauthorized {A = A} "unknown user" in
      let look = sql (lookup_user env p) unknown in
      let (u, looked, f3) = >>=-eq-go look _ db _ f2 in
      let d1 = (look db).1 in
      let (active, f4) = demand_on _ (is_active u) _ d1 _ f3 in
      let (same, f5) = demand_on _ (u.organization_id == p.organization_id) _ d1 _ f4 in
      let unavailable = λ (x : Error). forbidden {A = A} "organization unavailable" in
      let load = sql (get_organization env p.organization_id) unavailable in
      let (org, loaded, f6) = >>=-eq-go load _ d1 _ f5 in
      let (org_active, f7) = demand_on _ (str_eq org.status status_active) _ (load d1).1 _ f6 in
      let found = lookup_user-ok env p db u (sql-go (lookup_user env p) unknown db u looked) in
      let org_found =
        one_row-ok _ _ org
          (sql-go (get_organization env p.organization_id) unavailable d1 org loaded) in
      (
        token,
        p,
        u,
        given,
        principal_of-some _ p read,
        record {
          there = found;
          user_active = (eq_iff _ _).0 active;
          own = (==_iff _ _).0 same;
          org = org;
          org_there = rw (lookup_user-tables env p db) at org_found;
          org_active = (eq_iff _ _).0 org_active;
        },
        cc f7,
      )

  -- A request that requireAdmin passes on is one that authMiddleware passes on, of a user whose row
  -- has the role org_admin.
  pub require_admin-IsAdmin :
      (header : String) (db : Db) (q : Principal)
      → (require_admin sys env jwt v {A = A} header db).0 ≡ go q
      → (token : String) × (p : Principal) × (u : User) × (bearer_token sys header ≡ some token)
        × (parse sys jwt v token ≡ valid p)
        × IsCurrent db.tables p u
        × (q ≡ current p u)
        × (u.role ≡ role_org_admin)
  unfolding require_admin is_admin
  require_admin-IsAdmin header db q e =
      let enter = auth_middleware sys env jwt v {A = A} header in
      let (r, entered, f1) = >>=-eq-go enter _ db _ e in
      let (admin, f2) = demand_on _ (is_admin r) _ (enter db).1 _ f1 in
      let same : r ≡ q = cc f2 in
      let (token, p, u, given, read, now, made) = auth_middleware-IsCurrent header db r entered in
      let role : r.role ≡ role_org_admin = (eq_iff _ _).0 admin in
      (
        token,
        p,
        u,
        given,
        read,
        now,
        sym same ∙ made,
        sym (ap (λ (x : Principal). x.role) made) ∙ role,
      )
