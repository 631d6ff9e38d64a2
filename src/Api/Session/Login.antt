-- ===== src/Api/Session/Login.antt =====
-- What devLogin of internal/api/handlers.go gives, and what Parse makes of it.
use iot_backend.Base.{
  String, true, some, str_eq, find?, All, All-find?, ◌≡◌, ap, ◌∙◌, Bool-cases, Option-cases, inl,
  inr, ℤ,
}
use iot_backend.Models.{User, is_active, valid_auth_role}
use iot_backend.Text.{trim_space}
use iot_backend.Auth.{Platform, Validator, Jwt, valid, parse}
use iot_backend.Auth.Mint.{Signer, mint_local}
use iot_backend.Auth.Mint.Parses.{IsReadBack, IsVerified, principal_of_user, parse-mint_local}
use iot_backend.Repository.{Env, Db}
use iot_backend.Repository.Users.{get_user_by_email}
use iot_backend.Api.{json, go}
use iot_backend.Api.Session.{Session, dev_login}

module _ (sys : Platform) (env : Env) (signer : Signer) (v : Validator) (expires_in : ℤ)
    (db : Db) where
  -- The row of an email, whose user is active and has got the token.
  pub record IsLoggedIn (email token : String) (u : User) : Type 0 where
    pub found :
        find?
          (λ (u : User). str_eq (env.lower u.email) (env.lower (trim_space email)))
          db.tables.users
        ≡ some u
    pub active : is_active u ≡ true
    pub minted : mint_local sys signer v u ≡ some token

  dev_login-IsLoggedIn :
      (email : String) (s : Session)
      → (dev_login sys env signer v expires_in (some email) db).0 ≡ go (json 200 s)
      → (u : User) × IsLoggedIn email s.token u
  unfolding dev_login get_user_by_email
  dev_login-IsLoggedIn email s e =
      let p = λ (u : User). str_eq (env.lower u.email) (env.lower (trim_space email)) in
      elim (Bool-cases (str_eq (trim_space email) "")) [
        | inl empty ↦ cc (rw empty at e)
        | inr filled ↦ elim (Bool-cases (env.fails db.statements)) [
          | inl down ↦ cc (rw (filled, down) at e)
          | inr up ↦ elim (Option-cases (find? p db.tables.users)) [
            | inl nobody ↦ cc (rw (filled, up, nobody) at e)
            | inr (u, found) ↦ elim (Bool-cases (is_active u)) [
              | inr off ↦ cc (rw (filled, up, found, off) at e)
              | inl active ↦ elim (Option-cases (mint_local sys signer v u)) [
                | inl failed ↦ cc (rw (filled, up, found, active, failed) at e)
                | inr (token, minted) ↦
                    let same : token ≡ s.token = cc (rw (filled, up, found, active, minted) at e) in
                    (u, record { found = found; active = active; minted = minted ∙ ap some same })
              ]
            ]
          ]
        ]
      ]

  -- What is relied on for a user: the role is known, the identifiers are read back, and the JWT
  -- library verifies what it has signed.
  pub record IsSound (jwt : Jwt) (token : String) (u : User) : Type 0 where
    pub role : valid_auth_role u.role ≡ true
    pub id : IsReadBack sys u.id
    pub organization : IsReadBack sys u.organization_id
    pub library : IsVerified sys jwt signer v u token

  -- Where devLogin answers with a session, there is an active user with the email, apart from spaces
  -- around it and from case; and where no audience is set, the JWT library verifies what it has signed,
  -- and the users have known roles and identifiers that are read back, Parse of the session's token
  -- gives that user's identifier, organization, role, right to export and subject.
  pub dev_login-parse :
      (jwt : Jwt) (email : String) (s : Session)
      → v.audience ≡ ""
      → All (IsSound jwt s.token) db.tables.users
      → (dev_login sys env signer v expires_in (some email) db).0 ≡ go (json 200 s)
      → (u : User) × IsLoggedIn email s.token u
        × (parse sys jwt v s.token ≡ valid (principal_of_user u))
  dev_login-parse jwt email s any_audience sound e =
      let (u, h) = dev_login-IsLoggedIn email s e in
      let k = All-find? (IsSound jwt s.token) _ db.tables.users u sound h.found in
      (
        u,
        h,
        parse-mint_local sys jwt signer v u s.token any_audience k.role k.id k.organization
            k.library h.minted,
      )
