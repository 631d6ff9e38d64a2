-- ===== src/Auth/Mint/Parses.antt =====
-- Parse of internal/auth/jwt.go on the tokens of MintLocal.
use iot_backend.Base.{
  String, true, false, none, some, str_eq, eq_iff, if◌then◌else◌, ◌≡◌, ◌≢◌, refl, ap, ◌∙◌,
  Bool-cases, inl, inr,
}
use iot_backend.Models.{Uuid, User, valid_auth_role}
use iot_backend.Text.Split.{unequal}
use iot_backend.Auth.{
  Platform, Claims, Validator, Jwt, secret, Principal, valid, parse, principal_from_claims,
  first_string, string_claim, claim_text, bool_claim, claim_bool, checked_claims, audience_ok,
}
use iot_backend.Auth.Mint.{Signer, minted_claims, mint_local}

-- The principal that a row of the table of users stands for.
abbrev pub principal_of_user : User → Principal
principal_of_user u = record {
  user_id = u.id;
  organization_id = u.organization_id;
  role = u.role;
  can_export = u.can_export;
  subject = u.cognito_subject;
  email = "";
}

-- The text of an identifier is not empty and is read back.
abbrev pub IsReadBack : Platform → Uuid → Type 0
IsReadBack sys id = (sys.format_uuid id ≢ "") × (sys.parse_uuid (sys.format_uuid id) ≡ some id)

module _ (sys : Platform) (signer : Signer) (v : Validator) where
  minted-principal :
      (u : User)
      → valid_auth_role u.role ≡ true
      → u.role ≢ ""
      → IsReadBack sys u.id
      → IsReadBack sys u.organization_id
      → principal_from_claims sys (minted_claims sys signer v u) ≡ valid (principal_of_user u)
  unfolding principal_from_claims minted_claims first_string string_claim claim_text bool_claim
      claim_bool
  minted-principal u role named (id_full, id_read) (org_full, org_read) =
      rw
        (
          unequal (sys.format_uuid u.id) "" id_full,
          unequal (sys.format_uuid u.organization_id) "" org_full,
          unequal u.role "" named,
          role,
        )
        (rw (org_read, unequal (sys.format_uuid u.id) "" id_full, id_read) refl)

-- A role of the program is not empty.
role_filled : (role : String) → valid_auth_role role ≡ true → role ≢ ""
unfolding valid_auth_role
role_filled role known e = cc (rw e at known)

module _ (sys : Platform) (jwt : Jwt) (signer : Signer) (v : Validator) where
  -- The JWT library verifies what it has signed with the local secret, and gives the claims back: the
  -- issuer is the one asked for, and the expiry has not passed.
  abbrev pub IsVerified : User → String → Type 0
  IsVerified u token =
      signer.sign (minted_claims sys signer v u) ≡ some token
      → jwt.verify secret (if str_eq v.issuer "" then none else some v.issuer) token
        ≡ some (minted_claims sys signer v u)

  mint_local-signed :
      (u : User) (token : String)
      → mint_local sys signer v u ≡ some token
      → (v.mode ≡ "local") × (signer.sign (minted_claims sys signer v u) ≡ some token)
  unfolding mint_local
  mint_local-signed u token minted = elim (Bool-cases (str_eq v.mode "local")) [
    | inr other ↦ cc (rw other at minted)
    | inl local ↦ ((eq_iff v.mode "local").0 local, rw local at minted)
  ]

  parse-verified :
      (c : Claims) (token : String)
      → v.mode ≡ "local"
      → v.audience ≡ ""
      → jwt.verify secret (if str_eq v.issuer "" then none else some v.issuer) token ≡ some c
      → parse sys jwt v token ≡ principal_from_claims sys c
  unfolding parse checked_claims audience_ok
  parse-verified c token local any_audience verified =
      let here : str_eq v.mode "cognito" ≡ false = ap (λ m. str_eq m "cognito") local in
      let anyone : str_eq v.audience "" ≡ true = (eq_iff v.audience "").1 any_audience in
      rw (here, verified, anyone) refl

  -- Where no audience is set, and the JWT library verifies what it has signed: Parse of a token that
  -- MintLocal gives for a user with a known role gives the user's identifier, organization, role,
  -- right to export and subject.
  pub parse-mint_local :
      (u : User) (token : String)
      → v.audience ≡ ""
      → valid_auth_role u.role ≡ true
      → IsReadBack sys u.id
      → IsReadBack sys u.organization_id
      → IsVerified u token
      → mint_local sys signer v u ≡ some token
      → parse sys jwt v token ≡ valid (principal_of_user u)
  parse-mint_local u token any_audience role id org library minted =
      let (local, signed) = mint_local-signed u token minted in
      parse-verified (minted_claims sys signer v u) token local any_audience (library signed)
      ∙ minted-principal sys signer v u role (role_filled u.role role) id org
