-- ===== src/Auth.antt =====
-- internal/auth/jwt.go: the principal that the claims of a verified token stand for, and the
-- bearer token of a request. Verifying and signing are the JWT library's, and parameters here.
pub mod Mint
use iot_backend.Base.{
  ℕ, String, Bool, true, false, List, [], ◌∷◌, Option, none, some, ◌||◌, not, str_eq, ◌==◌,
  if◌then◌else◌, or_else, any, ℤ, pos, ◌%◌, ◌^◌,
}
use iot_backend.Text.{cut}
use iot_backend.Models.{Uuid, Float, role_org_admin, role_platform_admin, valid_auth_role}

pub record Principal : Type 0 where
  pub user_id : Uuid
  pub organization_id : Uuid
  pub role : String
  pub can_export : Bool
  pub subject : String
  pub email : String

-- Principal.IsAdmin.
unfoldable pub is_admin : Principal → Bool
is_admin p = str_eq p.role role_org_admin

-- Principal.IsPlatformAdmin.
unfoldable pub is_platform_admin : Principal → Bool
is_platform_admin p = str_eq p.role role_platform_admin

-- A claim as encoding/json decodes it; `other` is an array or an object.
pub data Claim : Type 0 where
  null : Claim
  text : String → Claim
  flag : Bool → Claim
  json_number : String → Claim
  float : Float → Claim
  other : ℕ → Claim

-- The claims of a token: `none` for a key that is not there.
abbrev pub Claims : Type 0
Claims = String → Option Claim

-- What the code calls and does not define: the uuid package, fmt.Sprint on a claim that is no
-- string, json.Number.Int64, and two functions of `strings`.
pub record Platform : Type 0 where
  pub parse_uuid : String → Option Uuid
  pub format_uuid : Uuid → String
  pub sprint : Claim → String
  pub parse_int64 : String → Option ℤ
  pub to_lower : String → String
  pub equal_fold : String → String → Bool
  pub parse_address : String → Option String

-- ErrInvalidToken, with the claim that is wrong.
pub data Parsed {ℓ} (A : Type ℓ) : Type ℓ where
  valid : A → Parsed A
  invalid_token : String → Parsed A

module _ (sys : Platform) where
  -- The two cases of stringClaim's switch, and its test for a missing or null claim.
  unfoldable pub claim_text : Option Claim → Option String
  claim_text none = none
  claim_text (some null) = none
  claim_text (some (text s)) = some s
  claim_text (some c) = some (sys.sprint c)

  -- stringClaim: `none` where its Boolean result is false.
  unfoldable pub string_claim : Claims → String → Option String
  unfolding claim_text
  string_claim claims key = claim_text (claims key)

  abbrev pub nonempty_or : Option String → Option String → Option String
  nonempty_or none rest = rest
  nonempty_or (some s) rest = if str_eq s "" then rest else some s

  -- firstString.
  unfoldable pub first_string : Claims → List String → Option String
  unfolding string_claim
  first_string claims [] = none
  first_string claims (k ∷ ks) = nonempty_or (string_claim claims k) (first_string claims ks)

  -- The inner switch of boolClaim on a lowered text.
  unfoldable pub text_bool : String → Option Bool
  text_bool s =
      if str_eq s "true" || str_eq s "1" || str_eq s "yes"
      then some true
      else if str_eq s "false" || str_eq s "0" || str_eq s "no"
      then some false
      else none

  abbrev pub nonzero : ℤ → Bool
  nonzero (pos ℕ.zero) = false
  nonzero _ = true

  abbrev pub int_bool : Option ℤ → Option Bool
  int_bool none = none
  int_bool (some i) = some (nonzero i)

  abbrev pub first_some : Option Bool → Option Bool → Option Bool
  first_some none rest = rest
  first_some (some b) rest = some b

  -- One round of boolClaim, with the result of the later rounds: a claim of another type, or a
  -- text of another spelling, goes on to the next key. `none` is the error.
  unfoldable pub claim_bool : Option Claim → Option Bool → Option Bool
  unfolding text_bool
  claim_bool (some (flag b)) rest = some b
  claim_bool (some (text s)) rest = first_some (text_bool (sys.to_lower s)) rest
  claim_bool (some (json_number n)) rest = int_bool (sys.parse_int64 n)
  claim_bool (some (float f)) rest = some (not (f % 2 ^ 63 == 0))
  claim_bool _ rest = rest

  -- boolClaim.
  unfoldable pub bool_claim : Claims → List String → Option Bool
  unfolding claim_bool
  bool_claim claims [] = none
  bool_claim claims (k ∷ ks) = claim_bool (claims k) (bool_claim claims ks)

  abbrev pub parsed_or {ℓ κ} :
      {A : Type ℓ} {B : Type κ} → Option A → String → (A → Parsed B) → Parsed B
  parsed_or none what k = invalid_token what
  parsed_or (some a) what k = k a

  -- principalFromClaims.
  unfoldable pub principal_from_claims : Claims → Parsed Principal
  unfolding string_claim first_string bool_claim valid_auth_role
  principal_from_claims claims =
      let sub = or_else (string_claim claims "sub") "" in
      let named = or_else (first_string claims ("user_id" ∷ "custom:user_id" ∷ [])) "" in
      let user = if str_eq named "" then sub else named in
      let org =
        or_else (first_string claims ("organization_id" ∷ "custom:organization_id" ∷ [])) "" in
      let role = or_else (first_string claims ("role" ∷ "custom:role" ∷ [])) "" in
      if not (valid_auth_role role)
      then invalid_token "role"
      else parsed_or (sys.parse_uuid org) "organization_id" λ org_id.
        parsed_or (sys.parse_uuid user) "user_id" λ user_id.
          parsed_or (bool_claim claims ("can_export" ∷ "custom:can_export" ∷ [])) "can_export"
            λ can_export. valid (record {
              user_id = user_id;
              organization_id = org_id;
              role = role;
              can_export = can_export;
              subject = sub;
              email = "";
            })

  -- The tests of BearerToken on the two parts of the header.
  unfoldable pub bearer_part : Option (String × String) → Option String
  bearer_part none = none
  bearer_part (some (typ, token)) =
      if not (sys.equal_fold typ "Bearer") || str_eq token "" then none else some token

  -- BearerToken on the header `Authorization`, "" where that is missing.
  unfoldable pub bearer_token : String → Option String
  unfolding bearer_part cut
  bearer_token h = if str_eq h "" then none else bearer_part (cut b' ' h)

-- Where the key of a token comes from: the local secret, or the identity provider's key set.
pub data KeySource : Type 0 where
  secret key_set : KeySource

pub record Validator : Type 0 where
  pub mode : String
  pub issuer : String
  pub audience : String

-- The JWT library: `verify` gives the claims of a token that it finds valid under a key source,
-- with an expiry, and with the issuer where one is named; `audiences` is GetAudience.
pub record Jwt : Type 0 where
  pub verify : KeySource → Option String → String → Option Claims
  pub audiences : Claims → List String

module _ (sys : Platform) (jwt : Jwt) (v : Validator) where
  -- The test on the audience, which the claim `client_id` can pass as well.
  unfoldable pub audience_ok : Claims → Bool
  unfolding string_claim
  audience_ok claims =
      str_eq v.audience ""
      || any (λ a. str_eq a v.audience) (jwt.audiences claims)
      || str_eq (or_else (string_claim sys claims "client_id") "") v.audience

  unfoldable pub checked_claims : Option Claims → Parsed Principal
  unfolding audience_ok principal_from_claims
  checked_claims none = invalid_token "token"
  checked_claims (some claims) =
      if audience_ok claims then principal_from_claims sys claims else invalid_token "audience"

  -- Validator.Parse.
  unfoldable pub parse : String → Parsed Principal
  unfolding checked_claims
  parse token = checked_claims (
      jwt.verify (if str_eq v.mode "cognito" then key_set else secret)
        (if str_eq v.issuer "" then none else some v.issuer) token)
