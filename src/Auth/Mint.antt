-- ===== src/Auth/Mint.antt =====
-- MintLocal of internal/auth/jwt.go: the tokens of the development login. Signing is the JWT
-- library's, and the claims "iat" and "exp" are numbers that it reads itself.
pub mod Parses
use iot_backend.Base.{String, Bool, Option, none, some, not, str_eq, if◌then◌else◌}
use iot_backend.Models.{User}
use iot_backend.Auth.{Platform, Claim, text, flag, Claims, Validator}

-- SignedString with the secret, and the claims of the time of the call and of the expiry.
pub record Signer : Type 0 where
  pub sign : Claims → Option String
  pub iat : Claim
  pub exp : Claim

module _ (sys : Platform) (signer : Signer) (v : Validator) where
  unfoldable pub minted_claims : User → Claims
  minted_claims user key =
      if str_eq key "iss"
      then some (text v.issuer)
      else if str_eq key "sub"
      then some (text user.cognito_subject)
      else if str_eq key "user_id"
      then some (text (sys.format_uuid user.id))
      else if str_eq key "organization_id"
      then some (text (sys.format_uuid user.organization_id))
      else if str_eq key "role"
      then some (text user.role)
      else if str_eq key "can_export"
      then some (flag user.can_export)
      else if str_eq key "iat"
      then some signer.iat
      else if str_eq key "exp"
      then some signer.exp
      else none

  -- MintLocal: `none` is an error.
  unfoldable pub mint_local : User → Option String
  unfolding minted_claims
  mint_local user = if not (str_eq v.mode "local") then none else signer.sign (minted_claims user)
