-- ===== src/Tests/Session.antt =====
-- The development login of a user, and the token that it gives.
use iot_backend.Base.{
  String, true, false, [], Option, none, some, str_eq, if◌then◌else◌, ◌==◌, ◌≡◌, refl, ap, or_else,
  pos,
}
use iot_backend.Models.{User, valid_auth_role, role_org_admin}
use iot_backend.Auth.{Platform, Claim, null, text, Jwt, Validator, valid, parse}
use iot_backend.Auth.Mint.{Signer, minted_claims}
use iot_backend.Auth.Mint.Parses.{principal_of_user}
use iot_backend.Api.{error, json, go, answer}
use iot_backend.Api.Session.{Session, dev_login}
use iot_backend.Api.Session.Login.{IsLoggedIn, IsSound, dev_login-parse}
use iot_backend.Tests.{sys, env, db, user}

-- Identifiers that are read back.
abbrev own_sys : Platform
own_sys = record sys {
  parse_uuid = λ s.
      if str_eq s "u1"
      then some 1
      else if str_eq s "u2"
      then some 2
      else if str_eq s "o7"
      then some 7
      else some 8;
  format_uuid =
      λ id. if id == 1 then "u1" else if id == 2 then "u2" else if id == 7 then "o7" else "o8";
}

-- The token of some claims is their subject.
abbrev token_of : Option Claim → Option String
token_of (some (text s)) = some s
token_of _ = none

abbrev signer : Signer
signer = record { sign = λ c. token_of (c "sub"); iat = null; exp = null }

abbrev validator : Validator
validator = record { mode = "local"; issuer = "iot"; audience = "" }

abbrev ann : User
ann = user 1 7 "ann" role_org_admin

abbrev jwt : Jwt
jwt = record {
  verify = λ source issuer token.
      if str_eq token "ann" then some (minted_claims own_sys signer validator ann) else none;
  audiences = λ c. [];
}

abbrev session : Session
session = record { token = "ann"; expires_in = pos 60 }

login_tests :
    ((dev_login own_sys env signer validator (pos 60) (some " ann ") db).0 ≡ go (json 200 session))
    × ((dev_login own_sys env signer validator (pos 60) (some "eve") db).0
        ≡ answer (error 401 "unauthorized" "unknown user"))
    × ((dev_login own_sys env signer
          (record validator { mode = "cognito" })
          (pos 60)
          (some "ann")
          db).0
        ≡ answer (error 500 "internal" "failed to issue token"))
unfolding dev_login
login_tests = (refl, refl, refl)

ann-IsSound : IsSound own_sys env signer validator (pos 60) db jwt "ann" ann
unfolding valid_auth_role
ann-IsSound = record {
  role = refl;
  id = (λ e. cc e, refl);
  organization = (λ e. cc e, refl);
  library = λ e. refl;
}

bob-IsSound :
    IsSound own_sys env signer validator (pos 60) db jwt "ann" (user 2 8 "bob" role_org_admin)
unfolding valid_auth_role minted_claims
bob-IsSound = record {
  role = refl;
  id = (λ e. cc e, refl);
  organization = (λ e. cc e, refl);
  library =
      λ e. let other : false ≡ true = ap (λ o. str_eq (or_else o "") "ann") e in absurd (cc other);
}

dev_login-parse_example :
    (u : User) × IsLoggedIn own_sys env signer validator (pos 60) db " ann " "ann" u
    × (parse own_sys jwt validator "ann" ≡ valid (principal_of_user u))
dev_login-parse_example =
    dev_login-parse own_sys env signer validator (pos 60) db jwt " ann " session refl
      (ann-IsSound, (bob-IsSound, tt)) (unfold dev_login in refl)
