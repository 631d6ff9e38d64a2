-- ===== src/Api/Validate.antt =====
-- The checks of internal/api/json.go on names, identifiers, emails and roles.
use Prim.Native.Char.{code}
use Prim.Native.String.{[], ◌∷◌, len, count}
use iot_backend.Base.{
  ℕ, String, Bool, true, false, Option, none, some, ◌||◌, ◌&&◌, not, str_eq, ◌==◌, leb, ltb,
  if◌then◌else◌,
}
use iot_backend.Models.{role_org_admin, role_org_user}
use iot_backend.Text.{trim_space}
use iot_backend.Auth.{Platform}

-- A checked value, or the message of the error.
pub data Checked : Type 0 where
  good : String → Checked
  bad : String → Checked

-- requireName.
unfoldable pub require_name : String → Checked
unfolding trim_space
require_name raw =
    let name = trim_space raw in
    if str_eq name ""
    then bad "name is required"
    else if ltb 200 (len name)
    then bad "name is too long"
    else good name

-- The character class of identifierRE.
unfoldable pub is_identifier_char : ℕ → Bool
is_identifier_char n =
    (leb b'A' n && leb n b'Z')
    || (leb b'a' n && leb n b'z')
    || (leb b'0' n && leb n b'9')
    || n == b'.'
    || n == b'_'
    || n == b':'
    || n == b'-'

abbrev pub every : (ℕ → Bool) → String → Bool
every p [] = true
every p (c ∷ s) = p (code c) && every p s

-- identifierRE.MatchString: 1 to 128 characters of the class.
unfoldable pub matches_identifier : String → Bool
unfolding is_identifier_char
matches_identifier s = every is_identifier_char s && leb 1 (count s) && leb (count s) 128

-- requireIdentifier.
unfoldable pub require_identifier : String → Checked
unfolding trim_space matches_identifier
require_identifier raw =
    let id = trim_space raw in
    if matches_identifier id
    then good id
    else bad "device_identifier must be 1-128 characters of letters, numbers, . _ : -"

-- `err != nil || !strings.EqualFold(addr.Address, email)`, the other way round.
abbrev pub address_agrees : Platform → Option String → String → Bool
address_agrees sys none email = false
address_agrees sys (some address) email = sys.equal_fold address email

-- requireEmail.
unfoldable pub require_email : Platform → String → Checked
unfolding trim_space
require_email sys raw =
    let email = sys.to_lower (trim_space raw) in
    if str_eq email ""
    then bad "email is required"
    else if ltb 254 (len email)
    then bad "email is too long"
    else if address_agrees sys (sys.parse_address email) email
    then good email
    else bad "invalid email"

-- requireRole.
unfoldable pub require_role : String → Checked
unfolding trim_space
require_role raw =
    let role = trim_space raw in
    if not (str_eq role role_org_admin) && not (str_eq role role_org_user)
    then bad "role must be org_admin or org_user"
    else good role
