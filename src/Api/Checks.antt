-- ===== src/Api/Checks.antt =====
-- The checks of input as steps of a handler of internal/api: an error of a check is answered with
-- status 400 and its message.
use iot_backend.Base.{String, Option, none, some}
use iot_backend.Repository.{Db}
use iot_backend.Api.{Handler, give, stop, ◌>>=◌, bad_request}
use iot_backend.Api.Validate.{Checked, good, bad}

module _ {A : Type 0} where
  -- A checked value, or status 400 with the message of the check.
  abbrev pub checked : Checked → Handler Db A String
  checked (good s) = give s
  checked (bad message) = stop (bad_request message)

  -- A field of the body that may be missing, checked where it is there.
  abbrev pub checked? : (String → Checked) → Option String → Handler Db A (Option String)
  checked? f none = give none
  checked? f (some s) = do v ← checked (f s); give (some v)
