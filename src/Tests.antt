-- ===== src/Tests.antt =====
-- The inputs of the tests: a platform, a database server, and a small database of two
-- organizations. The tests stand in the modules below, and run the handlers on these inputs.
mod Users
mod Hub
mod Access
mod Jobs
mod Exports
mod Telemetry
mod Store
mod Topics
mod Archive
mod Writer
mod Worker
mod Storage
mod Disk
mod Overview
mod Config
mod Session
use iot_backend.Base.{
  ℕ, String, Bool, true, false, List, [], ◌∷◌, Option, none, some, str_eq, if◌then◌else◌, pos,
}
use iot_backend.Models.{Uuid, User, Organization, role_org_admin, role_org_user, status_active}
use iot_backend.Auth.{Platform, Claim, Principal}
use iot_backend.Repository.{Env, DeviceRow, Tables, Db}

-- A few identifiers with their texts.
abbrev read_uuid : String → Option Uuid
read_uuid s =
    if str_eq s "u1"
    then some 1
    else if str_eq s "u2"
    then some 2
    else if str_eq s "d5"
    then some 5
    else if str_eq s "d6"
    then some 6
    else if str_eq s "o7"
    then some 7
    else none

abbrev pub sys : Platform
sys = record {
  parse_uuid = read_uuid;
  format_uuid = λ id. "id";
  sprint = λ c. "";
  parse_int64 = λ s. some (pos 0);
  to_lower = λ s. s;
  equal_fold = str_eq;
  parse_address = some;
}

-- A server on which no statement fails.
abbrev pub env : Env
env = record {
  fails = λ n. false;
  fresh = λ n. n;
  now = λ n. n;
  lower = λ s. s;
  text_le = λ a b. true;
}

abbrev pub user : Uuid → Uuid → String → String → User
user id org_id email role = record {
  id = id;
  organization_id = org_id;
  cognito_subject = email;
  email = email;
  role = role;
  can_export = true;
  status = status_active;
  created_at = 0;
}

abbrev pub organization : Uuid → ℕ → Organization
organization id limit = record {
  id = id;
  name = "o";
  user_limit = limit;
  status = status_active;
  created_at = 0;
}

abbrev pub device : Uuid → Uuid → String → DeviceRow
device id org_id identifier = record {
  id = id;
  organization_id = org_id;
  sub_location_id = none;
  device_identifier = identifier;
  name = identifier;
  status = status_active;
  created_at = 0;
}

abbrev pub tables : Tables
tables = record {
  organizations = organization 7 2 ∷ organization 8 2 ∷ [];
  users = user 1 7 "ann" role_org_admin ∷ user 2 8 "bob" role_org_admin ∷ [];
  locations = [];
  sub_locations = [];
  devices = device 5 7 "t-5" ∷ device 6 8 "t-6" ∷ [];
  export_jobs = [];
}

-- No statement has run so far; the counter starts where no identifier is taken.
abbrev pub db : Db
db = record { tables = tables; statements = 100 }

abbrev pub principal : Uuid → Uuid → String → Principal
principal id org_id subject = record {
  user_id = id;
  organization_id = org_id;
  role = role_org_admin;
  can_export = true;
  subject = subject;
  email = "";
}
