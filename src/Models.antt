-- ===== src/Models.antt =====
-- internal/models/models.go, and the numbers that stand for its identifiers, instants and floats.
use iot_backend.Base.{ℕ, ◌/◌, ◌%◌, ◌^◌, String, Bool, List, Option, ◌||◌, ◌==◌, str_eq}

-- uuid.UUID, sixteen bytes that the program only compares, as the number that they spell.
abbrev pub Uuid : Type 0
Uuid = ℕ

-- time.Time as an instant: nanoseconds since the start of an hour that is before every time the
-- program meets. So `UTC()` changes nothing, and `Before` and `After` are the orders.
abbrev pub Time : Type 0
Time = ℕ

-- A float64 as its 64 bits.
abbrev pub Float : Type 0
Float = ℕ

-- math.IsNaN(f) || math.IsInf(f, 0): all eleven bits of the exponent are set.
unfoldable pub is_nan_or_inf : Float → Bool
is_nan_or_inf f = f / 2 ^ 52 % 2048 == 2047

abbrev pub role_org_admin : String
role_org_admin = "org_admin"

abbrev pub role_org_user : String
role_org_user = "org_user"

abbrev pub role_platform_admin : String
role_platform_admin = "platform_admin"

abbrev pub status_active : String
status_active = "active"

abbrev pub status_disabled : String
status_disabled = "disabled"

abbrev pub status_inactive : String
status_inactive = "inactive"

pub record Organization : Type 0 where
  pub id : Uuid
  pub name : String
  pub user_limit : ℕ
  pub status : String
  pub created_at : Time

pub record User : Type 0 where
  pub id : Uuid
  pub organization_id : Uuid
  pub cognito_subject : String
  pub email : String
  pub role : String
  pub can_export : Bool
  pub status : String
  pub created_at : Time

pub record Location : Type 0 where
  pub id : Uuid
  pub organization_id : Uuid
  pub name : String
  pub created_at : Time

pub record SubLocation : Type 0 where
  pub id : Uuid
  pub organization_id : Uuid
  pub location_id : Uuid
  pub name : String
  pub created_at : Time

pub record Device : Type 0 where
  pub id : Uuid
  pub organization_id : Uuid
  pub sub_location_id : Option Uuid
  pub device_identifier : String
  pub name : String
  pub status : String
  pub created_at : Time
  pub location_id : Option Uuid
  pub location_name : Option String
  pub sub_location_name : Option String

pub record Reading : Type 0 where
  pub device_id : Uuid
  pub temperature : Float
  pub pressure : Float
  pub humidity : Float
  pub ts : Time
  pub updated_at : Time

abbrev pub export_queued : String
export_queued = "queued"

abbrev pub export_running : String
export_running = "running"

abbrev pub export_succeeded : String
export_succeeded = "succeeded"

abbrev pub export_failed : String
export_failed = "failed"

pub record ExportJob : Type 0 where
  pub id : Uuid
  pub organization_id : Uuid
  pub requested_by : Uuid
  pub status : String
  pub from_ts : Time
  pub to_ts : Time
  pub device_ids : List String
  pub object_key : String
  pub error_message : String
  pub created_at : Time
  pub updated_at : Time

-- User.IsActive.
unfoldable pub is_active : User → Bool
is_active u = str_eq u.status status_active

-- ValidAuthRole.
unfoldable pub valid_auth_role : String → Bool
valid_auth_role role =
    str_eq role role_org_admin || str_eq role role_org_user || str_eq role role_platform_admin
