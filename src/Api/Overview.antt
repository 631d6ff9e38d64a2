-- ===== src/Api/Overview.antt =====
-- internal/api/internal.go: the overview of all organizations for platform admins. A Go map from
-- identifiers, with its zero value for a missing key, is a function. sort.Slice by name leaves open how
-- equal names are ordered, and is a parameter, as is the text of an instant.
pub mod Exact
use iot_backend.Base.{
  ℕ, ◌+◌, String, List, [], ◌∷◌, ◌++◌, Option, none, some, ◌==◌, if◌then◌else◌, length, map,
}
use iot_backend.Models.{Uuid, Time, Organization, User, Location, SubLocation, Device}
use iot_backend.Repository.{Env, Db}
use iot_backend.Repository.Users.{list_organizations, list_all_users}
use iot_backend.Repository.Locations.{list_all_locations, list_all_sub_locations}
use iot_backend.Repository.Devices.{list_all_devices}
use iot_backend.Api.{Reply, json, Handler, give, ◌>>=◌, sql, internal}

pub record UserOverview : Type 0 where
  pub id : Uuid
  pub email : String
  pub role : String
  pub status : String

pub record SubOverview : Type 0 where
  pub id : Uuid
  pub name : String
  pub device_count : ℕ

pub record LocationOverview : Type 0 where
  pub id : Uuid
  pub name : String
  pub device_count : ℕ
  pub sub_locations : List SubOverview

pub record OrganizationOverview : Type 0 where
  pub id : Uuid
  pub name : String
  pub status : String
  pub user_limit : ℕ
  pub created_at : String
  pub user_count : ℕ
  pub device_count : ℕ
  pub unassigned_device_count : ℕ
  pub users : List UserOverview
  pub locations : List LocationOverview

-- What the overview calls: sort.Slice by name, and the text of the instant of creation.
pub record Layout : Type 0 where
  pub sort_locations : List Location → List Location
  pub sort_subs : List SubLocation → List SubLocation
  pub created : Time → String

module _ {A : Type 0} where
  -- The loop of `m[key(x)] = append(m[key(x)], x)`.
  unfoldable pub group : (A → Uuid) → List A → (Uuid → List A) → Uuid → List A
  group key [] m = m
  group key (x ∷ xs) m = group key xs (λ k. if key x == k then m k ++ x ∷ [] else m k)

-- `m[i]++`.
abbrev pub bump : Uuid → (Uuid → ℕ) → Uuid → ℕ
bump i m k = if i == k then m k + 1 else m k

-- The maps subDeviceCount, unassigned and orgDeviceCount.
pub record Counts : Type 0 where
  pub in_sub : Uuid → ℕ
  pub unassigned : Uuid → ℕ
  pub in_org : Uuid → ℕ

abbrev pub no_counts : Counts
no_counts = record { in_sub = λ k. 0; unassigned = λ k. 0; in_org = λ k. 0 }

abbrev pub count_sub : Option Uuid → Uuid → Counts → Counts
count_sub none org_id c = record c { unassigned = bump org_id c.unassigned }
count_sub (some s) org_id c = record c { in_sub = bump s c.in_sub }

-- The loop over the devices.
unfoldable pub count_devices : List Device → Counts → Counts
count_devices [] c = c
count_devices (d ∷ ds) c = count_devices ds (
    count_sub d.sub_location_id d.organization_id
      (record c { in_org = bump d.organization_id c.in_org }))

abbrev pub user_overview : User → UserOverview
user_overview u = record { id = u.id; email = u.email; role = u.role; status = u.status }

abbrev pub sub_overview : Counts → SubLocation → SubOverview
sub_overview c s = record { id = s.id; name = s.name; device_count = c.in_sub s.id }

-- The loop over the children of a location: `locCount` and `subJSON`.
unfoldable pub add_children :
    Counts → List SubLocation → ℕ → List SubOverview → ℕ × List SubOverview
add_children c [] n out = (n, out)
add_children c (s ∷ ss) n out = add_children c ss (n + c.in_sub s.id) (out ++ sub_overview c s ∷ [])

module _ (layout : Layout) where
  unfoldable pub location_overview :
      Counts → (Uuid → List SubLocation) → Location → LocationOverview
  unfolding add_children
  location_overview c subs_by_loc loc =
      let (n, children) = add_children c (layout.sort_subs (subs_by_loc loc.id)) 0 [] in
      record { id = loc.id; name = loc.name; device_count = n; sub_locations = children }

  -- The entry of an organization.
  abbrev pub organization_overview :
      Counts
      → (Uuid → List User)
      → (Uuid → List Location)
      → (Uuid → List SubLocation)
      → Organization
      → OrganizationOverview
  organization_overview c users_by_org locs_by_org subs_by_loc o = record {
    id = o.id;
    name = o.name;
    status = o.status;
    user_limit = o.user_limit;
    created_at = layout.created o.created_at;
    user_count = length (users_by_org o.id);
    device_count = c.in_org o.id;
    unassigned_device_count = c.unassigned o.id;
    users = map user_overview (users_by_org o.id);
    locations = map (location_overview c subs_by_loc) (layout.sort_locations (locs_by_org o.id));
  }

  -- organizationOverviewList.
  unfoldable pub organization_overview_list :
      List Organization
      → List User
      → List Location
      → List SubLocation
      → List Device
      → List OrganizationOverview
  unfolding group count_devices location_overview
  organization_overview_list orgs users locs subs devices =
      let users_by_org = group (λ (u : User). u.organization_id) users (λ k. []) in
      let locs_by_org = group (λ (l : Location). l.organization_id) locs (λ k. []) in
      let subs_by_loc = group (λ (s : SubLocation). s.location_id) subs (λ k. []) in
      let c = count_devices devices no_counts in
      map (organization_overview c users_by_org locs_by_org subs_by_loc) orgs

  -- listInternalOrganizations, behind requirePlatformAdmin.
  unfoldable pub list_internal_organizations :
      Env → Handler Db (List OrganizationOverview) (Reply (List OrganizationOverview))
  unfolding organization_overview_list list_organizations list_all_users list_all_locations
      list_all_sub_locations list_all_devices
  list_internal_organizations env = do
    orgs ← sql (list_organizations env) (internal "failed to list organizations")
    users ← sql (list_all_users env) (internal "failed to list users")
    locs ← sql (list_all_locations env) (internal "failed to list locations")
    subs ← sql (list_all_sub_locations env) (internal "failed to list sub-locations")
    devices ← sql (list_all_devices env) (internal "failed to list devices")
    give (json 200 (organization_overview_list orgs users locs subs devices))
