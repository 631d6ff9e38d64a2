-- ===== src/Tests/Overview.antt =====
-- The overview of two organizations with a location of three devices.
use iot_backend.Base.{List, [], ◌∷◌, Option, none, some, map, ◌≡◌, refl}
use iot_backend.Models.{Uuid, Location, SubLocation, Device, Organization, status_active}
use iot_backend.Api.Overview.{Layout, organization_overview_list, OrganizationOverview}
use iot_backend.Api.Overview.Exact.{described, organization_overview_list-exact}
use iot_backend.Tests.{tables}

abbrev layout : Layout
layout = record { sort_locations = λ ls. ls; sort_subs = λ ss. ss; created = λ t. "" }

abbrev place : Location
place = record { id = 20; organization_id = 7; name = "roof"; created_at = 0 }

abbrev corner : SubLocation
corner = record { id = 30; organization_id = 7; location_id = 20; name = "east"; created_at = 0 }

abbrev at_place : Uuid → Uuid → Option Uuid → Device
at_place id org_id sub = record {
  id = id;
  organization_id = org_id;
  sub_location_id = sub;
  device_identifier = "t";
  name = "t";
  status = status_active;
  created_at = 0;
  location_id = none;
  location_name = none;
  sub_location_name = none;
}

abbrev devices : List Device
devices =
    at_place 1 7 (some 30) ∷ at_place 2 7 (some 30) ∷ at_place 3 7 none ∷ at_place 4 8 none ∷ []

abbrev overview : List Organization → List OrganizationOverview
overview orgs =
    organization_overview_list layout orgs tables.users (place ∷ []) (corner ∷ []) devices

overview_tests :
    map (λ (o : OrganizationOverview). o.device_count) (overview tables.organizations) ≡ 3 ∷ 1 ∷ []
unfolding organization_overview_list
overview_tests = refl

organization_overview_list-exact_example :
    overview tables.organizations
    ≡ map (described layout tables.users (place ∷ []) (corner ∷ []) devices) tables.organizations
organization_overview_list-exact_example =
    organization_overview_list-exact layout tables.users (place ∷ []) (corner ∷ []) devices
      tables.organizations
