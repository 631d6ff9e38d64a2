-- ===== src/Api/Locations.antt =====
-- The handlers of locations and sub-locations of internal/api/handlers.go, without the rendering
-- of their replies. The body of a create request is its name, "" where that is missing.
use iot_backend.Base.{String, List, Option}
use iot_backend.Models.{Location, SubLocation}
use iot_backend.Auth.{Platform, Principal}
use iot_backend.Repository.{Env, Db}
use iot_backend.Repository.Locations.{
  list_locations, create_location, get_location, list_sub_locations, create_sub_location,
}
use iot_backend.Api.{
  Reply, json, Handler, give, require, ◌>>=◌, ◌>>◌, sql, internal, bad_request, write_not_found,
}
use iot_backend.Api.Checks.{checked}
use iot_backend.Api.Validate.{require_name}

module _ (sys : Platform) (env : Env) (p : Principal) where
  -- listLocations.
  unfoldable pub list_locations_handler : Handler Db (List Location) (Reply (List Location))
  unfolding list_locations
  list_locations_handler = do
    locs ← sql (list_locations env p.organization_id) (internal "failed to list locations")
    give (json 200 locs)

  -- createLocation.
  unfoldable pub create_location_handler : Option String → Handler Db Location (Reply Location)
  unfolding require_name create_location
  create_location_handler request = do
    body ← require request (bad_request "invalid json")
    name ← checked (require_name body)
    loc ← sql (create_location env p.organization_id name) (internal "failed to create location")
    give (json 201 loc)

  -- listSubLocations.
  unfoldable pub list_sub_locations_handler :
      String → Handler Db (List SubLocation) (Reply (List SubLocation))
  unfolding get_location list_sub_locations write_not_found
  list_sub_locations_handler url_id = do
    id ← require (sys.parse_uuid url_id) (bad_request "invalid location id")
    sql (get_location env p.organization_id id) write_not_found
    subs ←
        sql (list_sub_locations env p.organization_id id) (internal "failed to list sub-locations")
    give (json 200 subs)

  -- createSubLocation.
  unfoldable pub create_sub_location_handler :
      String → Option String → Handler Db SubLocation (Reply SubLocation)
  unfolding get_location require_name create_sub_location write_not_found
  create_sub_location_handler url_id request = do
    id ← require (sys.parse_uuid url_id) (bad_request "invalid location id")
    sql (get_location env p.organization_id id) write_not_found
    body ← require request (bad_request "invalid json")
    name ← checked (require_name body)
    sub ←
        sql (create_sub_location env p.organization_id id name)
          (internal "failed to create sub-location")
    give (json 201 sub)
