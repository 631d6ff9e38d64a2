-- ===== src/Repository/Locations.antt =====
-- The locations and sub-locations of internal/repository/postgres.go.
use iot_backend.Base.{
  String, Bool, List, [], ◌∷◌, ◌++◌, ◌&&◌, ◌==◌, if◌then◌else◌, filter, find?, any,
}
use iot_backend.Models.{Uuid, Location, SubLocation}
use iot_backend.Repository.{ok, err, failed, Env, Sql, query, exec, one_row, order_by}

-- `id=$1 AND organization_id=$2`.
abbrev pub is_location : Uuid → Uuid → Location → Bool
is_location org_id id l = l.id == id && l.organization_id == org_id

abbrev pub is_sub_location : Uuid → Uuid → SubLocation → Bool
is_sub_location org_id id s = s.id == id && s.organization_id == org_id

module _ (env : Env) where
  abbrev by_name : Location → Location → Bool
  by_name a b = env.text_le a.name b.name

  abbrev by_sub_name : SubLocation → SubLocation → Bool
  by_sub_name a b = env.text_le a.name b.name

  unfoldable pub list_locations : Uuid → Sql (List Location)
  unfolding query
  list_locations org_id =
      query env λ t. ok (order_by by_name (filter (λ l. l.organization_id == org_id) t.locations))

  unfoldable pub list_all_locations : Sql (List Location)
  unfolding query
  list_all_locations = query env λ t. ok (order_by by_name t.locations)

  -- The row goes in unless its identifier is taken or its organization is missing; the code has no
  -- case for a unique violation here.
  unfoldable pub create_location : Uuid → String → Sql Location
  unfolding exec
  create_location org_id name = exec env λ n t.
      let l : Location = record {
        id = env.fresh n;
        organization_id = org_id;
        name = name;
        created_at = env.now n;
      } in
      if any (λ k. k.id == l.id) t.locations
      then (err failed, t)
      else if any (λ o. o.id == org_id) t.organizations
      then (ok l, record t { locations = t.locations ++ l ∷ [] })
      else (err failed, t)

  unfoldable pub get_location : Uuid → Uuid → Sql Location
  unfolding query
  get_location org_id id = query env λ t. one_row (find? (is_location org_id id) t.locations)

  unfoldable pub list_sub_locations : Uuid → Uuid → Sql (List SubLocation)
  unfolding query
  list_sub_locations org_id location_id = query env λ t. ok (
      order_by by_sub_name
        (filter (λ s. s.organization_id == org_id && s.location_id == location_id) t.sub_locations))

  unfoldable pub list_all_sub_locations : Sql (List SubLocation)
  unfolding query
  list_all_sub_locations = query env λ t. ok (order_by by_sub_name t.sub_locations)

  unfoldable pub create_sub_location : Uuid → Uuid → String → Sql SubLocation
  unfolding exec
  create_sub_location org_id location_id name = exec env λ n t.
      let s : SubLocation = record {
        id = env.fresh n;
        organization_id = org_id;
        location_id = location_id;
        name = name;
        created_at = env.now n;
      } in
      if any (λ k. k.id == s.id) t.sub_locations
      then (err failed, t)
      else if any (λ o. o.id == org_id) t.organizations
          && any (λ l. l.id == location_id) t.locations
      then (ok s, record t { sub_locations = t.sub_locations ++ s ∷ [] })
      else (err failed, t)

  unfoldable pub get_sub_location : Uuid → Uuid → Sql SubLocation
  unfolding query
  get_sub_location org_id id =
      query env λ t. one_row (find? (is_sub_location org_id id) t.sub_locations)
