-- ===== src/Api/Overview/Exact.antt =====
-- The overview of internal/api/internal.go counts what the tables hold.
use mathlib.Core.List.{append-nil, append_assoc}
use iot_backend.Base.{
  ℕ, ◌+◌, Bool, true, false, List, [], ◌∷◌, ◌++◌, Option, none, some, ◌&&◌, ◌==◌, if◌then◌else◌,
  length, map, filter, count, ◌≡◌, refl, sym, ap, ◌∙◌, arith, Bool-cases, inl, inr,
}
use iot_backend.Models.{Uuid, Organization, User, Location, SubLocation, Device}
use iot_backend.Api.Overview.{
  SubOverview, LocationOverview, OrganizationOverview, Layout, Counts, no_counts, bump, count_sub,
  group, count_devices, user_overview, sub_overview, add_children, location_overview,
  organization_overview, organization_overview_list,
}

abbrev is_in : Option Uuid → Uuid → Bool
is_in none s = false
is_in (some r) s = r == s

abbrev is_none : Option Uuid → Bool
is_none none = true
is_none (some r) = false

-- The devices of a sub-location, of an organization, and of an organization without a sub-location.
abbrev pub in_sub_location : Uuid → Device → Bool
in_sub_location s d = is_in d.sub_location_id s

abbrev pub in_organization : Uuid → Device → Bool
in_organization o d = d.organization_id == o

abbrev pub is_unassigned : Uuid → Device → Bool
is_unassigned o d = is_none d.sub_location_id && d.organization_id == o

module _ {A : Type 0} (key : A → Uuid) where
  group-filter :
      (xs : List A) (m : Uuid → List A) (k : Uuid)
      → group key xs m k ≡ m k ++ filter (λ x. key x == k) xs
  unfolding group
  group-filter [] m k = sym (append-nil (m k))
  group-filter (x ∷ xs) m k = elim (Bool-cases (key x == k)) [
    | inl here ↦
        rw (here, group-filter xs (λ k. if key x == k then m k ++ x ∷ [] else m k) k, here)
          (append_assoc (m k) (x ∷ []) (filter (λ x. key x == k) xs))
    | inr there ↦
        rw (there, group-filter xs (λ k. if key x == k then m k ++ x ∷ [] else m k) k, there) refl
  ]

-- What the loop over the devices adds to the counts.
record IsCounted (ds : List Device) (c c' : Counts) (k : Uuid) : Type 0 where
  in_sub : c'.in_sub k ≡ c.in_sub k + count (in_sub_location k) ds
  unassigned : c'.unassigned k ≡ c.unassigned k + count (is_unassigned k) ds
  in_org : c'.in_org k ≡ c.in_org k + count (in_organization k) ds

-- One device is counted.
abbrev counted : Device → Counts → Counts
counted d c =
    count_sub d.sub_location_id d.organization_id
      (record c { in_org = bump d.organization_id c.in_org })

counted-IsCounted : (d : Device) (c : Counts) (k : Uuid) → IsCounted (d ∷ []) c (counted d c) k
counted-IsCounted d c k = at_place d.sub_location_id refl
  where
    at_place :
        (o : Option Uuid)
        → d.sub_location_id ≡ o
        → IsCounted
            (d ∷ [])
            c
            (count_sub o d.organization_id (record c { in_org = bump d.organization_id c.in_org }))
            k
    at_place none e =
        rw e (record { in_sub = omega arith; unassigned = ground arith; in_org = ground arith })
    at_place (some s) e =
        rw e (record { in_sub = ground arith; unassigned = omega arith; in_org = ground arith })

count_devices-IsCounted :
    (ds : List Device) (c : Counts) (k : Uuid) → IsCounted ds c (count_devices ds c) k
unfolding count_devices
count_devices-IsCounted [] c k = record {
  in_sub = omega arith;
  unassigned = omega arith;
  in_org = omega arith;
}
count_devices-IsCounted (d ∷ ds) c k =
    let h = counted-IsCounted d c k in
    let rest = count_devices-IsCounted ds (counted d c) k in
    let h1 = h.in_sub in
    let h2 = h.unassigned in
    let h3 = h.in_org in
    let r1 = rest.in_sub in
    let r2 = rest.unassigned in
    let r3 = rest.in_org in
    record {
      in_sub = r1 ∙ ground (arith, h1);
      unassigned = r2 ∙ ground (arith, h2);
      in_org = r3 ∙ ground (arith, h3);
    }

-- How many devices the sub-locations have.
abbrev pub total : List Device → List SubLocation → ℕ
total ds [] = 0
total ds (s ∷ ss) = count (in_sub_location s.id) ds + total ds ss

-- The overview as it is meant: every number counts rows of the tables.
abbrev pub sub_described : List Device → SubLocation → SubOverview
sub_described ds s = record {
  id = s.id;
  name = s.name;
  device_count = count (in_sub_location s.id) ds;
}

abbrev with_count : SubLocation → ℕ → SubOverview
with_count s n = record { id = s.id; name = s.name; device_count = n }

abbrev with_children : Location → ℕ × List SubOverview → LocationOverview
with_children loc (n, ss) = record {
  id = loc.id;
  name = loc.name;
  device_count = n;
  sub_locations = ss;
}

abbrev with_locations : OrganizationOverview → List LocationOverview → OrganizationOverview
with_locations o ls = record o { locations = ls }

map-same : {A B : Type 0} (f g : A → B) (xs : List A) → ((x : A) → f x ≡ g x) → map f xs ≡ map g xs
map-same f g [] same = refl
map-same f g (x ∷ xs) same = rw (same x, map-same f g xs same) refl

both :
    {n m : ℕ} {xs ys : List SubOverview}
    → n ≡ m
    → xs ≡ ys
    → ◌≡◌ {A = ℕ × List SubOverview} (n, xs) (m, ys)
both e f = rw (e, f) refl

module _ (layout : Layout) (users : List User) (locs : List Location) (subs : List SubLocation)
    (ds : List Device) where
  abbrev pub children : Location → List SubLocation
  children loc = layout.sort_subs (filter (λ (s : SubLocation). s.location_id == loc.id) subs)

  abbrev pub location_described : Location → LocationOverview
  location_described loc = record {
    id = loc.id;
    name = loc.name;
    device_count = total ds (children loc);
    sub_locations = map (sub_described ds) (children loc);
  }

  abbrev pub described : Organization → OrganizationOverview
  described o = record {
    id = o.id;
    name = o.name;
    status = o.status;
    user_limit = o.user_limit;
    created_at = layout.created o.created_at;
    user_count = length (filter (λ (u : User). u.organization_id == o.id) users);
    device_count = count (in_organization o.id) ds;
    unassigned_device_count = count (is_unassigned o.id) ds;
    users = map user_overview (filter (λ (u : User). u.organization_id == o.id) users);
    locations =
        map location_described
          (layout.sort_locations (filter (λ (l : Location). l.organization_id == o.id) locs));
  }

  abbrev c : Counts
  c = count_devices ds no_counts

  abbrev subs_by_loc : Uuid → List SubLocation
  subs_by_loc = group (λ (s : SubLocation). s.location_id) subs (λ k. [])

  in_sub-count : (s : SubLocation) → c.in_sub s.id ≡ count (in_sub_location s.id) ds
  in_sub-count s =
      let h = count_devices-IsCounted ds no_counts s.id in let e = h.in_sub in e ∙ omega arith

  sub-described : (s : SubLocation) → sub_overview c s ≡ sub_described ds s
  sub-described s = ap (with_count s) (in_sub-count s)

  add_children-total :
      (ss : List SubLocation) (n : ℕ) (made : List SubOverview)
      → add_children c ss n made ≡ (n + total ds ss, made ++ map (sub_described ds) ss)
  unfolding add_children
  add_children-total [] n made = both (omega arith) (sym (append-nil made))
  add_children-total (s ∷ ss) n made =
      let e = in_sub-count s in
      add_children-total ss (n + c.in_sub s.id) (made ++ sub_overview c s ∷ [])
      ∙ both (omega (arith, e)) (
          append_assoc made (sub_overview c s ∷ []) (map (sub_described ds) ss)
          ∙ ap (λ o. made ++ o ∷ map (sub_described ds) ss) (sub-described s))

  location-described :
      (loc : Location) → location_overview layout c subs_by_loc loc ≡ location_described loc
  unfolding location_overview
  location-described loc =
      let grouped : subs_by_loc loc.id
          ≡ filter (λ (s : SubLocation). s.location_id == loc.id) subs =
        group-filter (λ (s : SubLocation). s.location_id) subs (λ k. []) loc.id in
      let sorted = ap layout.sort_subs grouped in
      ap (with_children loc) (
        ap (λ ss. add_children c ss 0 []) sorted
        ∙ add_children-total (children loc) 0 []
        ∙ both (omega arith) refl)

  organization-described :
      (o : Organization)
      → organization_overview layout c
          (group (λ (u : User). u.organization_id) users (λ k. []))
          (group (λ (l : Location). l.organization_id) locs (λ k. []))
          subs_by_loc
          o
        ≡ described o
  organization-described o =
      let h = count_devices-IsCounted ds no_counts o.id in
      let us = group-filter (λ (u : User). u.organization_id) users (λ k. []) o.id in
      let ls = group-filter (λ (l : Location). l.organization_id) locs (λ k. []) o.id in
      let e = h.in_org in
      let f = h.unassigned in
      let in_org : c.in_org o.id ≡ count (in_organization o.id) ds = e ∙ omega arith in
      let free : c.unassigned o.id ≡ count (is_unassigned o.id) ds = f ∙ omega arith in
      rw (in_org, free, us, ls)
        (ap (with_locations (described o)) (
          map-same (location_overview layout c subs_by_loc) location_described
            (layout.sort_locations (filter (λ (l : Location). l.organization_id == o.id) locs))
            location-described))

  -- organizationOverviewList gives one entry for each organization, in order: its users, as many as it
  -- counts, are the rows of that organization in order; its locations are the rows of that organization,
  -- sorted, each with its sub-locations, sorted; and each number of devices is that of the rows of the
  -- organization, of the organization without a sub-location, or of the sub-location, where a location
  -- has the sum over its sub-locations.
  pub organization_overview_list-exact :
      (orgs : List Organization)
      → organization_overview_list layout orgs users locs subs ds ≡ map described orgs
  unfolding organization_overview_list
  organization_overview_list-exact orgs =
      map-same
        (organization_overview layout c (group (λ (u : User). u.organization_id) users (λ k. []))
          (group (λ (l : Location). l.organization_id) locs (λ k. [])) subs_by_loc)
        described orgs organization-described
