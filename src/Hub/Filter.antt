-- ===== src/Hub/Filter.antt =====
-- The devices that a connection may see: the filter of setFilter and the snapshot of sendSnapshot
-- of internal/ws/hub.go hold devices of the connection's organization only.
use iot_backend.Base.{
  String, Bool, true, false, List, [], ◌∷◌, Option, none, some, ◌&&◌, ◌==◌, ◌≡◌, refl, ◌∙◌, ap,
  arith, if◌then◌else◌, any, map, filter, any-map, any-filter, ==_iff, if-keeps, Bool-cases,
  Option-cases, inl, inr,
}
use iot_backend.Models.{Uuid, Device}
use iot_backend.State
use iot_backend.State.{push_found}
use iot_backend.Auth.{Platform, Principal, Parsed}
use iot_backend.Repository.{Error, Result, ok, err, Env, Db, DeviceRow, order_by}
use iot_backend.Repository.Laws.{any-order_by}
use iot_backend.Repository.Devices.{join, by_name, list_devices}
use iot_backend.Hub.{filter_from, Client, World, allowed_ids, set_filter}

-- The identifier is that of a device of the organization.
abbrev pub is_own : Uuid → Uuid → DeviceRow → Bool
is_own org_id id d = d.id == id && d.organization_id == org_id

-- ListDevices, where it succeeds, lists exactly the organization's devices.
pub list_devices-exact :
    (env : Env) (org_id id : Uuid) (db : Db) (ds : List Device)
    → (list_devices env org_id db).0 ≡ ok ds
    → any (λ j. j == id) (map (λ d. d.id) ds) ≡ any (is_own org_id id) db.tables.devices
unfolding list_devices join
list_devices-exact env org_id id db ds e =
    let t = db.tables in
    let rows =
      order_by (by_name env) (filter (λ (d : DeviceRow). d.organization_id == org_id) t.devices) in
    let listed : ds ≡ map (join t) rows = ground arith in
    rw listed (
      any-map (λ (j : Uuid). j == id) (λ (d : Device). d.id) (map (join t) rows)
      ∙ any-map (λ (d : Device). d.id == id) (join t) rows
      ∙ any-order_by (by_name env) (λ d. d.id == id) _
      ∙ any-filter (λ (d : DeviceRow). d.id == id) (λ d. d.organization_id == org_id) t.devices)

-- One more spelling of an identifier, in one round of the loop.
one_more :
    (j id : Uuid) (allowed kept : List Uuid) (later : Bool)
    → any (λ k. k == id) kept ≡ (any (λ k. k == id) allowed && later)
    → any (λ k. k == id) (if any (λ k. k == j) allowed then j ∷ kept else kept)
      ≡ (any (λ k. k == id) allowed && (if j == id then true else later))
one_more j id allowed kept later h = elim (Bool-cases (j == id)) [
  | inl same ↦ rw ((==_iff j id).0 same) (ground arith)
  | inr other ↦ rw other (
      if-keeps (λ l. any (λ k. k == id) l ≡ (any (λ k. k == id) allowed && later))
        (any (λ k. k == j) allowed) (j ∷ kept) kept (λ _. rw other h) (λ _. h))
]

-- A statement that does not fail lists the devices.
unlisted :
    (env : Env) (org_id : Uuid) (db : Db) (e : Error)
    → env.fails db.statements ≡ false
    → (list_devices env org_id db).0 ≡ err e
    → ⊥
unfolding list_devices
unlisted env org_id db e works listed = cc (rw works at listed)

module _ (sys : Platform) (env : Env) (parse_token : String → Parsed Principal) where
  abbrev pub parses_to : Option Uuid → Uuid → Bool
  parses_to none id = false
  parses_to (some j) id = j == id

  -- The identifiers that setFilter keeps are those that some given text spells and that are
  -- allowed.
  any-allowed_ids :
      (allowed : List Uuid) (raws : List String) (id : Uuid)
      → any (λ j. j == id) (allowed_ids sys env parse_token allowed raws)
        ≡ (any (λ j. j == id) allowed && any (λ raw. parses_to (sys.parse_uuid raw) id) raws)
  unfolding allowed_ids
  any-allowed_ids allowed [] id = elim (Bool-cases (any (λ j. j == id) allowed)) [
    | inl here ↦ rw here
    | inr lost ↦ rw lost
  ]
  any-allowed_ids allowed (raw ∷ raws) id = elim (Option-cases (sys.parse_uuid raw)) [
    | inl bad ↦ rw bad (any-allowed_ids allowed raws id)
    | inr (j, spelled) ↦ rw spelled (
        one_more j id allowed (allowed_ids sys env parse_token allowed raws) _
          (any-allowed_ids allowed raws id))
  ]

  -- Where the organization's devices can be listed, a nonempty filter message leaves a filter that
  -- holds exactly the identifiers that the message spells and that are devices of the
  -- connection's organization; nothing else of the connection changes.
  pub set_filter-exact :
      (i : String) (is : List String) (c : Client) (w : World)
      → env.fails w.db.statements ≡ false
      → (kept : List Uuid) × ((set_filter sys env parse_token (i ∷ is) c w).0
          ≡ record c { filter = some kept })
        × ((id : Uuid)
            → any (λ j. j == id) kept ≡ (
                any (is_own c.org_id id) w.db.tables.devices
                && any (λ raw. parses_to (sys.parse_uuid raw) id) (i ∷ is)))
  unfolding set_filter
  set_filter-exact i is c w works = at_list (list_devices env c.org_id w.db).0 refl
    where
      at_list :
          (r : Result (List Device))
          → (list_devices env c.org_id w.db).0 ≡ r
          → (kept : List Uuid) × (filter_from sys env parse_token (i ∷ is) r c
              ≡ record c { filter = some kept })
            × ((id : Uuid)
                → any (λ j. j == id) kept ≡ (
                    any (is_own c.org_id id) w.db.tables.devices
                    && any (λ raw. parses_to (sys.parse_uuid raw) id) (i ∷ is)))
      at_list (err e) listed = absurd (unlisted env c.org_id w.db e works listed)
      at_list (ok ds) listed = (
        allowed_ids sys env parse_token (map (λ d. d.id) ds) (i ∷ is),
        refl,
        λ id.
            any-allowed_ids (map (λ d. d.id) ds) (i ∷ is) id
            ∙ ap (λ b. b && any (λ raw. parses_to (sys.parse_uuid raw) id) (i ∷ is))
                (list_devices-exact env c.org_id id w.db ds listed),
      )
