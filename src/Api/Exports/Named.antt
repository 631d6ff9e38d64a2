-- ===== src/Api/Exports/Named.antt =====
-- The devices that createExport of internal/api/exports.go lets a job name.
use iot_backend.Base.{
  String, Bool, true, false, List, [], ◌∷◌, ◌++◌, Option, none, some, ◌&&◌, ◌==◌, str_eq, eq_iff,
  if◌then◌else◌, any, find?, All, All-append, ◌≡◌, refl, sym, ap, ◌∙◌, arith, Bool-cases, inl, inr,
  subst,
}
use mathlib.Core.Option
use iot_backend.Models.{Uuid}
use iot_backend.Auth.{Platform, Principal}
use iot_backend.Telemetry.{Formats}
use iot_backend.Repository.{Env, Tables, Db, DeviceRow, one_row}
use iot_backend.Repository.Devices.{join, get_device_by_identifier}
use iot_backend.Api.{go, give}
use iot_backend.Api.Rules.{>>=-eq-go}
use iot_backend.Api.Users.Steps.{demand-go, demand-state, checked-state}
use iot_backend.Api.Checks.{checked}
use iot_backend.Api.Validate.{require_identifier}
use iot_backend.Api.Exports.{Settings, ExportBody, is_own, find_own, own_identifiers}

-- The identifier is that of a device of the organization.
abbrev pub is_named : Uuid → String → DeviceRow → Bool
is_named org_id identifier d = str_eq d.device_identifier identifier && d.organization_id == org_id

any-find? :
    (org_id : Uuid) (identifier : String) (row : DeviceRow) (ds : List DeviceRow)
    → find? (λ (d : DeviceRow). str_eq d.device_identifier identifier) ds ≡ some row
    → (row.organization_id == org_id) ≡ true
    → any (is_named org_id identifier) ds ≡ true
any-find? org_id identifier row [] found own = cc
any-find? org_id identifier row (d ∷ ds) found own =
    ground (arith, any-find? org_id identifier row ds)

-- No text stands twice in a list.
abbrev pub IsDistinct : List String → Type 0
IsDistinct [] = Unit
IsDistinct (s ∷ ss) = (any (str_eq s) ss ≡ false) × IsDistinct ss

any_last :
    (s i : String) (ss : List String)
    → any (str_eq s) ss ≡ false
    → str_eq s i ≡ false
    → any (str_eq s) (ss ++ i ∷ []) ≡ false
any_last s i [] new other = rw other
any_last s i (r ∷ ss) new other = ground (arith, any_last s i ss)

differ : (s i : String) → str_eq i s ≡ false → str_eq s i ≡ false
differ s i other = elim (Bool-cases (str_eq s i)) [
  | inl same ↦ cc ((eq_iff i s).1 (sym ((eq_iff s i).0 same)), other)
  | inr apart ↦ apart
]

IsDistinct-append :
    (i : String) (ss : List String)
    → any (str_eq i) ss ≡ false
    → IsDistinct ss
    → IsDistinct (ss ++ i ∷ [])
IsDistinct-append i [] new d = (refl, tt)
IsDistinct-append i (s ∷ ss) new (d, ds) =
    let other : str_eq i s ≡ false = ground (arith, new) in
    let later : any (str_eq i) ss ≡ false = ground (arith, new) in
    (any_last s i ss d (differ s i other), IsDistinct-append i ss later ds)

module _ (sys : Platform) (env : Env) (fmt : Formats) (cfg : Settings) (p : Principal) where
  own_row :
      (t : Tables) (identifier : String) (o : Option DeviceRow)
      → find? (λ (d : DeviceRow). str_eq d.device_identifier identifier) t.devices ≡ o
      → is_own sys env fmt cfg p (one_row (Option.map (join t) o)) ≡ true
      → any (is_named p.organization_id identifier) t.devices ≡ true
  unfolding join
  own_row t identifier none found own = cc
  own_row t identifier (some row) found own =
      any-find? p.organization_id identifier row t.devices found own

  find_own-tables :
      (identifier : String) (db : Db)
      → (find_own sys env fmt cfg p identifier db).1.tables ≡ db.tables
  unfolding find_own get_device_by_identifier
  find_own-tables identifier db = ap (λ (d : Db). d.tables) (demand-state _ _ _)

  find_own-go :
      (identifier : String) (db : Db) (u : Unit {0})
      → (find_own sys env fmt cfg p identifier db).0 ≡ go u
      → any (is_named p.organization_id identifier) db.tables.devices ≡ true
  unfolding find_own get_device_by_identifier
  find_own-go identifier db u e = elim (Bool-cases (env.fails db.statements)) [
    | inl down ↦ cc (rw down at e)
    | inr up ↦ own_row db.tables identifier _ refl (demand-go _ _ _ u (rw up at e))
  ]

  -- The identifiers that the loop has kept are of devices of the organization, each once.
  abbrev pub Kept : Tables → List String → Type 0
  Kept t ids = All (λ i. any (is_named p.organization_id i) t.devices ≡ true) ids × IsDistinct ids

  -- One round of the loop, once its identifier is read.
  grown-Kept :
      (again : Bool) (identifier : String) (kept : List String) (t : Tables) (db : Db)
      (u : Unit {0})
      → db.tables ≡ t
      → any (str_eq identifier) kept ≡ again
      → Kept t kept
      → ((if again then give tt else find_own sys env fmt cfg p identifier) db).0 ≡ go u
      → (((if again then give tt else find_own sys env fmt cfg p identifier) db).1.tables ≡ t)
        × Kept t (if again then kept else kept ++ identifier ∷ [])
  grown-Kept true identifier kept t db u same seen k e = (same, k)
  grown-Kept false identifier kept t db u same new (own, distinct) e = (
    find_own-tables identifier db ∙ same,
    (
      All-append _ kept (identifier ∷ []) own (rw same at (find_own-go identifier db u e), tt),
      IsDistinct-append identifier kept new distinct,
    ),
  )

  pub own_identifiers-Kept :
      (raws kept : List String) (t : Tables) (db : Db) (ids : List String)
      → db.tables ≡ t
      → Kept t kept
      → (own_identifiers sys env fmt cfg p kept raws db).0 ≡ go ids
      → Kept t ids
  unfolding own_identifiers
  own_identifiers-Kept [] kept t db ids same k e =
      let all : kept ≡ ids = cc e in subst (Kept t) all k
  own_identifiers-Kept (raw ∷ rest) kept t db ids same k e =
      let (identifier, e1, e2) = >>=-eq-go (checked (require_identifier raw)) _ db ids e in
      let again = any (str_eq identifier) kept in
      let db1 = (checked {A = ExportBody} (require_identifier raw) db).1 in
      let look = if again then give tt else find_own sys env fmt cfg p identifier in
      let (u, e3, e4) = >>=-eq-go look _ db1 ids e2 in
      let same1 : db1.tables ≡ t =
        ap (λ (d : Db). d.tables) (checked-state ExportBody db (require_identifier raw)) ∙ same in
      let (same2, k2) = grown-Kept again identifier kept t db1 u same1 refl k e3 in
      own_identifiers-Kept rest (if again then kept else kept ++ identifier ∷ []) t (look db1).1 ids
        same2 k2 e4
