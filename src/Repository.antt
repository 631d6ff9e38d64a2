-- ===== src/Repository.antt =====
-- internal/repository/postgres.go and the tables of migrations/: what a statement does to the
-- database. One statement is one step. Whether it fails, the identifiers that the database draws
-- and its clock come from an `Env`, indexed by the number of the statement; a statement that
-- fails changes nothing.
pub mod Users
pub mod Laws
pub mod Locations
pub mod Devices
pub mod Jobs
use iot_backend.Base.{
  ℕ, ◌+◌, String, Bool, true, false, List, [], ◌∷◌, Option, none, some, if◌then◌else◌, map,
}
use iot_backend.Models.{Uuid, Time, Organization, User, Location, SubLocation, ExportJob}

-- ErrNotFound, ErrConflict, and every other error.
pub data Error : Type 0 where
  not_found conflict failed : Error

pub data Result {ℓ} (A : Type ℓ) : Type ℓ where
  ok : A → Result A
  err : Error → Result A

-- What the database server decides: which statements fail, gen_random_uuid(), now(), lower() and
-- the collation of the texts.
pub record Env : Type 0 where
  pub fails : ℕ → Bool
  pub fresh : ℕ → Uuid
  pub now : ℕ → Time
  pub lower : String → String
  pub text_le : String → String → Bool

-- A row of the table `devices`, before the joins.
pub record DeviceRow : Type 0 where
  pub id : Uuid
  pub organization_id : Uuid
  pub sub_location_id : Option Uuid
  pub device_identifier : String
  pub name : String
  pub status : String
  pub created_at : Time

pub record Tables : Type 0 where
  pub organizations : List Organization
  pub users : List User
  pub locations : List Location
  pub sub_locations : List SubLocation
  pub devices : List DeviceRow
  pub export_jobs : List ExportJob

-- The tables, and the number of statements run so far.
pub record Db : Type 0 where
  pub tables : Tables
  pub statements : ℕ

abbrev pub Sql {ℓ} : Type ℓ → Type ℓ
Sql A = Db → Result A × Db

module _ {ℓ} {A : Type ℓ} where
  abbrev pub pure : A → Sql A
  pure a db = (ok a, db)

  abbrev pub throw : Error → Sql A
  throw e db = (err e, db)

module _ {ℓ κ} {A : Type ℓ} {B : Type κ} where
  -- What follows a statement: it is skipped after an error.
  abbrev pub after : Result A → (A → Sql B) → Sql B
  after (ok a) k db = k a db
  after (err e) k db = (err e, db)

  infixl 5 ◌>>=◌ ◌>>◌
  abbrev pub ◌>>=◌ : Sql A → (A → Sql B) → Sql B
  ◌>>=◌ m k db = let (r, db') = m db in after r k db'

  abbrev pub ◌>>◌ : Sql A → Sql B → Sql B
  m >> k = m >>= λ _. k

abbrev pub next : Db → Db
next db = record db { statements = db.statements + 1 }

module _ {ℓ} {A : Type ℓ} where
  abbrev pub finish : ℕ → Result A × Tables → Result A × Db
  finish n (r, t) = (r, record { tables = t; statements = n + 1 })

  -- A statement that reads.
  unfoldable pub query : Env → (Tables → Result A) → Sql A
  query env f db = (if env.fails db.statements then err failed else f db.tables, next db)

  -- A statement that writes; it is given its own number.
  unfoldable pub exec : Env → (ℕ → Tables → Result A × Tables) → Sql A
  exec env f db =
      if env.fails db.statements
      then (err failed, next db)
      else finish db.statements (f db.statements db.tables)

  -- The row that a query for one row finds.
  abbrev pub one_row : Option A → Result A
  one_row none = err not_found
  one_row (some a) = ok a

  -- The rows that a condition selects, changed.
  abbrev pub update_where : (A → Bool) → (A → A) → List A → List A
  update_where p f xs = map (λ x. if p x then f x else x) xs

  -- ORDER BY, as a stable insertion sort.
  abbrev pub place : (A → A → Bool) → A → List A → List A
  place le x [] = x ∷ []
  place le x (y ∷ ys) = if le x y then x ∷ y ∷ ys else y ∷ place le x ys

  abbrev pub order_by : (A → A → Bool) → List A → List A
  order_by le [] = []
  order_by le (x ∷ xs) = place le x (order_by le xs)
