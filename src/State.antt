-- ===== src/State.antt =====
-- internal/state/store.go: the latest reading of each device. The Go map is an association list
-- with one entry for a key; the mutex makes each operation one step.
pub mod Laws
use iot_backend.Base.{ℕ, Option, none, some, List, [], ◌∷◌, ◌==◌, if◌then◌else◌, length}
use iot_backend.Models.{Uuid, Reading}

pub record Store : Type 0 where
  pub m : List (Uuid × Reading)

-- New.
abbrev pub new : Store
new = record { m = [] }

-- `m[k]`.
unfoldable pub lookup : Uuid → List (Uuid × Reading) → Option Reading
lookup k [] = none
lookup k ((j, r) ∷ m) = if j == k then some r else lookup k m

-- `m[k] = r`.
unfoldable pub insert : Uuid → Reading → List (Uuid × Reading) → List (Uuid × Reading)
insert k r [] = (k, r) ∷ []
insert k r ((j, q) ∷ m) = if j == k then (k, r) ∷ m else (j, q) ∷ insert k r m

-- `delete(m, k)`.
unfoldable pub remove : Uuid → List (Uuid × Reading) → List (Uuid × Reading)
remove k [] = []
remove k ((j, q) ∷ m) = if j == k then remove k m else (j, q) ∷ remove k m

-- Store.Set.
unfoldable pub set : Reading → Store → Store
unfolding insert
set r s = record { m = insert r.device_id r s.m }

-- Store.Get.
unfoldable pub get : Uuid → Store → Option Reading
unfolding lookup
get id s = lookup id s.m

-- Store.Delete.
unfoldable pub delete : Uuid → Store → Store
unfolding remove
delete id s = record { m = remove id s.m }

-- One round of the loop of Snapshot.
abbrev pub push_found : Option Reading → List Reading → List Reading
push_found none out = out
push_found (some r) out = r ∷ out

-- Store.Snapshot.
unfoldable pub snapshot : List Uuid → Store → List Reading
unfolding get
snapshot [] s = []
snapshot (id ∷ ids) s = push_found (get id s) (snapshot ids s)

-- Store.Len.
unfoldable pub len : Store → ℕ
len s = length s.m
