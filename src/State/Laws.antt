-- ===== src/State/Laws.antt =====
-- What the latest-reading store of internal/state/store.go promises.
use iot_backend.Base.{
  ◌+◌, ◌≡◌, refl, none, some, List, [], ◌∷◌, arith, ◌==◌, if◌then◌else◌, is_some, length, All, map,
  filter, Option-cases, subst, sym, inl, inr,
}
use iot_backend.Models.{Uuid, Reading}
use iot_backend.State.{Store, lookup, insert, remove, set, get, delete, snapshot, len}

lookup-insert :
    (k j : Uuid) (r : Reading) (m : List (Uuid × Reading))
    → lookup j (insert k r m) ≡ (if k == j then some r else lookup j m)
unfolding lookup insert
lookup-insert k j r [] = refl
lookup-insert k j r ((i, q) ∷ m) = ground (arith, lookup-insert k j r m)

lookup-remove :
    (k j : Uuid) (m : List (Uuid × Reading))
    → lookup j (remove k m) ≡ (if k == j then none else lookup j m)
unfolding lookup remove
lookup-remove k j [] = ground arith
lookup-remove k j ((i, q) ∷ m) = ground (arith, lookup-remove k j m)

-- After Set, Get of the reading's device returns that reading, and Get of any other device
-- returns what it did before.
pub get-set :
    (r : Reading) (id : Uuid) (s : Store)
    → get id (set r s) ≡ (if r.device_id == id then some r else get id s)
unfolding get set
get-set r id s = lookup-insert r.device_id id r s.m

-- After Delete, Get of that device finds nothing, and Get of any other device returns what it
-- did before.
pub get-delete :
    (k id : Uuid) (s : Store) → get id (delete k s) ≡ (if k == id then none else get id s)
unfolding get delete
get-delete k id s = lookup-remove k id s.m

-- After Set, Get of the reading's device returns that reading; after Delete, Get of that device finds
-- nothing; and after either, Get of any other device returns what it did before.
pub get-set-delete :
    (r : Reading) (k id : Uuid) (s : Store)
    → (get id (set r s) ≡ (if r.device_id == id then some r else get id s))
      × (get id (delete k s) ≡ (if k == id then none else get id s))
get-set-delete r k id s = (get-set r id s, get-delete k id s)

-- Every entry stands under the device of its reading, and no device has two entries.
abbrev pub IsKeyed : List (Uuid × Reading) → Type 0
IsKeyed [] = Unit
IsKeyed ((k, r) ∷ m) = (r.device_id ≡ k) × (lookup k m ≡ none) × IsKeyed m

IsKeyed-insert :
    (r : Reading) (m : List (Uuid × Reading)) → IsKeyed m → IsKeyed (insert r.device_id r m)
unfolding lookup insert
IsKeyed-insert r [] h = (refl, refl, tt)
IsKeyed-insert r ((j, q) ∷ m) h =
    ground (arith, IsKeyed-insert r m, lookup-insert r.device_id j r m)

remove_absent : (k : Uuid) (m : List (Uuid × Reading)) → lookup k m ≡ none → remove k m ≡ m
unfolding lookup remove
remove_absent k [] h = refl
remove_absent k ((j, q) ∷ m) h = ground (arith, remove_absent k m)

IsKeyed-remove : (k : Uuid) (m : List (Uuid × Reading)) → IsKeyed m → IsKeyed (remove k m)
unfolding lookup remove
IsKeyed-remove k [] h = tt
IsKeyed-remove k ((j, q) ∷ m) h = ground (arith, IsKeyed-remove k m, lookup-remove k j m)

-- Set and Delete keep the store keyed by the device of each reading, with one entry a device.
pub set-delete-IsKeyed :
    (r : Reading) (k : Uuid) (s : Store)
    → IsKeyed s.m
    → IsKeyed (set r s).m × IsKeyed (delete k s).m
unfolding set delete
set-delete-IsKeyed r k s h = (IsKeyed-insert r s.m h, IsKeyed-remove k s.m h)

length-insert :
    (k : Uuid) (r : Reading) (m : List (Uuid × Reading))
    → length (insert k r m) ≡ length m + (if is_some (lookup k m) then 0 else 1)
unfolding lookup insert
length-insert k r [] = refl
length-insert k r ((j, q) ∷ m) = ground (arith, length-insert k r m)

length-remove :
    (k : Uuid) (m : List (Uuid × Reading))
    → IsKeyed m
    → length (remove k m) + (if is_some (lookup k m) then 1 else 0) ≡ length m
unfolding lookup remove
length-remove k [] h = refl
length-remove k ((j, q) ∷ m) h = ground (arith, length-remove k m, remove_absent k m)

-- Set adds an entry exactly for a device that had none, and Delete on a keyed store takes an
-- entry away exactly for a device that had one.
pub len-set-delete :
    (r : Reading) (k : Uuid) (s : Store)
    → IsKeyed s.m
    → (len (set r s) ≡ len s + (if is_some (get r.device_id s) then 0 else 1))
      × (len (delete k s) + (if is_some (get k s) then 1 else 0) ≡ len s)
unfolding len set delete get
len-set-delete r k s h = (length-insert r.device_id r s.m, length-remove k s.m h)

pub lookup-device_id :
    (k : Uuid) (r : Reading) (m : List (Uuid × Reading))
    → IsKeyed m
    → lookup k m ≡ some r
    → r.device_id ≡ k
unfolding lookup
lookup-device_id k r [] h e = cc
lookup-device_id k r ((j, q) ∷ m) h e = ground (arith, lookup-device_id k r m)

-- The snapshot of a keyed store for a list of devices holds one reading for each listed device
-- that has one, in the order of the list, and each is what Get returns for its device.
pub snapshot-exact :
    (ids : List Uuid) (s : Store)
    → IsKeyed s.m
    → (map (λ r. r.device_id) (snapshot ids s) ≡ filter (λ id. is_some (get id s)) ids)
      × All (λ r. get r.device_id s ≡ some r) (snapshot ids s)
unfolding snapshot
snapshot-exact [] s h = (refl, tt)
snapshot-exact (id ∷ ids) s h = elim (Option-cases (get id s)) [
  | inl absent ↦ rw absent (snapshot-exact ids s h)
  | inr (r, found) ↦
      let same : r.device_id ≡ id = lookup-device_id id r s.m h (unfold get in found) in
      let (order, each) = snapshot-exact ids s h in
      rw found (cc, (subst (λ k. get k s ≡ some r) (sym same) found, each))
]
