-- ===== src/Tests/Store.antt =====
-- The store of the latest readings.
use iot_backend.Base.{
  ◌+◌, [], ◌∷◌, none, some, ◌≡◌, refl, ◌==◌, is_some, All, map, filter, if◌then◌else◌,
}
use iot_backend.Models.{Uuid, Reading}
use iot_backend.State.{Store, set, get, delete, snapshot, len, lookup}
use iot_backend.State.Laws.{
  IsKeyed, get-set-delete, set-delete-IsKeyed, len-set-delete, snapshot-exact,
}

stores : Unit {0}
unfolding set get delete snapshot len
stores = tt

abbrev of_device : Uuid → Reading
of_device id = record {
  device_id = id;
  temperature = 0;
  pressure = 0;
  humidity = 0;
  ts = 0;
  updated_at = 0;
}

abbrev two : Store
two = record { m = (5, of_device 5) ∷ (6, of_device 6) ∷ [] }

two-IsKeyed : IsKeyed two.m
unfolding lookup
two-IsKeyed = (refl, refl, (refl, refl, tt))

store_tests :
    (snapshot (6 ∷ 9 ∷ 5 ∷ []) two ≡ of_device 6 ∷ of_device 5 ∷ [])
    × (len (set (of_device 5) two) ≡ 2)
    × (len (set (of_device 9) two) ≡ 3)
    × (get 5 (delete 5 two) ≡ none)
unfolding stores
store_tests = (refl, refl, refl, refl)

get-set-delete_example :
    (get 6 (set (of_device 5) two) ≡ (if 5 == 6 then some (of_device 5) else get 6 two))
    × (get 6 (delete 5 two) ≡ (if 5 == 6 then none else get 6 two))
get-set-delete_example = get-set-delete (of_device 5) 5 6 two

set-delete-IsKeyed_example : IsKeyed (set (of_device 9) two).m × IsKeyed (delete 5 two).m
set-delete-IsKeyed_example = set-delete-IsKeyed (of_device 9) 5 two two-IsKeyed

len-set-delete_example :
    (len (set (of_device 9) two) ≡ len two + (if is_some (get 9 two) then 0 else 1))
    × (len (delete 5 two) + (if is_some (get 5 two) then 1 else 0) ≡ len two)
len-set-delete_example = len-set-delete (of_device 9) 5 two two-IsKeyed

snapshot-exact_example :
    (map (λ r. r.device_id) (snapshot (6 ∷ 9 ∷ []) two)
      ≡ filter (λ id. is_some (get id two)) (6 ∷ 9 ∷ []))
    × All (λ r. get r.device_id two ≡ some r) (snapshot (6 ∷ 9 ∷ []) two)
snapshot-exact_example = snapshot-exact (6 ∷ 9 ∷ []) two two-IsKeyed
