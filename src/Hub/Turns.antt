-- ===== src/Hub/Turns.antt =====
-- The steps of internal/ws/hub.go that System makes for setFilter and for sendSnapshot are these
-- methods, where nothing comes between them.
use iot_backend.Base.{String, Bool, List, ◌∷◌, ◌≡◌, refl, Bool-cases, inl, inr}
use iot_backend.Models.{Device}
use iot_backend.Auth.{Platform, Principal, Parsed}
use iot_backend.Repository.{Result, ok, err, Env}
use iot_backend.Repository.Devices.{list_devices}
use iot_backend.Hub.{
  reading_on, listing, filtering, Client, World, write_json, set_filter, send_snapshot, snapshot_of,
  filter_from,
}
use iot_backend.Hub.System.{to_task, listed, narrowed, next}

module _ (sys : Platform) (env : Env) (parse_token : String → Parsed Principal) where
  -- Two steps of a connection, the second from where the first has left it.
  abbrev then_next : Bool → Client × World → Client × World
  then_next free (c, w) = next sys env parse_token free c.task c w

  abbrev resumed : Client × World → Client × World
  resumed (c, w) = (to_task reading_on c, w)

  -- The two steps of a filter message that names devices are setFilter.
  next-set_filter :
      (free : Bool) (i : String) (is : List String) (c : Client) (w : World)
      → then_next free (next sys env parse_token free (filtering (i ∷ is)) c w)
        ≡ resumed (set_filter sys env parse_token (i ∷ is) c w)
  unfolding next set_filter
  next-set_filter free i is c w = at_list (list_devices env c.org_id w.db).0
    where
      w1 : World
      w1 = record w { db = (list_devices env c.org_id w.db).1 }

      at_list :
          (r : Result (List Device))
          → then_next free (to_task (narrowed sys env parse_token (i ∷ is) r) c, w1)
            ≡ resumed (filter_from sys env parse_token (i ∷ is) r c, w1)
      at_list (err e) = refl
      at_list (ok ds) = refl

  -- The three steps after auth_ok has been written are sendSnapshot.
  next-send_snapshot :
      (free : Bool) (c : Client) (w : World)
      → then_next free (then_next free (next sys env parse_token free listing c w))
        ≡ resumed (send_snapshot sys env parse_token c w)
  unfolding next send_snapshot write_json
  next-send_snapshot free c w = at_list (list_devices env c.org_id w.db).0
    where
      w1 : World
      w1 = record w { db = (list_devices env c.org_id w.db).1 }

      at_list :
          (r : Result (List Device))
          → then_next free (then_next free (to_task (listed sys env parse_token r) c, w1))
            ≡ resumed (snapshot_of sys env parse_token w.store r c, w1)
      at_list (err e) = refl
      at_list (ok ds) = elim (Bool-cases c.writable) [ inl open_ ↦ rw open_ | inr shut ↦ rw shut ]
