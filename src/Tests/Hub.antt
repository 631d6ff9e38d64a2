-- ===== src/Tests/Hub.antt =====
-- The hub, with two connections of different organizations.
use iot_backend.Base.{
  ℕ, zero, suc, String, true, false, List, [], ◌∷◌, ◌++◌, none, some, ◌≡◌, refl, ◌==◌, ◌&&◌, any,
  map, All, str_eq, if◌then◌else◌,
}
use iot_backend.Models.{Uuid, Reading}
use iot_backend.State
use iot_backend.Auth.{Principal, Parsed, valid, invalid_token}
use iot_backend.Repository.Devices.{join}
use iot_backend.Hub.{
  auth_ok, pong, reading, snapshot, reading_on, Client, ping, auth, filter_to, World, set_filter,
}
use iot_backend.Hub.System.{
  Event, connect, message, lost, turn, publish, deliver, Hub, run, history,
}
use iot_backend.Hub.Isolation.{IsTenanted}
use iot_backend.Hub.Runs.{run-IsTenanted}
use iot_backend.Hub.Filter.{is_own, parses_to, set_filter-exact}
use iot_backend.Tests.{sys, env, db, principal}

hubs : Unit {0}
unfolding run join State.snapshot
hubs = tt

abbrev parse_token : String → Parsed Principal
parse_token s =
    if str_eq s "ann"
    then valid (principal 1 7 "ann")
    else if str_eq s "bob"
    then valid (principal 2 8 "bob")
    else invalid_token "token"

abbrev r5 : Reading
r5 = record { device_id = 5; temperature = 0; pressure = 0; humidity = 0; ts = 0; updated_at = 0 }

abbrev world : World
world = record { db = db; store = record { m = (5, r5) ∷ [] } }

abbrev turns : ℕ → ℕ → List Event
turns zero i = []
turns (suc n) i = turn i ∷ turns n i

-- Ann and Bob connect. Ann sends her token and is registered; a reading is broadcast and offered to
-- her before her auth_ok and her snapshot. Bob's token is looked up meanwhile, but he is registered
-- only when that call of Broadcast has come to an end. Ann asks for Bob's device only, and the reading
-- comes again.
abbrev events : List Event
events =
    connect ∷ connect ∷ message 0 (auth "ann") ∷ turns 3 0
    ++ message 1 (auth "bob") ∷ turns 2 1
    ++ publish 7 r5 ∷ turn 1 ∷ deliver 0 0 ∷ turns 4 0
    ++ turns 5 1
    ++ message 0 (filter_to ("d6" ∷ [])) ∷ turns 2 0
    ++ publish 7 r5 ∷ deliver 0 0 ∷ deliver 0 0 ∷ message 1 ping ∷ turn 1 ∷ lost 0 ∷ turns 2 0
    ++ []

abbrev start : Hub
start = record { clients = []; publishing = []; world = world }

run_tests :
    map (λ c. c.outbox) (run sys env parse_token events start).clients
    ≡ (reading r5 ∷ auth_ok ∷ snapshot (r5 ∷ []) ∷ []) ∷ (auth_ok ∷ snapshot [] ∷ pong ∷ []) ∷ []
unfolding hubs
run_tests = refl

abbrev ann : Client
ann = record {
  org_id = 7;
  user_id = 1;
  filter = none;
  authed = true;
  registered = true;
  closed = false;
  writable = true;
  outbox = [];
  task = reading_on;
}

run-IsTenanted_example :
    All
      (IsTenanted (history events []))
      (run sys env parse_token events
        (record { clients = []; publishing = []; world = world })).clients
run-IsTenanted_example = run-IsTenanted sys env parse_token events world

set_filter-exact_example :
    (kept : List Uuid) × ((set_filter sys env parse_token ("d5" ∷ "d6" ∷ []) ann world).0
      ≡ record ann { filter = some kept })
    × ((id : Uuid)
        → any (λ j. j == id) kept ≡ (
            any (is_own 7 id) world.db.tables.devices
            && any
                (λ raw. parses_to sys env parse_token (sys.parse_uuid raw) id)
                ("d5" ∷ "d6" ∷ [])))
set_filter-exact_example = set_filter-exact sys env parse_token "d5" ("d6" ∷ []) ann world refl
