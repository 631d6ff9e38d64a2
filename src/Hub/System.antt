-- ===== src/Hub/System.antt =====
-- internal/ws/hub.go as its goroutines run: a read loop for each connection, and calls of Broadcast.
-- A step of a read loop is one statement, one lookup, one write or one section under the mutex;
-- Broadcast holds the mutex for reading while it offers its reading to one connection after the
-- other, in any order, and only the registration and the removal of a connection wait for it. One
-- offer is one step: of what it tests, only the filter could change before its write.
use iot_backend.Base.{
  ℕ, zero, suc, Bool, true, false, List, [], ◌∷◌, ◌++◌, Option, none, some, String, if◌then◌else◌,
  map,
}
use iot_backend.Models.{Uuid, User, Organization, Device, Reading}
use iot_backend.State
use iot_backend.Auth.{Platform, Principal, Parsed, valid, invalid_token}
use iot_backend.Repository.{Result, ok, err, Env}
use iot_backend.Repository.Users.{get_user_by_id, get_user_by_subject, get_organization}
use iot_backend.Repository.Devices.{list_devices}
use iot_backend.Hub.{
  auth_ok, pong, error, snapshot, Task, reading_on, looking, looking_again, fitting, enrolling,
  greeting, listing, showing, filtering, narrowing, replying, refusing, leaving, closing, Client,
  new_client, Inbound, invalid_json, ping, other, auth, filter_to, write_json, World, offer,
  user_fits, org_fits, allowed_ids,
}

pub data Event : Type 0 where
  -- ServeHTTP, up to the start of the read loop.
  connect : Event
  -- ReadMessage of a connection gives a message, or fails: the peer has gone, or it was too late.
  message : (index : ℕ) → Inbound → Event
  lost : (index : ℕ) → Event
  -- The next step of the read loop of a connection.
  turn : (index : ℕ) → Event
  -- The network takes writes on a connection, or takes them no more.
  network : (index : ℕ) → Bool → Event
  -- The rest of the system changes the database and the store.
  outside : World → Event
  -- A call of Broadcast takes the mutex, and then offers its reading to a connection left to it.
  publish : Uuid → Reading → Event
  deliver : (call left : ℕ) → Event

-- A call of Broadcast, with the connections that its loop has not come to.
pub record Publication : Type 0 where
  pub org_id : Uuid
  pub reading : Reading
  pub pending : List ℕ

-- `publishing` are the calls of Broadcast that hold the mutex for reading.
pub record Hub : Type 0 where
  pub clients : List Client
  pub publishing : List Publication
  pub world : World

abbrev pub set_writable : Bool → Client → Client
set_writable b c = if c.closed then c else record c { writable = b }

abbrev pub to_task : Task → Client → Client
to_task t c = record c { task = t }

-- A change of one connection; a connection that is closed has no read loop any more.
abbrev pub at {ℓ} : {W : Type ℓ} → ℕ → (Client → W → Client × W) → List Client → W → List Client × W
at i f [] w = ([], w)
at zero f (c ∷ cs) w = let (c', w') = f c w in if c.closed then (c ∷ cs, w) else (c' ∷ cs, w')
at (suc i) f (c ∷ cs) w = let (cs', w') = at i f cs w in (c ∷ cs', w')

abbrev pub as_hub : List Publication → List Client × World → Hub
as_hub ps (cs, w) = record { clients = cs; publishing = ps; world = w }

-- No call of Broadcast holds the mutex.
abbrev pub is_free : List Publication → Bool
is_free [] = true
is_free (p ∷ ps) = false

-- The refusals of readLoop.
abbrev pub auth_failed : Task
auth_failed = refusing (error "unauthorized" "authentication failed")

abbrev pub auth_first : Task
auth_first = refusing (error "unauthorized" "authenticate first")

module _ (sys : Platform) (env : Env) (parse_token : String → Parsed Principal) where
  abbrev pub parsed : Parsed Principal → Task
  parsed (invalid_token what) = auth_failed
  parsed (valid p) = looking p

  abbrev pub filter_task : List String → Task
  filter_task [] = narrowing none
  filter_task (i ∷ is) = filtering (i ∷ is)

  -- The switch of readLoop, for a connection that is authenticated or not.
  abbrev pub received : Inbound → Bool → Task
  received invalid_json authed = replying (error "validation_error" "invalid json")
  received (auth token) true = refusing (error "forbidden" "already authenticated")
  received (auth token) false = parsed (parse_token token)
  received (filter_to ids) true = filter_task ids
  received (filter_to ids) false = auth_first
  received ping authed = replying pong
  received other true = reading_on
  received other false = auth_first

  -- What ReadMessage gives, where the read loop waits for it.
  abbrev pub receive : Task → Task → Client → Client
  receive next reading_on c = to_task next c
  receive next _ c = c

  abbrev pub checked_user : Principal → User → Task
  checked_user p u = if user_fits sys env parse_token p u then fitting p u else auth_failed

  -- After GetUserByID, and after GetUserBySubject.
  abbrev pub looked_up : Principal → Result User → Task
  looked_up p (ok u) = checked_user p u
  looked_up p (err e) = looking_again p

  abbrev pub looked_again : Principal → Result User → Task
  looked_again p (ok u) = checked_user p u
  looked_again p (err e) = auth_failed

  abbrev pub checked_org : Principal → User → Result Organization → Task
  checked_org p u o = if org_fits sys env parse_token o then enrolling p u else auth_failed

  abbrev pub enrolled : Principal → User → Client → Client
  enrolled p u c = record c {
    authed = true;
    org_id = p.organization_id;
    user_id = u.id;
    registered = true;
    task = greeting;
  }

  abbrev pub greeted : Bool → Task
  greeted sent = if sent then listing else auth_failed

  -- After ListDevices of sendSnapshot, and of setFilter.
  abbrev pub listed : Result (List Device) → Task
  listed (err e) = reading_on
  listed (ok devices) = showing (map (λ d. d.id) devices)

  abbrev pub narrowed : List String → Result (List Device) → Task
  narrowed ids (err e) = reading_on
  narrowed ids (ok devices) =
      narrowing (some (allowed_ids sys env parse_token (map (λ d. d.id) devices) ids))

  -- The next step of the read loop of a connection, where the mutex is free or not.
  unfoldable pub next : Bool → Task → Client → World → Client × World
  unfolding get_user_by_id get_user_by_subject get_organization list_devices write_json user_fits
      allowed_ids
  next free reading_on c w = (c, w)
  next free (looking p) c w =
      let (u, db) = get_user_by_id env p.user_id w.db in
      (to_task (looked_up p u) c, record w { db = db })
  next free (looking_again p) c w =
      let (u, db) = get_user_by_subject env p.subject w.db in
      (to_task (looked_again p u) c, record w { db = db })
  next free (fitting p u) c w =
      let (o, db) = get_organization env p.organization_id w.db in
      (to_task (checked_org p u o) c, record w { db = db })
  next free (enrolling p u) c w = (if free then enrolled p u c else c, w)
  next free greeting c w = let (sent, c') = write_json auth_ok c in (to_task (greeted sent) c', w)
  next free listing c w =
      let (devices, db) = list_devices env c.org_id w.db in
      (to_task (listed devices) c, record w { db = db })
  next free (showing ids) c w = (to_task (replying (snapshot (State.snapshot ids w.store))) c, w)
  next free (filtering ids) c w =
      let (devices, db) = list_devices env c.org_id w.db in
      (to_task (narrowed ids devices) c, record w { db = db })
  next free (narrowing f) c w = (record c { filter = f; task = reading_on }, w)
  next free (replying m) c w = (to_task reading_on (write_json m c).1, w)
  next free (refusing m) c w = (to_task leaving (write_json m c).1, w)
  next free leaving c w = (if free then record c { registered = false; task = closing } else c, w)
  next free closing c w = (record c { closed = true; writable = false }, w)

  -- The registered connections, by their indices.
  abbrev pub registered_from : ℕ → List Client → List ℕ
  registered_from i [] = []
  registered_from i (c ∷ cs) =
      let rest = registered_from (suc i) cs in if c.registered then i ∷ rest else rest

  -- A call of Broadcast with these connections left returns when there are none.
  abbrev pub going_on : Uuid → Reading → List ℕ → List Publication
  going_on org_id r [] = []
  going_on org_id r (i ∷ is) = record { org_id = org_id; reading = r; pending = i ∷ is } ∷ []

  abbrev pub keeping : ℕ → Option (ℕ × List ℕ) → Option (ℕ × List ℕ)
  keeping j none = none
  keeping j (some (i, rest)) = some (i, j ∷ rest)

  -- One of the connections left, and the others.
  abbrev pub take_at : ℕ → List ℕ → Option (ℕ × List ℕ)
  take_at k [] = none
  take_at zero (i ∷ is) = some (i, is)
  take_at (suc k) (i ∷ is) = keeping i (take_at k is)

  abbrev pub offer_at : ℕ → Uuid → Reading → List Client → List Client
  offer_at i org_id r [] = []
  offer_at zero org_id r (c ∷ cs) = offer org_id r c ∷ cs
  offer_at (suc i) org_id r (c ∷ cs) = c ∷ offer_at i org_id r cs

  abbrev pub offered :
      Publication → Option (ℕ × List ℕ) → List Client → List Publication × List Client
  offered p none cs = (p ∷ [], cs)
  offered p (some (i, rest)) cs =
      (going_on p.org_id p.reading rest, offer_at i p.org_id p.reading cs)

  -- One round of the loop of one of the calls of Broadcast.
  abbrev pub deliver_at : ℕ → ℕ → List Publication → List Client → List Publication × List Client
  deliver_at b k [] cs = ([], cs)
  deliver_at zero k (p ∷ ps) cs =
      let (left, cs') = offered p (take_at k p.pending) cs in (left ++ ps, cs')
  deliver_at (suc b) k (p ∷ ps) cs = let (ps', cs') = deliver_at b k ps cs in (p ∷ ps', cs')

  unfoldable pub step : Event → Hub → Hub
  unfolding next offer
  step connect h = record h { clients = h.clients ++ new_client ∷ [] }
  step (message i m) h =
      as_hub h.publishing
        (at i (λ c w. (receive (received m c.authed) c.task c, w)) h.clients h.world)
  step (lost i) h =
      as_hub h.publishing (at i (λ c w. (receive leaving c.task c, w)) h.clients h.world)
  step (turn i) h =
      as_hub h.publishing (at i (λ c w. next (is_free h.publishing) c.task c w) h.clients h.world)
  step (network i b) h = as_hub h.publishing (at i (λ c w. (set_writable b c, w)) h.clients h.world)
  step (outside w) h = record h { world = w }
  step (publish org_id r) h = record h {
    publishing = going_on org_id r (registered_from zero h.clients) ++ h.publishing;
  }
  step (deliver b k) h =
      let (ps, cs) = deliver_at b k h.publishing h.clients in
      record h { clients = cs; publishing = ps }

  unfoldable pub run : List Event → Hub → Hub
  unfolding step
  run [] h = h
  run (e ∷ es) h = run es (step e h)

-- The calls of Broadcast among the events, the latest first, before those of an earlier history.
abbrev pub recorded : Event → List (Uuid × Reading) → List (Uuid × Reading)
recorded (publish org_id r) h = (org_id, r) ∷ h
recorded _ h = h

unfoldable pub history : List Event → List (Uuid × Reading) → List (Uuid × Reading)
history [] h = h
history (e ∷ es) h = history es (recorded e h)
