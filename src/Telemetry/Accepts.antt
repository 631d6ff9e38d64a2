-- ===== src/Telemetry/Accepts.antt =====
-- Which messages HandleMQTT of internal/telemetry/ingest.go accepts, and what it does with them.
use mathlib.Core.Option
use iot_backend.Base.{
  ◌+◌, String, Bool, true, false, List, Option, none, some, str_eq, eq_iff, ◌==◌, if◌then◌else◌,
  find?, ◌≡◌, refl, sym, ap, ◌∙◌, Bool-cases, Option-cases, inl, inr, subst, find?-sound,
}
use iot_backend.Models.{Uuid, Time, Reading, Device, Organization, status_active}
use iot_backend.State
use iot_backend.State.Laws.{get-set}
use iot_backend.Text.Split.{not_empty}
use iot_backend.Topic.{telemetry_topic, parse_telemetry_topic, device_identifier_from_topic}
use iot_backend.Topic.Laws.{
  IsLevel, second, device_identifier_from_topic-parse, parse_telemetry_topic_sound,
  parse-telemetry_topic,
}
use iot_backend.Repository
use iot_backend.Repository.{Result, ok, err, Env, Db, DeviceRow, one_row}
use iot_backend.Repository.Users.{get_organization}
use iot_backend.Repository.Devices.{join, get_device_by_identifier}
use iot_backend.Hub.{broadcast}
use iot_backend.Telemetry.{
  Fields, Formats, applied, parse_payload, Sink, World, dispatch, apply_reading, after_org,
  after_device, handle_mqtt,
}
use iot_backend.Telemetry.Payload.{IsFinite, parse_payload-IsFinite}

-- The row that a query for one row has returned.
found_row {ℓ} :
    {A B : Type ℓ} (b : Bool) (f : A → B) (o : Option A) (d : B)
    → (if b then err Repository.failed else one_row (Option.map f o)) ≡ ok d
    → (x : A) × (o ≡ some x) × (d ≡ f x)
found_row true f o d e = cc
found_row false f none d e = cc
found_row false f (some x) d e = (x, refl, cc e)

found_org :
    (b : Bool) (o : Option Organization) (d : Organization)
    → (if b then err Repository.failed else one_row o) ≡ ok d
    → o ≡ some d
found_org true o d e = cc
found_org false none d e = cc
found_org false (some x) d e = cc e

-- What makes HandleMQTT accept a message: the topic names an identifier, the payload parses, the
-- identifier is that of an active device, and the device's organization is active. The first
-- segment of the topic is any text without a slash.
pub record IsAccepted (fmt : Formats) (now : Time) (topic : String) (payload : Option Fields)
    (db : Db) (row : DeviceRow) (r : Reading) : Type 0 where
  pub segment : String
  pub segment_level : IsLevel segment
  pub identifier_level : IsLevel row.device_identifier
  pub printed : topic ≡ telemetry_topic segment row.device_identifier
  pub read : parse_payload fmt payload now ≡ some r
  pub registered :
      find? (λ (d : DeviceRow). str_eq d.device_identifier row.device_identifier) db.tables.devices
      ≡ some row
  pub device_active : row.status ≡ status_active
  pub org : Organization
  pub owned : find? (λ o. o.id == row.organization_id) db.tables.organizations ≡ some org
  pub org_active : org.status ≡ status_active

module _ {S : Type 0} (sinks : List (Sink S)) where
  -- The reading is the latest of its device, and no other device's has changed; it has been
  -- broadcast for the organization in the device's row, and given to every sink with that
  -- organization.
  pub record IsRecorded (row : DeviceRow) (r : Reading) (w w' : World S) : Type 0 where
    pub stored :
        (id : Uuid)
        → State.get id w'.store
          ≡ (if row.id == id then some (record r { device_id = row.id }) else State.get id w.store)
    pub sent :
        w'.hub ≡ Option.map (broadcast row.organization_id (record r { device_id = row.id })) w.hub
    pub archived :
        w'.sunk
        ≡ dispatch sinks
            (record {
              organization_id = row.organization_id;
              device_id = row.id;
              device_identifier = row.device_identifier;
              temperature = r.temperature;
              pressure = r.pressure;
              humidity = r.humidity;
              ts = r.ts;
            })
            w.sunk

  apply_reading-IsRecorded :
      (t : Repository.Tables) (row : DeviceRow) (r : Reading) (w : World S) (db : Db)
      → IsRecorded row r w (apply_reading sinks (join t row) r (record w { db = db }))
  unfolding apply_reading join
  apply_reading-IsRecorded t row r w db = record {
    stored = λ id. get-set (record r { device_id = row.id }) id w.store;
    sent = refl;
    archived = refl;
  }

  after_org-applied :
      (d : Device) (r : Reading) (res : Result Organization × Db) (w : World S)
      → (after_org sinks d r res w).0 ≡ applied
      → (org : Organization) × (res.0 ≡ ok org)
        × (org.status ≡ status_active)
        × ((after_org sinks d r res w).1 ≡ apply_reading sinks d r (record w { db = res.1 }))
  after_org-applied d r (err e, db) w a = cc
  after_org-applied d r (ok org, db) w a = elim (Bool-cases (str_eq org.status status_active)) [
    | inl on ↦ (org, refl, (eq_iff _ _).0 on, rw on)
    | inr off ↦ cc (rw off at a)
  ]

  after_device-applied :
      (env : Env) (r : Reading) (res : Result Device × Db) (w : World S)
      → (after_device env sinks r res w).0 ≡ applied
      → (d : Device) × (res.0 ≡ ok d)
        × (d.status ≡ status_active)
        × ((after_org sinks d r (get_organization env d.organization_id res.1) w).0 ≡ applied)
        × ((after_device env sinks r res w).1
            ≡ (after_org sinks d r (get_organization env d.organization_id res.1) w).1)
  after_device-applied env r (err Repository.not_found, db) w a = cc
  after_device-applied env r (err Repository.conflict, db) w a = cc
  after_device-applied env r (err Repository.failed, db) w a = cc
  after_device-applied env r (ok d, db) w a = elim (Bool-cases (str_eq d.status status_active)) [
    | inl on ↦ (d, refl, (eq_iff _ _).0 on, (rw on at a), rw on)
    | inr off ↦ cc (rw off at a)
  ]

-- A topic that names an identifier, as its printed form.
named_topic :
    (topic : String)
    → str_eq (device_identifier_from_topic topic) "" ≡ false
    → (segment : String) × IsLevel segment
      × IsLevel (device_identifier_from_topic topic)
      × (topic ≡ telemetry_topic segment (device_identifier_from_topic topic))
named_topic topic named = elim (Option-cases (parse_telemetry_topic topic)) [
  | inl bad ↦
      let empty : device_identifier_from_topic topic ≡ "" =
        device_identifier_from_topic-parse topic ∙ ap second bad in
      cc ((eq_iff _ _).1 empty, named)
  | inr (parts, read) ↦
      let same : device_identifier_from_topic topic ≡ parts.1 =
        device_identifier_from_topic-parse topic ∙ ap second read in
      let (segment_level, level, printed) =
        parse_telemetry_topic_sound topic parts.0 parts.1 read in
      (parts.0, segment_level, (rw same level), (rw same printed))
]

-- The row and the organization behind a message that was applied.
record IsChosen (identifier : String) (db : Db) (row : DeviceRow) : Type 0 where
  there :
      find? (λ (d : DeviceRow). str_eq d.device_identifier identifier) db.tables.devices ≡ some row
  device_active : row.status ≡ status_active
  org : Organization
  owned : find? (λ o. o.id == row.organization_id) db.tables.organizations ≡ some org
  org_active : org.status ≡ status_active

module _ {S : Type 0} (sinks : List (Sink S)) (env : Env) where
  applied-IsChosen :
      (identifier : String) (r : Reading) (w : World S)
      → (after_device env sinks r (get_device_by_identifier env identifier w.db) w).0 ≡ applied
      → (row : DeviceRow) × IsChosen identifier w.db row
        × IsRecorded sinks row r w
            (after_device env sinks r (get_device_by_identifier env identifier w.db) w).1
  unfolding get_device_by_identifier get_organization join
  applied-IsChosen identifier r w a =
      let t = w.db.tables in
      let loaded = get_device_by_identifier env identifier w.db in
      let (d, found, d_active, a', same) = after_device-applied sinks env r loaded w a in
      let res = get_organization env d.organization_id loaded.1 in
      let (o, got, o_active, made) = after_org-applied sinks d r res w a' in
      let (row, there, joined) = found_row (env.fails w.db.statements) (join t) _ d found in
      let org_there = found_org _ _ o got in
      (
        row,
        record {
          there = there;
          device_active = sym (ap (λ (e : Device). e.status) joined) ∙ d_active;
          org = o;
          owned =
              subst
                (λ e.
                  find? (λ (q : Organization). q.id == e.organization_id) t.organizations ≡ some o)
                joined org_there;
          org_active = o_active;
        },
        subst (IsRecorded sinks row r w) (sym (same ∙ made)) (
            subst
              (λ e. IsRecorded sinks row r w (apply_reading sinks e r (record w { db = res.1 })))
              (sym joined) (apply_reading-IsRecorded sinks t row r w res.1)),
      )

  IsChosen-applied :
      (identifier : String) (r : Reading) (w : World S) (row : DeviceRow)
      → IsChosen identifier w.db row
      → env.fails w.db.statements ≡ false
      → env.fails (w.db.statements + 1) ≡ false
      → (after_device env sinks r (get_device_by_identifier env identifier w.db) w).0 ≡ applied
  unfolding get_device_by_identifier get_organization join
  IsChosen-applied identifier r w row c first later =
      let d_on : str_eq row.status status_active ≡ true = (eq_iff _ _).1 c.device_active in
      let o_on : str_eq c.org.status status_active ≡ true = (eq_iff _ _).1 c.org_active in
      rw (first, c.there, d_on, later, c.owned, o_on)

module _ {S : Type 0} (sinks : List (Sink S)) (fmt : Formats) (env : Env) (now : Time) where
  -- Where HandleMQTT returns nil, the message was to be accepted, the three numbers of its reading
  -- are finite, and the reading is stored, broadcast and given to the sinks under the device and
  -- the organization of the device's row, whatever organization the topic names.
  pub handle_mqtt-applied :
      (topic : String) (payload : Option Fields) (w : World S)
      → (handle_mqtt fmt env sinks now topic payload w).0 ≡ applied
      → (row : DeviceRow) × (r : Reading) × IsAccepted fmt now topic payload w.db row r
        × IsFinite r
        × IsRecorded sinks row r w (handle_mqtt fmt env sinks now topic payload w).1
  unfolding handle_mqtt
  handle_mqtt-applied topic payload w a =
      let identifier = device_identifier_from_topic topic in
      elim (Bool-cases (str_eq identifier "")) [
        | inl empty ↦ cc (rw empty at a)
        | inr named ↦ elim (Option-cases (parse_payload fmt payload now)) [
          | inl bad ↦ cc (rw (named, bad) at a)
          | inr (r, read) ↦
              let (row, chosen, recorded) =
                applied-IsChosen sinks env identifier r w (rw (named, read) at a) in
              let own : row.device_identifier ≡ identifier = (eq_iff _ _).0 (
                find?-sound (λ (d : DeviceRow). str_eq d.device_identifier identifier)
                  w.db.tables.devices chosen.there) in
              let (segment, segment_level, level, printed) = named_topic topic named in
              (
                row,
                r,
                record {
                  segment = segment;
                  segment_level = segment_level;
                  identifier_level = rw own level;
                  printed = rw own printed;
                  read = read;
                  registered = rw own chosen.there;
                  device_active = chosen.device_active;
                  org = chosen.org;
                  owned = chosen.owned;
                  org_active = chosen.org_active;
                },
                parse_payload-IsFinite fmt payload now r read,
                rw (named, read) recorded,
              )
        ]
      ]

  -- A message that is to be accepted is: HandleMQTT returns nil, if its two statements do not fail.
  pub handle_mqtt-accepts :
      (topic : String) (payload : Option Fields) (w : World S) (row : DeviceRow) (r : Reading)
      → IsAccepted fmt now topic payload w.db row r
      → env.fails w.db.statements ≡ false
      → env.fails (w.db.statements + 1) ≡ false
      → (handle_mqtt fmt env sinks now topic payload w).0 ≡ applied
  unfolding handle_mqtt get_device_by_identifier get_organization join
  handle_mqtt-accepts topic payload w row r a first second_ =
      let named : device_identifier_from_topic topic ≡ row.device_identifier =
        device_identifier_from_topic-parse topic
        ∙ ap (λ t. second (parse_telemetry_topic t)) a.printed
        ∙ ap second (
            parse-telemetry_topic a.segment row.device_identifier a.segment_level
              a.identifier_level) in
      let filled : str_eq row.device_identifier "" ≡ false =
        not_empty row.device_identifier a.identifier_level.0 in
      rw (named, filled, a.read)
        (IsChosen-applied sinks env row.device_identifier r w row
          (record {
            there = a.registered;
            device_active = a.device_active;
            org = a.org;
            owned = a.owned;
            org_active = a.org_active;
          })
          first second_)
