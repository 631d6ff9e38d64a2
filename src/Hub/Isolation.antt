-- ===== src/Hub/Isolation.antt =====
-- What the connections of the hub have been sent, whatever the order of events.
use iot_backend.Base.{
  String, Bool, true, false, List, [], ◌∷◌, ◌||◌, not, ◌==◌, All, All-append, ◌≡◌, ◌⊎◌, inr, sym,
  subst, arith, if-keeps,
}
use iot_backend.Models.{Uuid, Reading}
use iot_backend.Hub.{
  Message, auth_ok, pong, error, reading, snapshot, Task, looking, looking_again, fitting,
  enrolling, greeting, listing, showing, replying, refusing, Client, write_json, filtered_out,
  offer,
}
use iot_backend.Hub.System.{set_writable}

-- The reading was broadcast for the organization.
abbrev pub Sent : Uuid → Reading → List (Uuid × Reading) → Type 0
Sent o r [] = ⊥
Sent o r ((o', r') ∷ h) = ((o ≡ o') × (r ≡ r')) ⊎ Sent o r h

-- A message that tells nothing of any device.
abbrev pub IsPublic : Message → Type 0
IsPublic pong = Unit
IsPublic (error code text) = Unit
IsPublic _ = ⊥

-- A live reading was broadcast for the organization.
abbrev pub Delivered : List (Uuid × Reading) → Uuid → Message → Type 0
Delivered h o (reading r) = Sent o r h
Delivered h o _ = Unit

-- What holds of a connection, given the broadcasts so far.
pub record IsTenanted (h : List (Uuid × Reading)) (c : Client) : Type 0 where
  pub silent : c.authed ≡ false → All IsPublic c.outbox
  pub enrolled : c.registered ≡ true → c.authed ≡ true
  pub delivered : All (Delivered h c.org_id) c.outbox

-- A public message was delivered whatever the organization and the history.
pub All-public :
    (h : List (Uuid × Reading)) (o : Uuid) (ms : List Message)
    → All IsPublic ms
    → All (Delivered h o) ms
All-public h o [] a = tt
All-public h o (pong ∷ ms) (a, rest) = (tt, All-public h o ms rest)
All-public h o (error code text ∷ ms) (a, rest) = (tt, All-public h o ms rest)
All-public h o (auth_ok ∷ ms) (a, rest) = absurd a
All-public h o (reading r ∷ ms) (a, rest) = absurd a
All-public h o (snapshot rs ∷ ms) (a, rest) = absurd a

All-sent :
    (h : List (Uuid × Reading)) (o o' : Uuid) (r : Reading) (ms : List Message)
    → All (Delivered h o) ms
    → All (Delivered ((o', r) ∷ h) o) ms
All-sent h o o' r [] a = tt
All-sent h o o' r (reading q ∷ ms) (a, rest) = (inr a, All-sent h o o' r ms rest)
All-sent h o o' r (pong ∷ ms) (a, rest) = (tt, All-sent h o o' r ms rest)
All-sent h o o' r (error code text ∷ ms) (a, rest) = (tt, All-sent h o o' r ms rest)
All-sent h o o' r (auth_ok ∷ ms) (a, rest) = (tt, All-sent h o o' r ms rest)
All-sent h o o' r (snapshot rs ∷ ms) (a, rest) = (tt, All-sent h o o' r ms rest)

-- A message of the read loop: no live reading, and a public one until the connection has
-- authenticated.
abbrev pub IsReply : Bool → Message → Type 0
IsReply true (reading r) = ⊥
IsReply true _ = Unit
IsReply false m = IsPublic m

-- The steps of authenticate before the registration are those of a connection that has not
-- authenticated, and the later ones of one that has.
abbrev pub Fits : Bool → Task → Type 0
Fits authed (looking p) = authed ≡ false
Fits authed (looking_again p) = authed ≡ false
Fits authed (fitting p u) = authed ≡ false
Fits authed (enrolling p u) = authed ≡ false
Fits authed greeting = authed ≡ true
Fits authed listing = authed ≡ true
Fits authed (showing ids) = authed ≡ true
Fits authed (replying m) = IsReply authed m
Fits authed (refusing m) = IsReply authed m
Fits authed _ = Unit

-- What holds of a connection and of where its read loop stands.
pub record IsSteady (h : List (Uuid × Reading)) (c : Client) : Type 0 where
  pub tenanted : IsTenanted h c
  pub fits : Fits c.authed c.task

pub reply-IsPublic : (b : Bool) (m : Message) → IsReply b m → b ≡ false → IsPublic m
reply-IsPublic true m p e = cc e
reply-IsPublic false m p e = p

pub reply-Delivered :
    (h : List (Uuid × Reading)) (o : Uuid) (b : Bool) (m : Message) → IsReply b m → Delivered h o m
reply-Delivered h o true (reading r) p = absurd p
reply-Delivered h o true auth_ok p = tt
reply-Delivered h o true pong p = tt
reply-Delivered h o true (error code text) p = tt
reply-Delivered h o true (snapshot rs) p = tt
reply-Delivered h o false m p = (All-public h o (m ∷ []) (p, tt)).0

pub error-IsReply : (b : Bool) (code text : String) → IsReply b (error code text)
error-IsReply true code text = tt
error-IsReply false code text = tt

pub pong-IsReply : (b : Bool) → IsReply b pong
pong-IsReply true = tt
pong-IsReply false = tt

module _ (h : List (Uuid × Reading)) where
  -- Writing a message keeps the connection's promise.
  pub write-IsSteady :
      (m : Message) (c : Client)
      → Delivered h c.org_id m
      → (c.authed ≡ false → IsPublic m)
      → IsSteady h c
      → IsSteady h (write_json m c).1
  unfolding write_json
  write-IsSteady m c d p s =
      let t = s.tenanted in
      if-keeps (λ (z : Bool × Client). IsSteady h z.1) c.writable _ _
        (λ _. record {
          tenanted = record {
            silent = λ e. All-append IsPublic c.outbox (m ∷ []) (t.silent e) (p e, tt);
            enrolled = t.enrolled;
            delivered = All-append (Delivered h c.org_id) c.outbox (m ∷ []) t.delivered (d, tt);
          };
          fits = s.fits;
        })
        (λ _. s)

  pub reply-IsSteady :
      (m : Message) (c : Client) → IsReply c.authed m → IsSteady h c → IsSteady h (write_json m c).1
  reply-IsSteady m c p s =
      write-IsSteady m c (reply-Delivered h c.org_id c.authed m p) (reply-IsPublic c.authed m p) s

  pub set_writable-IsSteady : (b : Bool) (c : Client) → IsSteady h c → IsSteady h (set_writable b c)
  set_writable-IsSteady b c s =
      let t = s.tenanted in
      if-keeps (IsSteady h) c.closed _ _ (λ _. s)
        (λ _. record {
          tenanted = record { silent = t.silent; enrolled = t.enrolled; delivered = t.delivered };
          fits = s.fits;
        })

  -- An offer of a broadcast keeps what holds of a connection.
  pub offer-IsSteady :
      (o : Uuid) (r : Reading) (c : Client) → Sent o r h → IsSteady h c → IsSteady h (offer o r c)
  unfolding offer
  offer-IsSteady o r c sent s =
      let keeps = if-keeps (IsSteady h) in
      keeps (not c.registered) _ _ (λ _. s)
        λ _.
          keeps (not c.authed || not (c.org_id == o)) _ _ (λ _. s)
            λ here.
              keeps (filtered_out c.filter r.device_id) _ _ (λ _. s)
                λ _.
                  let own : c.org_id ≡ o = ground (arith, here) in
                  let known : c.authed ≡ true = ground (arith, here) in
                  write-IsSteady (reading r) c (subst (λ q. Sent q r h) (sym own) sent)
                    (λ e. cc (known, e)) s

-- A longer history keeps what a connection holds.
pub IsSteady-later :
    (h : List (Uuid × Reading)) (o : Uuid) (r : Reading) (c : Client)
    → IsSteady h c
    → IsSteady ((o, r) ∷ h) c
IsSteady-later h o r c s = record {
  tenanted = record {
    silent = s.tenanted.silent;
    enrolled = s.tenanted.enrolled;
    delivered = All-sent h c.org_id o r c.outbox s.tenanted.delivered;
  };
  fits = s.fits;
}
