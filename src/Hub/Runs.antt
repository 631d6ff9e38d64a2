-- ===== src/Hub/Runs.antt =====
-- What holds of the connections of the hub after any sequence of steps.
use iot_backend.Base.{
  ℕ, zero, suc, String, List, [], ◌∷◌, Option, none, some, All, All-append, if-keeps, refl, inl,
  inr,
}
use iot_backend.Models.{Uuid, Reading}
use iot_backend.Auth.{Platform, Principal, Parsed}
use iot_backend.Repository.{Env}
use iot_backend.Hub.{Client, new_client, World, leaving}
use iot_backend.Hub.System.{
  Event, connect, message, lost, turn, network, outside, publish, deliver, Publication, Hub, at,
  is_free, going_on, take_at, offer_at, offered, deliver_at, step, run, recorded, history,
}
use iot_backend.Hub.Isolation.{
  Sent, IsTenanted, IsSteady, set_writable-IsSteady, offer-IsSteady, IsSteady-later,
}
use iot_backend.Hub.Messages.{received-Fits, receive-IsSteady, next-IsSteady}

at-IsSteady :
    (h : List (Uuid × Reading)) (f : Client → World → Client × World)
    → ((c : Client) (w : World) → IsSteady h c → IsSteady h (f c w).0)
    → (i : ℕ) (cs : List Client) (w : World) → All (IsSteady h) cs
    → All (IsSteady h) (at i f cs w).0
at-IsSteady h f keep i [] w a = tt
at-IsSteady h f keep zero (c ∷ cs) w (t, ts) =
    if-keeps (λ (z : List Client × World). All (IsSteady h) z.0) c.closed _ _ (λ _. (t, ts))
      (λ _. (keep c w t, ts))
at-IsSteady h f keep (suc i) (c ∷ cs) w (t, ts) = (t, at-IsSteady h f keep i cs w ts)

later-All :
    (h : List (Uuid × Reading)) (o : Uuid) (r : Reading) (cs : List Client)
    → All (IsSteady h) cs
    → All (IsSteady ((o, r) ∷ h)) cs
later-All h o r [] a = tt
later-All h o r (c ∷ cs) (t, ts) = (IsSteady-later h o r c t, later-All h o r cs ts)

-- A call of Broadcast that holds the mutex is one of the history.
abbrev IsPublished : List (Uuid × Reading) → Publication → Type 0
IsPublished h p = Sent p.org_id p.reading h

later-published :
    (h : List (Uuid × Reading)) (o : Uuid) (r : Reading) (ps : List Publication)
    → All (IsPublished h) ps
    → All (IsPublished ((o, r) ∷ h)) ps
later-published h o r [] a = tt
later-published h o r (p ∷ ps) (t, ts) = (inr t, later-published h o r ps ts)

record IsSteadyHub (h : List (Uuid × Reading)) (hub : Hub) : Type 0 where
  connections : All (IsSteady h) hub.clients
  calls : All (IsPublished h) hub.publishing

IsTenanted-All :
    (h : List (Uuid × Reading)) (cs : List Client) → All (IsSteady h) cs → All (IsTenanted h) cs
IsTenanted-All h [] a = tt
IsTenanted-All h (c ∷ cs) (s, ss) = (s.tenanted, IsTenanted-All h cs ss)

module _ (sys : Platform) (env : Env) (parse_token : String → Parsed Principal) where
  going_on-IsPublished :
      (h : List (Uuid × Reading)) (o : Uuid) (r : Reading) (is : List ℕ)
      → Sent o r h
      → All (IsPublished h) (going_on sys env parse_token o r is)
  going_on-IsPublished h o r [] sent = tt
  going_on-IsPublished h o r (i ∷ is) sent = (sent, tt)

  offer_at-IsSteady :
      (h : List (Uuid × Reading)) (i : ℕ) (o : Uuid) (r : Reading) (cs : List Client)
      → Sent o r h
      → All (IsSteady h) cs
      → All (IsSteady h) (offer_at sys env parse_token i o r cs)
  offer_at-IsSteady h i o r [] sent a = tt
  offer_at-IsSteady h zero o r (c ∷ cs) sent (t, ts) = (offer-IsSteady h o r c sent t, ts)
  offer_at-IsSteady h (suc i) o r (c ∷ cs) sent (t, ts) = (t, offer_at-IsSteady h i o r cs sent ts)

  offered-IsSteady :
      (h : List (Uuid × Reading)) (p : Publication) (k : Option (ℕ × List ℕ)) (cs : List Client)
      → IsPublished h p
      → All (IsSteady h) cs
      → All (IsPublished h) (offered sys env parse_token p k cs).0
        × All (IsSteady h) (offered sys env parse_token p k cs).1
  offered-IsSteady h p none cs sent a = ((sent, tt), a)
  offered-IsSteady h p (some (i, rest)) cs sent a = (
    going_on-IsPublished h p.org_id p.reading rest sent,
    offer_at-IsSteady h i p.org_id p.reading cs sent a,
  )

  deliver_at-IsSteady :
      (h : List (Uuid × Reading)) (b k : ℕ) (ps : List Publication) (cs : List Client)
      → All (IsPublished h) ps
      → All (IsSteady h) cs
      → All (IsPublished h) (deliver_at sys env parse_token b k ps cs).0
        × All (IsSteady h) (deliver_at sys env parse_token b k ps cs).1
  deliver_at-IsSteady h b k [] cs sent a = (tt, a)
  deliver_at-IsSteady h zero k (p ∷ ps) cs (sent, others) a =
      let (left, kept) = offered-IsSteady h p (take_at sys env parse_token k p.pending) cs sent a in
      (All-append (IsPublished h) _ ps left others, kept)
  deliver_at-IsSteady h (suc b) k (p ∷ ps) cs (sent, others) a =
      let (left, kept) = deliver_at-IsSteady h b k ps cs others a in ((sent, left), kept)

  -- A change of one connection, as a step of the hub.
  at-IsSteadyHub :
      (h : List (Uuid × Reading)) (f : Client → World → Client × World) (i : ℕ) (hub : Hub)
      → ((c : Client) (w : World) → IsSteady h c → IsSteady h (f c w).0)
      → IsSteadyHub h hub
      → IsSteadyHub h (record hub {
        clients = (at i f hub.clients hub.world).0;
        world = (at i f hub.clients hub.world).1;
      })
  at-IsSteadyHub h f i hub keep s = record {
    connections = at-IsSteady h f keep i hub.clients hub.world s.connections;
    calls = s.calls;
  }

  step-IsSteadyHub :
      (e : Event) (h : List (Uuid × Reading)) (hub : Hub)
      → IsSteadyHub h hub
      → IsSteadyHub (recorded e h) (step sys env parse_token e hub)
  unfolding step
  step-IsSteadyHub connect h hub s = record {
    connections = All-append (IsSteady h) hub.clients (new_client ∷ []) s.connections (
      record {
        tenanted = record { silent = λ _. tt; enrolled = λ e. cc e; delivered = tt };
        fits = tt;
      },
      tt,
    );
    calls = s.calls;
  }
  step-IsSteadyHub (message i m) h hub s =
      at-IsSteadyHub h _ i hub
        (λ c w t.
          receive-IsSteady sys env parse_token h _ c.task c
            (received-Fits sys env parse_token m c.authed) t)
        s
  step-IsSteadyHub (lost i) h hub s =
      at-IsSteadyHub h _ i hub
        (λ c w t. receive-IsSteady sys env parse_token h leaving c.task c tt t) s
  step-IsSteadyHub (turn i) h hub s =
      at-IsSteadyHub h _ i hub
        (λ c w t. next-IsSteady sys env parse_token h (is_free hub.publishing) c.task c w t.fits t)
        s
  step-IsSteadyHub (network i b) h hub s =
      at-IsSteadyHub h _ i hub (λ c w t. set_writable-IsSteady h b c t) s
  step-IsSteadyHub (outside w) h hub s = record { connections = s.connections; calls = s.calls }
  step-IsSteadyHub (publish o r) h hub s = record {
    connections = later-All h o r hub.clients s.connections;
    calls =
        All-append (IsPublished ((o, r) ∷ h)) _ hub.publishing
          (going_on-IsPublished ((o, r) ∷ h) o r _ (inl (refl, refl)))
          (later-published h o r hub.publishing s.calls);
  }
  step-IsSteadyHub (deliver b k) h hub s =
      let (calls, kept) =
        deliver_at-IsSteady h b k hub.publishing hub.clients s.calls s.connections in
      record { connections = kept; calls = calls }

  run-IsSteadyHub :
      (es : List Event) (h : List (Uuid × Reading)) (hub : Hub)
      → IsSteadyHub h hub
      → IsSteadyHub (history es h) (run sys env parse_token es hub)
  unfolding run history
  run-IsSteadyHub [] h hub s = s
  run-IsSteadyHub (e ∷ es) h hub s =
      run-IsSteadyHub es (recorded e h) (step sys env parse_token e hub)
        (step-IsSteadyHub e h hub s)

  -- After any steps of the read loops, of the calls of Broadcast and of the rest of the system, in
  -- any order that the mutex of the hub allows, from a hub without connections: a connection that has
  -- not authenticated has been sent nothing but errors and pongs and is not registered, and every
  -- live reading that a connection has been sent was broadcast for the organization that it stands
  -- under.
  pub run-IsTenanted :
      (es : List Event) (w : World)
      → All
          (IsTenanted (history es []))
          (run sys env parse_token es (record { clients = []; publishing = []; world = w })).clients
  run-IsTenanted es w =
      IsTenanted-All (history es []) _
        (run-IsSteadyHub es [] (record { clients = []; publishing = []; world = w })
          (record { connections = tt; calls = tt })).connections
