-- ===== src/Hub/Messages.antt =====
-- Every step of the read loop of internal/ws/hub.go keeps what holds of its connection.
use iot_backend.Base.{
  String, Bool, true, false, List, [], ◌∷◌, ◌≡◌, refl, arith, if-keeps, subst, sym,
}
use iot_backend.Models.{Uuid, User, Organization, Device, Reading}
use iot_backend.Auth.{Platform, Principal, Parsed, valid, invalid_token}
use iot_backend.Repository.{Result, ok, err, Env}
use iot_backend.Repository.Users.{get_user_by_id, get_user_by_subject, get_organization}
use iot_backend.Hub.{
  Message, auth_ok, error, snapshot, Task, reading_on, looking, looking_again, fitting, enrolling,
  greeting, listing, showing, filtering, narrowing, replying, refusing, leaving, closing, Client,
  Inbound, invalid_json, ping, other, auth, filter_to, write_json, World, user_fits, org_fits,
}
use iot_backend.Hub.System.{
  to_task, parsed, filter_task, received, receive, checked_user, looked_up, looked_again,
  checked_org, enrolled, greeted, listed, narrowed, next,
}
use iot_backend.Hub.Isolation.{
  All-public, IsReply, Fits, IsSteady, error-IsReply, pong-IsReply, reply-IsSteady,
}

authed-write : (m : Message) (c : Client) → (write_json m c).1.authed ≡ c.authed
unfolding write_json
authed-write m c = ground arith

module _ (sys : Platform) (env : Env) (parse_token : String → Parsed Principal) where
  parsed-Fits : (r : Parsed Principal) → Fits false (parsed sys env parse_token r)
  parsed-Fits (invalid_token what) = tt
  parsed-Fits (valid p) = refl

  filter_task-Fits : (ids : List String) → Fits true (filter_task sys env parse_token ids)
  filter_task-Fits [] = tt
  filter_task-Fits (i ∷ is) = tt

  -- The switch of readLoop goes on as the connection's authentication allows.
  pub received-Fits : (m : Inbound) (b : Bool) → Fits b (received sys env parse_token m b)
  received-Fits invalid_json b = error-IsReply b _ _
  received-Fits (auth token) true = tt
  received-Fits (auth token) false = parsed-Fits (parse_token token)
  received-Fits (filter_to ids) true = filter_task-Fits ids
  received-Fits (filter_to ids) false = tt
  received-Fits ping b = pong-IsReply b
  received-Fits other true = tt
  received-Fits other false = tt

  failed-Fits : (b : Bool) → IsReply b (error "unauthorized" "authentication failed")
  failed-Fits b = error-IsReply b _ _

  checked_user-Fits :
      (p : Principal) (u : User) (b : Bool)
      → b ≡ false
      → Fits b (checked_user sys env parse_token p u)
  checked_user-Fits p u b fresh =
      if-keeps (Fits b) (user_fits sys env parse_token p u) _ _ (λ _. fresh) (λ _. failed-Fits b)

  looked_up-Fits :
      (p : Principal) (r : Result User) (b : Bool)
      → b ≡ false
      → Fits b (looked_up sys env parse_token p r)
  looked_up-Fits p (ok u) b fresh = checked_user-Fits p u b fresh
  looked_up-Fits p (err e) b fresh = fresh

  looked_again-Fits :
      (p : Principal) (r : Result User) (b : Bool)
      → b ≡ false
      → Fits b (looked_again sys env parse_token p r)
  looked_again-Fits p (ok u) b fresh = checked_user-Fits p u b fresh
  looked_again-Fits p (err e) b fresh = failed-Fits b

  checked_org-Fits :
      (p : Principal) (u : User) (r : Result Organization) (b : Bool)
      → b ≡ false
      → Fits b (checked_org sys env parse_token p u r)
  checked_org-Fits p u r b fresh =
      if-keeps (Fits b) (org_fits sys env parse_token r) _ _ (λ _. fresh) (λ _. failed-Fits b)

  listed-Fits :
      (r : Result (List Device)) (b : Bool) → b ≡ true → Fits b (listed sys env parse_token r)
  listed-Fits (err e) b known = tt
  listed-Fits (ok ds) b known = known

  narrowed-Fits :
      (ids : List String) (r : Result (List Device)) (b : Bool)
      → Fits b (narrowed sys env parse_token ids r)
  narrowed-Fits ids (err e) b = tt
  narrowed-Fits ids (ok ds) b = tt

  snapshot-IsReply : (rs : List Reading) (b : Bool) → b ≡ true → IsReply b (snapshot rs)
  snapshot-IsReply rs b known = subst (λ b. IsReply b (snapshot rs)) (sym known) tt

  module _ (h : List (Uuid × Reading)) where
    -- A step that only moves the read loop.
    to_task-IsSteady :
        (t : Task) (c : Client) → Fits c.authed t → IsSteady h c → IsSteady h (to_task t c)
    to_task-IsSteady t c f s = record {
      tenanted = record {
        silent = s.tenanted.silent;
        enrolled = s.tenanted.enrolled;
        delivered = s.tenanted.delivered;
      };
      fits = f;
    }

    pub receive-IsSteady :
        (t task : Task) (c : Client)
        → Fits c.authed t
        → IsSteady h c
        → IsSteady h (receive sys env parse_token t task c)
    receive-IsSteady t reading_on c f s = to_task-IsSteady t c f s
    receive-IsSteady t (looking p) c f s = s
    receive-IsSteady t (looking_again p) c f s = s
    receive-IsSteady t (fitting p u) c f s = s
    receive-IsSteady t (enrolling p u) c f s = s
    receive-IsSteady t greeting c f s = s
    receive-IsSteady t listing c f s = s
    receive-IsSteady t (showing ids) c f s = s
    receive-IsSteady t (filtering ids) c f s = s
    receive-IsSteady t (narrowing g) c f s = s
    receive-IsSteady t (replying m) c f s = s
    receive-IsSteady t (refusing m) c f s = s
    receive-IsSteady t leaving c f s = s
    receive-IsSteady t closing c f s = s

    enrolled-IsSteady :
        (p : Principal) (u : User) (c : Client)
        → c.authed ≡ false
        → IsSteady h c
        → IsSteady h (enrolled sys env parse_token p u c)
    enrolled-IsSteady p u c fresh s = record {
      tenanted = record {
        silent = λ e. cc e;
        enrolled = λ _. refl;
        delivered = All-public h p.organization_id c.outbox (s.tenanted.silent fresh);
      };
      fits = refl;
    }

    written-IsSteady :
        (t : Task) (m : Message) (c : Client)
        → IsReply c.authed m
        → Fits c.authed t
        → IsSteady h c
        → IsSteady h (to_task t (write_json m c).1)
    written-IsSteady t m c r f s =
        to_task-IsSteady t (write_json m c).1 (subst (λ b. Fits b t) (sym (authed-write m c)) f)
          (reply-IsSteady h m c r s)

    greeted-Fits : (sent b : Bool) → b ≡ true → Fits b (greeted sys env parse_token sent)
    greeted-Fits true b known = known
    greeted-Fits false b known = failed-Fits b

    -- One step of the read loop keeps what holds of its connection.
    pub next-IsSteady :
        (free : Bool) (t : Task) (c : Client) (w : World)
        → Fits c.authed t
        → IsSteady h c
        → IsSteady h (next sys env parse_token free t c w).0
    unfolding next
    next-IsSteady free reading_on c w f s = s
    next-IsSteady free (looking p) c w f s =
        to_task-IsSteady _ c (looked_up-Fits p (get_user_by_id env p.user_id w.db).0 c.authed f) s
    next-IsSteady free (looking_again p) c w f s =
        to_task-IsSteady _ c
          (looked_again-Fits p (get_user_by_subject env p.subject w.db).0 c.authed f) s
    next-IsSteady free (fitting p u) c w f s =
        to_task-IsSteady _ c
          (checked_org-Fits p u (get_organization env p.organization_id w.db).0 c.authed f) s
    next-IsSteady free (enrolling p u) c w f s =
        if-keeps (IsSteady h) free _ _ (λ _. enrolled-IsSteady p u c f s) (λ _. s)
    next-IsSteady free greeting c w f s =
        written-IsSteady _ auth_ok c (subst (λ b. IsReply b auth_ok) (sym f) tt)
          (greeted-Fits _ c.authed f) s
    next-IsSteady free listing c w f s = to_task-IsSteady _ c (listed-Fits _ c.authed f) s
    next-IsSteady free (showing ids) c w f s =
        to_task-IsSteady _ c (snapshot-IsReply _ c.authed f) s
    next-IsSteady free (filtering ids) c w f s =
        to_task-IsSteady _ c (narrowed-Fits ids _ c.authed) s
    next-IsSteady free (narrowing g) c w f s = record {
      tenanted = record {
        silent = s.tenanted.silent;
        enrolled = s.tenanted.enrolled;
        delivered = s.tenanted.delivered;
      };
      fits = tt;
    }
    next-IsSteady free (replying m) c w f s = written-IsSteady reading_on m c f tt s
    next-IsSteady free (refusing m) c w f s = written-IsSteady leaving m c f tt s
    next-IsSteady free leaving c w f s =
        if-keeps (IsSteady h) free _ _
          (λ _. record {
            tenanted = record {
              silent = s.tenanted.silent;
              enrolled = λ e. cc e;
              delivered = s.tenanted.delivered;
            };
            fits = tt;
          })
          (λ _. s)
    next-IsSteady free closing c w f s = record {
      tenanted = record {
        silent = s.tenanted.silent;
        enrolled = s.tenanted.enrolled;
        delivered = s.tenanted.delivered;
      };
      fits = s.fits;
    }
