-- ===== src/Session/Attach.antt =====
-- What `AttachConn` of session.go does to the session, the router and the connections.
use long_gw.Base.{ℕ, ◌≡◌, refl, ◌∙◌, ap, List, [], ◌∷◌, Bool, false, Option, some, arith, Str}
use long_gw.Base.Dict.{Dict}
use long_gw.World.{World, Session, Pending, SessionState, active}
use long_gw.Router.{Target, LocalRouter, join_room, subscribe}
use long_gw.Connection.{is_active, conn_submit}
use long_gw.Scanner.{track}
use long_gw.Session.{
  target_of, bump_entry, retrack, flush_entry, flush_pending, attach_conn, join_rooms,
  subscribe_topics,
}

conn_submit-idle : (c m : ℕ) (w : World) → is_active (w.conns c) ≡ false → (conn_submit c m w).1 ≡ w
unfolding conn_submit
conn_submit-idle c m w h = ground arith

retrack-conns : (s m : ℕ) (w : World) → (retrack s m w).conns ≡ w.conns
unfolding retrack track
retrack-conns s m w = ground arith

-- A flush does not touch the connections while the new one is not active.
flush_entry-idle :
    (s c : ℕ) (k : Str) (e : Pending) (w : World)
    → is_active (w.conns c) ≡ false
    → (flush_entry s c k e w).conns ≡ w.conns
unfolding flush_entry bump_entry
flush_entry-idle s c k e w h =
    retrack-conns s e.msg _ ∙ ap (λ (x : World). x.conns) (conn_submit-idle c e.msg _ h)

flush_pending-idle :
    (s c : ℕ) (p : Dict Pending) (w : World)
    → is_active (w.conns c) ≡ false
    → (flush_pending s c p w).conns ≡ w.conns
unfolding flush_pending
flush_pending-idle s c [] w h = refl
flush_pending-idle s c ((k, e) ∷ p) w h =
    let q = flush_entry-idle s c k e w h in
    flush_pending-idle s c p (flush_entry s c k e w) (rw q h) ∙ q

-- Where the new connection is not active yet, `AttachConn` sends none of the pending messages:
-- every connection keeps its channel and its counter.
pub attach_conn-flushes_nothing :
    (s c : ℕ) (w : World) → is_active (w.conns c) ≡ false → (attach_conn s c w).1.conns ≡ w.conns
unfolding attach_conn
attach_conn-flushes_nothing s c w h = flush_pending-idle s c (w.sessions s).pending_acks _ h

pub conn_submit-frame :
    (c m : ℕ) (w : World)
    → ((conn_submit c m w).1.sessions ≡ w.sessions) × ((conn_submit c m w).1.router ≡ w.router)
unfolding conn_submit
conn_submit-frame c m w = ground arith

-- What a flush leaves of a session: all but its pending ACKs.
pub record Kept : Type 0 where
  pub session_id : Str
  pub user_id : Str
  pub device_id : Str
  pub conn : Option ℕ
  pub state : SessionState
  pub done_once : Bool

abbrev pub kept : Session → Kept
kept x = record {
  session_id = x.session_id;
  user_id = x.user_id;
  device_id = x.device_id;
  conn = x.conn;
  state = x.state;
  done_once = x.done_once;
}

abbrev pub frame : ℕ → World → Kept × LocalRouter
frame s w = (kept (w.sessions s), w.router)

bump_entry-frame :
    (s : ℕ) (k : Str) (e : Pending) (w : World) → frame s (bump_entry s k e w) ≡ frame s w
unfolding bump_entry
bump_entry-frame s k e w = ground arith

retrack-frame : (s m : ℕ) (w : World) → frame s (retrack s m w) ≡ frame s w
unfolding retrack track
retrack-frame s m w = ground arith

submit-frame : (s c m : ℕ) (w : World) → frame s (conn_submit c m w).1 ≡ frame s w
submit-frame s c m w = let p = conn_submit-frame c m w in λ i. (kept (p.0 i s), p.1 i)

flush_entry-frame :
    (s c : ℕ) (k : Str) (e : Pending) (w : World) → frame s (flush_entry s c k e w) ≡ frame s w
unfolding flush_entry
flush_entry-frame s c k e w =
    retrack-frame s e.msg _ ∙ (submit-frame s c e.msg _ ∙ bump_entry-frame s k e w)

flush_pending-frame :
    (s c : ℕ) (p : Dict Pending) (w : World) → frame s (flush_pending s c p w) ≡ frame s w
unfolding flush_pending
flush_pending-frame s c [] w = refl
flush_pending-frame s c ((k, e) ∷ p) w =
    flush_pending-frame s c p (flush_entry s c k e w) ∙ flush_entry-frame s c k e w

-- What `AttachConn` leaves, but for the pending ACKs: the session is active on the new connection,
-- and the router has its subscriptions.
pub attach_conn-frame :
    (s c : ℕ) (w : World)
    → frame s (attach_conn s c w).1 ≡ (
      record (kept (w.sessions s)) { conn = some c; state = active },
      subscribe_topics
          (w.sessions s).sub_topics
          (target_of s w)
          (join_rooms (w.sessions s).sub_rooms (target_of s w) w.router),
    )
unfolding attach_conn
attach_conn-frame s c w = flush_pending-frame s c (w.sessions s).pending_acks _ ∙ ground arith

pub join_rooms-device :
    (ks : List Str) (t : Target) (r : LocalRouter) → (join_rooms ks t r).device_conn ≡ r.device_conn
unfolding join_rooms join_room
join_rooms-device [] t r = refl
join_rooms-device (k ∷ ks) t r = join_rooms-device ks t (join_room k t r)

pub subscribe_topics-device :
    (ks : List Str) (t : Target) (r : LocalRouter)
    → (subscribe_topics ks t r).device_conn ≡ r.device_conn
unfolding subscribe_topics subscribe
subscribe_topics-device [] t r = refl
subscribe_topics-device (k ∷ ks) t r = subscribe_topics-device ks t (subscribe k t r)
