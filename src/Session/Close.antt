-- ===== src/Session/Close.antt =====
-- What `Close` of session.go leaves.
use long_gw.Base.{
  ℕ, ◌==◌, ◌≡◌, refl, List, [], ◌∷◌, true, false, none, some, arith, Str, str_eq_refl,
}
use long_gw.Base.Dict.{lookup, lookup-delete}
use long_gw.World.{World, closed, active}
use long_gw.Router.{unregister_session}
use long_gw.Router.Index.{view, view-drop_member}
use long_gw.Connection.{close_conn}
use long_gw.Timer.{sharded_cancel}
use long_gw.Scanner.{ack_key, cancel_all, cancel_timers}
use long_gw.Session.{
  cut_connection, attach_conn, flush_pending, cancel_acks, give_up_device, close_body,
  close_session,
}

cancel_timers-frame :
    (id : Str) (ms : List Str) (w : World)
    → ((cancel_timers id ms w).sessions ≡ w.sessions) × ((cancel_timers id ms w).router ≡ w.router)
unfolding cancel_timers
cancel_timers-frame id [] w = (refl, refl)
cancel_timers-frame id (m ∷ ms) w =
    cancel_timers-frame id ms (record w { timer = (sharded_cancel (ack_key id m) w.timer).0 })

cancel_all-frame :
    (id : Str) (w : World)
    → ((cancel_all id w).sessions ≡ w.sessions) × ((cancel_all id w).router ≡ w.router)
unfolding cancel_all
cancel_all-frame id w = cancel_timers-frame id _ _

cancel_acks-frame :
    (s : ℕ) (w : World)
    → ((cancel_acks s w).sessions ≡ w.sessions) × ((cancel_acks s w).router ≡ w.router)
unfolding cancel_acks
cancel_acks-frame s w = ground (arith, cancel_all-frame (w.sessions s).session_id w)

cut_connection-sessions : (s : ℕ) (w : World) → (cut_connection s w).sessions ≡ w.sessions
unfolding cut_connection close_conn
cut_connection-sessions s w = ground arith

give_up_device-router :
    (s : ℕ) (w : World)
    → let after = give_up_device s w in
      (after.sessions ≡ w.sessions)
      × (view after.router.user_conns (w.sessions s).user_id (w.sessions s).device_id ≡ none)
      × (lookup (w.sessions s).device_id after.router.device_conn ≡ none)
unfolding give_up_device unregister_session
give_up_device-router s w =
    let sess = w.sessions s in
    (
      refl,
      ground (
        arith,
        view-drop_member sess.user_id sess.device_id w.router.user_conns sess.user_id
            sess.device_id,
        str_eq_refl sess.user_id,
        str_eq_refl sess.device_id,
      ),
      ground (
        arith,
        lookup-delete sess.device_id sess.device_id w.router.device_conn,
        str_eq_refl sess.device_id,
      ),
    )

-- The session is closed, waits for no ACK, and the router does not have it under its user and device.
abbrev pub IsGone : ℕ → Str → Str → World → Type 0
IsGone s user_id device_id w =
    ((w.sessions s).state ≡ closed)
    × ((w.sessions s).done_once ≡ true)
    × ((w.sessions s).pending_acks ≡ [])
    × (view w.router.user_conns user_id device_id ≡ none)
    × (lookup device_id w.router.device_conn ≡ none)

-- Closing a session that is not closed yet, and closing it again.
pub close_session-closes :
    (s : ℕ) (w : World)
    → (w.sessions s).done_once ≡ false
    → IsGone s (w.sessions s).user_id (w.sessions s).device_id (close_session s w)
      × (close_session s (close_session s w) ≡ close_session s w)
unfolding close_session close_body
close_session-closes s w h =
    let w1 = cut_connection s w in
    let w2 = give_up_device s w1 in
    let p = cut_connection-sessions s w in
    let q = give_up_device-router s w1 in
    let r = cancel_acks-frame s w2 in ground (arith, h, p, q, r)

-- Closing a session leaves the other sessions alone.
pub close_session-other :
    (s t : ℕ) (w : World) → (t == s) ≡ false → (close_session t w).sessions s ≡ w.sessions s
unfolding close_session close_body
close_session-other s t w h =
    let w1 = cut_connection t w in
    let w2 = give_up_device t w1 in
    let p = cut_connection-sessions t w in
    let q = give_up_device-router t w1 in
    let r = cancel_acks-frame t w2 in ground (arith, h, p, q, r)

-- A closed session that waits for no ACK is active again once a connection is attached, and stays
-- closed for `Close`, which then does nothing.
attach_conn-active :
    (s c : ℕ) (w : World)
    → (w.sessions s).done_once ≡ true
    → (w.sessions s).pending_acks ≡ []
    → let back = (attach_conn s c w).1 in
      ((back.sessions s).state ≡ active)
      × ((back.sessions s).conn ≡ some c)
      × (close_session s back ≡ back)
unfolding attach_conn flush_pending close_session
attach_conn-active s c w h p = rw p (ground (arith, h))

-- Closing a session that is not closed yet closes it, drops what waits for an ACK and takes it out of
-- the router's user and device indexes. Closing it again changes nothing, not even after a connection
-- has been attached to it, which makes it active again.
pub close_session-IsGone :
    (s c : ℕ) (w : World)
    → (w.sessions s).done_once ≡ false
    → let gone = close_session s w in
      let back = (attach_conn s c gone).1 in
      IsGone s (w.sessions s).user_id (w.sessions s).device_id gone
      × (close_session s gone ≡ gone)
      × ((back.sessions s).state ≡ active)
      × ((back.sessions s).conn ≡ some c)
      × (close_session s back ≡ back)
close_session-IsGone s c w h =
    let g = close_session-closes s w h in
    let b = attach_conn-active s c (close_session s w) g.0.1 g.0.2 in (g.0, g.1, b.0, b.1, b.2)
