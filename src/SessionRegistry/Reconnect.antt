-- ===== src/SessionRegistry/Reconnect.antt =====
-- A client that comes back: AttachConn, RegisterSession and the kick, and a late onClose.
use long_gw.Base.{
  ℕ, ◌≡◌, ◌∙◌, ap, sym, true, false, none, some, arith, Str, str_eq_iff, str_eq_refl,
}
use long_gw.Base.Dict.{Dict, lookup, lookup-insert}
use long_gw.World.{World, set_router, active, suspended}
use long_gw.Router.{Target, LocalRouter, register_session}
use long_gw.Router.Index.{view, view-add_member}
use long_gw.Connection.{is_active}
use long_gw.Session.{target_of, attach_conn, detach_conn, close_session}
use long_gw.Session.Attach.{
  Kept, kept, attach_conn-frame, join_rooms-device, subscribe_topics-device,
}
use long_gw.Session.Close.{IsGone, close_session-closes}
use long_gw.SessionRegistry.{register_and_kick, attach_and_register, on_close}

pub attached-device :
    (s c : ℕ) (w : World) → (attach_conn s c w).1.router.device_conn ≡ w.router.device_conn
attached-device s c w =
    ap (λ (p : Kept × LocalRouter). p.1.device_conn) (attach_conn-frame s c w)
    ∙ (subscribe_topics-device (w.sessions s).sub_topics (target_of s w) _
        ∙ join_rooms-device (w.sessions s).sub_rooms (target_of s w) w.router)

attached-kept :
    (s c : ℕ) (w : World)
    → kept ((attach_conn s c w).1.sessions s)
      ≡ record (kept (w.sessions s)) { conn = some c; state = active }
attached-kept s c w = ap (λ (p : Kept × LocalRouter). p.0) (attach_conn-frame s c w)

register_and_kick-same :
    (s : ℕ) (w : World) (old : Target)
    → lookup (w.sessions s).device_id w.router.device_conn ≡ some old
    → old.session_id ≡ (w.sessions s).session_id
    → register_and_kick s w
      ≡ close_session old.ref (
          set_router
            (register_session
              (w.sessions s).user_id
              (w.sessions s).device_id
              (target_of s w)
              w.router).0
            w)
unfolding register_and_kick register_session
register_and_kick-same s w old h i =
    ground (arith, h, i, str_eq_iff old.session_id (w.sessions s).session_id)

register_and_kick-closes :
    (s : ℕ) (w : World) (old : Target)
    → lookup (w.sessions s).device_id w.router.device_conn ≡ some old
    → old.ref ≡ s
    → old.session_id ≡ (w.sessions s).session_id
    → (w.sessions s).done_once ≡ false
    → IsGone s (w.sessions s).user_id (w.sessions s).device_id (register_and_kick s w)
register_and_kick-closes s w old h r i o =
    rw (register_and_kick-same s w old h i, r) (close_session-closes s _ o).0

register_and_kick-new :
    (s : ℕ) (w : World)
    → lookup (w.sessions s).device_id w.router.device_conn ≡ none
    → ((register_and_kick s w).sessions ≡ w.sessions)
      × (view
            (register_and_kick s w).router.user_conns
            (w.sessions s).user_id
            (w.sessions s).device_id
          ≡ some (target_of s w))
      × (lookup (w.sessions s).device_id (register_and_kick s w).router.device_conn
          ≡ some (target_of s w))
unfolding register_and_kick register_session
register_and_kick-new s w h =
    let x = w.sessions s in
    ground (
      arith,
      h,
      str_eq_refl x.user_id,
      str_eq_refl x.device_id,
      view-add_member x.user_id x.device_id (target_of s w) w.router.user_conns x.user_id
          x.device_id,
      lookup-insert x.device_id x.device_id (target_of s w) w.router.device_conn,
    )

-- Where the router has the session, not closed yet, under its own device, attaching it to a new
-- connection and registering it closes it: it waits for no ACK any more, and the router does not
-- have it under its user and device.
pub reconnect_closes :
    (s c : ℕ) (w : World) (old : Target)
    → lookup (w.sessions s).device_id w.router.device_conn ≡ some old
    → old.ref ≡ s
    → old.session_id ≡ (w.sessions s).session_id
    → (w.sessions s).done_once ≡ false
    → IsGone s (w.sessions s).user_id (w.sessions s).device_id (attach_and_register s c w).1
unfolding attach_and_register
reconnect_closes s c w old h r i o =
    let a = (attach_conn s c w).1 in
    let k = attached-kept s c w in
    let user = ap (λ (x : Kept). x.user_id) k in
    let device = ap (λ (x : Kept). x.device_id) k in
    let id = ap (λ (x : Kept). x.session_id) k in
    let fresh = ap (λ (x : Kept). x.done_once) k in
    rw (← user, ← device)
      (register_and_kick-closes s a old (rw (device, attached-device s c w) h) r (i ∙ sym id)
        (fresh ∙ o))

-- Where the router does not know the device, attaching and registering a session leaves it active
-- on the connection, and the router has it under its user and its device.
pub login_attaches :
    (s c : ℕ) (w : World)
    → lookup (w.sessions s).device_id w.router.device_conn ≡ none
    → let after = (attach_and_register s c w).1 in
      ((after.sessions s).state ≡ active)
      × ((after.sessions s).conn ≡ some c)
      × (view after.router.user_conns (w.sessions s).user_id (w.sessions s).device_id
          ≡ some (target_of s w))
      × (lookup (w.sessions s).device_id after.router.device_conn ≡ some (target_of s w))
unfolding attach_and_register
login_attaches s c w h =
    let a = (attach_conn s c w).1 in
    let k = attached-kept s c w in
    let device = ap (λ (x : Kept). x.device_id) k in
    ground (arith, k, register_and_kick-new s a (rw (device, attached-device s c w) h))

-- The `onClose` of any connection, on a session whose own connection is active: the session is
-- suspended and loses that connection, which stays active.
pub on_close-drops_new_conn :
    (s c : ℕ) (id : Str) (conns : Dict ℕ) (w : World)
    → (w.sessions s).conn ≡ some c
    → is_active (w.conns c) ≡ true
    → let after = (on_close s id conns w).1 in
      ((after.sessions s).conn ≡ none)
      × ((after.sessions s).state ≡ suspended)
      × (is_active (after.conns c) ≡ true)
unfolding on_close detach_conn
on_close-drops_new_conn s c id conns w h a = ground arith
