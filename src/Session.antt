-- ===== src/Session.antt =====
-- The session, gateway/internal/session/session.go. A session is the pointer `s` into the world.
pub mod Acks
pub mod Submit
pub mod Attach
pub mod Close
pub mod Subscriptions
use long_gw.Base.{
  ℕ, ◌+◌, List, [], ◌∷◌, ◌++◌, Bool, true, false, not, ◌&&◌, ◌||◌, Option, none, some, Str, lit,
  str_eq, if◌then◌else◌, length, keep,
}
use long_gw.Base.Dict.{Dict, lookup, insert, delete}
use long_gw.Router.{
  Target, LocalRouter, join_room, leave_room, subscribe, unsubscribe, unregister_all,
  unregister_session,
}
use long_gw.Connection.{conn_submit, close_conn, is_active}
use long_gw.Scanner.{set_add, set_remove, wants_ack, is_at_least_once, track, ack_done, cancel_all}
use long_gw.World.{
  World, Session, SessionState, authenticating, active, suspended, closed, Deps, Pending, Message,
  Delivery, QosClass, at_most_once, Outcome, done, panic, and_then, put_msg, put_session,
  set_router, offline_store, itoa,
}

-- `NewSession`, at a fresh pointer.
unfoldable pub new_session : Str → Str → Str → Str → Str → Str → Deps → Session
new_session session_id user_id device_id app_id device_type biz_code deps = record {
  session_id = session_id;
  app_id = app_id;
  device_type = device_type;
  user_id = user_id;
  device_id = device_id;
  biz_code = biz_code;
  conn = none;
  sub_rooms = [];
  sub_topics = [];
  last_delivered_seq = 0;
  state = authenticating;
  suspended_at = 0;
  pending_acks = [];
  deps = deps;
  done_once = false;
}

-- What the router holds for the session.
abbrev pub target_of : ℕ → World → Target
target_of s w = record {
  ref = s;
  session_id = (w.sessions s).session_id;
  user_id = (w.sessions s).user_id;
  device_id = (w.sessions s).device_id;
}

abbrev pub is_session_active : Session → Bool
is_session_active s = elim s.state [ active ↦ true | _ ↦ false ]

abbrev pub is_at_most_once : QosClass → Bool
is_at_most_once at_most_once = true
is_at_most_once q = false

-- `handleUndelivered`; a message with no delivery is a nil dereference.
unfoldable pub handle_undelivered : ℕ → ℕ → World → Outcome (Unit {0})
handle_undelivered s m w = elim (w.msgs m).delivery [
  | none ↦ panic w
  | some d ↦ done tt (
      if not d.offline || not (w.sessions s).deps.has_offline
      then w
      else if is_at_most_once d.qos
      then w
      else offline_store m w)
]

-- What `Submit` records once the connection took the message.
unfoldable pub record_delivered : ℕ → ℕ → World → World
record_delivered s m w =
    let sess = w.sessions s in
    let msg = w.msgs m in
    let seen = record sess { last_delivered_seq = msg.seq_id } in
    if sess.deps.has_acker && wants_ack msg
    then track msg sess.session_id (
        put_session s
          (record seen {
            pending_acks =
                insert msg.msg_id (record { msg = m; retry_count = 0; last_retry_at = w.clock })
                  sess.pending_acks;
          })
          w)
    else put_session s seen w

-- `Submit` once the connection has answered.
abbrev pub after_conn : ℕ → ℕ → Bool × World → Outcome Bool
after_conn s m (sent, w) =
    if sent
    then done true (record_delivered s m w)
    else (and_then (handle_undelivered s m w) λ _ w'. done false w')

-- `Submit`; the Boolean is its result.
unfoldable pub submit : ℕ → ℕ → World → Outcome Bool
submit s m w = elim (w.sessions s).conn [
  | none ↦ and_then (handle_undelivered s m w) λ _ w'. done false w'
  | some c ↦
      if not (is_active (w.conns c))
      then (and_then (handle_undelivered s m w) λ _ w'. done false w')
      else after_conn s m (conn_submit c m w)
]

-- `AttachConn` restores the subscriptions, one call of the router for each.
unfoldable pub join_rooms : List Str → Target → LocalRouter → LocalRouter
join_rooms [] t r = r
join_rooms (k ∷ ks) t r = join_rooms ks t (join_room k t r)

unfoldable pub subscribe_topics : List Str → Target → LocalRouter → LocalRouter
subscribe_topics [] t r = r
subscribe_topics (k ∷ ks) t r = subscribe_topics ks t (subscribe k t r)

-- `entry.msg.Headers["x-retry-count"] = strconv.Itoa(entry.retryCount)`
abbrev pub with_retry_count : ℕ → Message → Message
with_retry_count n m = record m { headers = insert (lit "x-retry-count") (itoa n) m.headers }

-- A pending entry and its message are counted up in place, for one more try.
unfoldable pub bump_entry : ℕ → Str → Pending → World → World
bump_entry s k e w =
    let n = e.retry_count + 1 in
    let sess = w.sessions s in
    put_msg e.msg (with_retry_count n (w.msgs e.msg)) (
      put_session s
        (record sess {
          pending_acks =
              insert k (record { msg = e.msg; retry_count = n; last_retry_at = w.clock })
                sess.pending_acks;
        })
        w)

-- `if s.deps.Acker != nil { s.deps.Acker.Track(entry.msg, s) }`
unfoldable pub retrack : ℕ → ℕ → World → World
retrack s m w =
    if (w.sessions s).deps.has_acker then track (w.msgs m) (w.sessions s).session_id w else w

-- One entry of the flush on reconnect; what the connection answers is not looked at.
unfoldable pub flush_entry : ℕ → ℕ → Str → Pending → World → World
flush_entry s c k e w = retrack s e.msg (conn_submit c e.msg (bump_entry s k e w)).1

unfoldable pub flush_pending : ℕ → ℕ → Dict Pending → World → World
flush_pending s c [] w = w
flush_pending s c ((k, e) ∷ rest) w = flush_pending s c rest (flush_entry s c k e w)

-- `AttachConn`: the sequence number to replay from, and the world.
unfoldable pub attach_conn : ℕ → ℕ → World → ℕ × World
attach_conn s c w =
    let sess = w.sessions s in
    let attached =
      put_session s (record sess { conn = some c; state = active; suspended_at = 0 })
        (set_router
          (subscribe_topics sess.sub_topics (target_of s w)
            (join_rooms sess.sub_rooms (target_of s w) w.router))
          w) in
    let flushed = flush_pending s c sess.pending_acks attached in
    ((flushed.sessions s).last_delivered_seq, flushed)

-- `DetachConn`, whichever connection the session has by now.
unfoldable pub detach_conn : ℕ → World → World
detach_conn s w =
    let sess = w.sessions s in
    put_session s (record sess { conn = none; state = suspended; suspended_at = w.clock })
      (elim sess.conn [
        | none ↦ w
        | some c ↦ set_router (unregister_all (target_of s w) w.router) w
      ])

-- `Ack`
unfoldable pub ack : ℕ → Str → World → World
ack s msg_id w =
    let sess = w.sessions s in
    let dropped =
      put_session s (record sess { pending_acks = delete msg_id sess.pending_acks }) w in
    if sess.deps.has_acker then ack_done msg_id sess.session_id dropped else dropped

-- `withConn` around a call of the router.
abbrev pub with_conn : ℕ → (LocalRouter → LocalRouter) → World → World
with_conn s f w = elim (w.sessions s).conn [ none ↦ w | some c ↦ set_router (f w.router) w ]

unfoldable pub session_join_room : ℕ → Str → World → World
session_join_room s k w =
    let sess = w.sessions s in
    with_conn s (join_room k (target_of s w))
      (put_session s (record sess { sub_rooms = set_add k sess.sub_rooms }) w)

unfoldable pub session_leave_room : ℕ → Str → World → World
session_leave_room s k w =
    let sess = w.sessions s in
    with_conn s (leave_room k (target_of s w))
      (put_session s (record sess { sub_rooms = set_remove k sess.sub_rooms }) w)

unfoldable pub session_subscribe : ℕ → Str → World → World
session_subscribe s k w =
    let sess = w.sessions s in
    with_conn s (subscribe k (target_of s w))
      (put_session s (record sess { sub_topics = set_add k sess.sub_topics }) w)

unfoldable pub session_unsubscribe : ℕ → Str → World → World
session_unsubscribe s k w =
    let sess = w.sessions s in
    with_conn s (unsubscribe k (target_of s w))
      (put_session s (record sess { sub_topics = set_remove k sess.sub_topics }) w)

-- The connection, where there is one, is closed and its rooms and topics are given up.
unfoldable pub cut_connection : ℕ → World → World
cut_connection s w = elim (w.sessions s).conn [
  | none ↦ w
  | some c ↦ set_router (unregister_all (target_of s w) (close_conn c w).router) (close_conn c w)
]

unfoldable pub cancel_acks : ℕ → World → World
cancel_acks s w =
    if (w.sessions s).deps.has_acker then cancel_all (w.sessions s).session_id w else w

-- `LocalRouter.UnregisterSession(s.userID, s.deviceID)`
unfoldable pub give_up_device : ℕ → World → World
give_up_device s w =
    set_router (unregister_session (w.sessions s).user_id (w.sessions s).device_id w.router) w

abbrev pub mark_closed : ℕ → World → World
mark_closed s w =
    put_session s (record (w.sessions s) { state = closed; pending_acks = []; done_once = true }) w

-- The body of `Close`, which `once` runs.
unfoldable pub close_body : ℕ → World → World
close_body s w = mark_closed s (cancel_acks s (give_up_device s (cut_connection s w)))

unfoldable pub close_session : ℕ → World → World
close_session s w = if (w.sessions s).done_once then w else close_body s w
