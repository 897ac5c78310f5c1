-- ===== src/SessionRegistry.antt =====
-- The session registry, gateway/internal/session/registry.go, and how a connection is built and torn
-- down, gateway/internal/access/connruntime/factory.go.
pub mod Devices
pub mod Ids
pub mod Retry
pub mod Policy
pub mod Reconnect
use long_gw.Base.{
  ℕ, ◌+◌, ◌≡◌, List, [], ◌∷◌, ◌++◌, Bool, true, false, not, ◌&&◌, Option, none, some, Str, lit,
  str_eq, if◌then◌else◌, ltb, ◌==◌, length,
}
use long_gw.Base.Dict.{Dict, lookup, insert, delete, values}
use long_gw.Router.{Target, register_session, unregister_all}
use long_gw.Connection.{activate, register_conn, unregister_conn}
use long_gw.Scanner.{track, handle_timeout}
use long_gw.Session.{
  target_of, submit, bump_entry, attach_conn, detach_conn, close_session, new_session,
}
use long_gw.World.{
  World, Session, Pending, Deps, Message, Outcome, done, panic, and_then, put_msg, put_session,
  put_conn, set_router, offline_store, TimeoutPayload,
}

-- The registry's maps, over pointers to sessions; `fresh` is where the next session is allocated.
pub record Registry : Type 0 where
  pub by_id : Dict ℕ
  pub user_index : Dict (Dict ℕ)
  pub registry_deps : Deps
  pub has_scanner : Bool
  pub fresh : ℕ

abbrev pub devices_of : Str → Registry → Dict ℕ
devices_of user_id g = elim (lookup user_id g.user_index) [ none ↦ [] | some m ↦ m ]

-- crypto/sha256 and the hex form of its first 16 bytes are the parameter `compute_session_id`.
module _ (compute_session_id : Str → Str → Str) where
  -- `GetOrCreate`: the registry, the world, the session's pointer, and whether it is new.
  unfoldable pub get_or_create :
      Str → Str → Str → Str → Str → Registry → World → Registry × World × ℕ × Bool
  get_or_create user_id device_id app_id device_type biz_code g w =
      elim (lookup device_id (devices_of user_id g)) [
        | some s ↦ (g, w, s, false)
        | none ↦
            let session_id = compute_session_id user_id device_id in
            let deps =
              if g.has_scanner
              then record (g.registry_deps) { has_acker = true }
              else g.registry_deps in
            (
              record g {
                by_id = insert session_id g.fresh g.by_id;
                user_index =
                    insert user_id (insert device_id g.fresh (devices_of user_id g)) g.user_index;
                fresh = g.fresh + 1;
              },
              put_session g.fresh
                  (new_session session_id user_id device_id app_id device_type biz_code deps) w,
              g.fresh,
              true,
            )
      ]

unfoldable pub get_all_by_user : Str → Registry → List ℕ
get_all_by_user user_id g = values (devices_of user_id g)

unfoldable pub count_sessions : Registry → ℕ
count_sessions g = length g.by_id

-- `if maxRetries <= 0 { maxRetries = 5 }`
abbrev pub max_retries_of : Deps → ℕ
max_retries_of d = if d.max_retries == 0 then 5 else d.max_retries

-- The end of a message's retries.
unfoldable pub give_up : ℕ → Str → Pending → World → World
give_up s msg_id e w =
    let sess = w.sessions s in
    let dropped =
      put_session s (record sess { pending_acks = delete msg_id sess.pending_acks }) w in
    elim (w.msgs e.msg).delivery [
      | none ↦ dropped
      | some d ↦ if sess.deps.has_offline && d.offline then offline_store e.msg dropped else dropped
    ]

-- One more try: the entry and its message are counted up, then the session submits the message.
unfoldable pub try_again : ℕ → Str → Pending → Registry → World → Outcome (Unit {0})
try_again s msg_id e g w = and_then (submit s e.msg (bump_entry s msg_id e w)) λ sent w'.
    done tt
      (if sent && g.has_scanner then track (w'.msgs e.msg) (w'.sessions s).session_id w' else w')

-- `handleAckTimeout`, the handler that the registry gives to the scanner.
unfoldable pub handle_ack_timeout : Registry → Str → Str → World → Outcome (Unit {0})
handle_ack_timeout g sess_id msg_id w = elim (lookup sess_id g.by_id) [
  | none ↦ done tt w
  | some s ↦ elim (lookup msg_id (w.sessions s).pending_acks) [
    | none ↦ done tt w
    | some e ↦
        if ltb (max_retries_of (w.sessions s).deps) (e.retry_count + 1)
        then done tt (give_up s msg_id e w)
        else try_again s msg_id e g w
  ]
]

-- The scanner's callback with the registry's handler.
abbrev pub on_timer : Registry → TimeoutPayload → World → Outcome (Unit {0})
on_timer g p w = handle_timeout (handle_ack_timeout g) p w

-- `RegisterSession`, and the kick of the session that it returns.
unfoldable pub register_and_kick : ℕ → World → World
register_and_kick s w =
    let t = target_of s w in
    let (r, kicked) = register_session t.user_id t.device_id t w.router in
    elim kicked [ none ↦ set_router r w | some old ↦ close_session old.ref (set_router r w) ]

-- `AttachConn`, `RegisterSession` and the kick of `CreateAndRun`, for the session at `s` and the new
-- connection at `c`, with the sequence number of `AttachConn`.
unfoldable pub attach_and_register : ℕ → ℕ → World → ℕ × World
attach_and_register s c w =
    let (last_seq, attached) = attach_conn s c w in (last_seq, register_and_kick s attached)

-- `onClose`, when the connection's `Run` ends.
unfoldable pub on_close : ℕ → Str → Dict ℕ → World → Dict ℕ × World
on_close s conn_id conns w =
    let detached = detach_conn s w in
    (
      unregister_conn conn_id conns,
      set_router (unregister_all (target_of s detached) detached.router) detached,
    )
