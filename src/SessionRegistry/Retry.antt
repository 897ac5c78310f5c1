-- ===== src/SessionRegistry/Retry.antt =====
-- How the retries of a QoS 1 message go, over registry.go, session.go and scanner.go.
use long_gw.Base.{
  ℕ, ◌+◌, ◌≤◌, ◌<◌, ◌≡◌, [], ◌∷◌, true, false, none, some, arith, Str, str_eq_refl, if◌then◌else◌,
  ◌&&◌, ◌++◌,
}
use long_gw.Base.Dict.{lookup, insert, lookup-insert, lookup-delete}
use long_gw.World.{World, Delivery, Pending, done, world_of}
use long_gw.Connection.{conn_submit}
use long_gw.Scanner.{wants_ack, track, handle_timeout, forget_ack, acks_of}
use long_gw.Scanner.Sets.{contains, forget_ack-contains}
use long_gw.Session.{handle_undelivered, record_delivered, submit, bump_entry}
use long_gw.Session.Submit.{deliverable}
use long_gw.SessionRegistry.{
  Registry, max_retries_of, give_up, try_again, handle_ack_timeout, on_timer,
}

-- The message waits for its ACK: the registry knows the session, which has it pending.
pub record Waits (g : Registry) (w : World) (sess_id msg_id : Str) (s : ℕ) (e : Pending)
    : Type 0 where
  pub known : lookup sess_id g.by_id ≡ some s
  pub pending : lookup msg_id (w.sessions s).pending_acks ≡ some e
  pub own_id : (w.msgs e.msg).msg_id ≡ msg_id
  pub qos1 : wants_ack (w.msgs e.msg) ≡ true

-- A pending message that has been retried as often as is allowed: the timeout drops it from the
-- pending ones, stores it exactly where it asks for that and there is a store, and touches
-- neither connections nor the timer.
pub handle_ack_timeout-gives_up :
    (g : Registry) (w : World) (sess_id msg_id : Str) (s : ℕ) (e : Pending)
    → Waits g w sess_id msg_id s e
    → max_retries_of (w.sessions s).deps ≤ e.retry_count
    → let after = world_of (handle_ack_timeout g sess_id msg_id w) in
      (lookup msg_id (after.sessions s).pending_acks ≡ none)
      × (after.conns ≡ w.conns)
      × (after.timer ≡ w.timer)
      × (after.stored ≡ (elim (w.msgs e.msg).delivery [
        | none ↦ w.stored
        | some d ↦
            if (w.sessions s).deps.has_offline && d.offline
            then w.stored ++ (w.msgs e.msg ∷ [])
            else w.stored
      ]))
unfolding handle_ack_timeout give_up
handle_ack_timeout-gives_up g w sess_id msg_id s e h k = ground (
  arith,
  h.known,
  h.pending,
  str_eq_refl msg_id,
  lookup-delete msg_id msg_id (w.sessions s).pending_acks,
)

-- A pending message that has been retried less often than is allowed, and that a session with a
-- scanner can deliver: the retry leaves it pending with a count of 0.
pub handle_ack_timeout-resets_count :
    (g : Registry) (w : World) (sess_id msg_id : Str) (s : ℕ) (e : Pending)
    → Waits g w sess_id msg_id s e
    → (w.sessions s).deps.has_acker ≡ true
    → e.retry_count < max_retries_of (w.sessions s).deps
    → deliverable s w ≡ true
    → lookup msg_id ((world_of (handle_ack_timeout g sess_id msg_id w)).sessions s).pending_acks
      ≡ some (record { msg = e.msg; retry_count = 0; last_retry_at = w.clock })
unfolding handle_ack_timeout try_again bump_entry submit conn_submit record_delivered track
handle_ack_timeout-resets_count g w sess_id msg_id s e h a k d = ground (
  arith,
  h.known,
  h.pending,
  h.own_id,
  h.qos1,
  str_eq_refl msg_id,
  lookup-insert msg_id msg_id (record { msg = e.msg; retry_count = 0; last_retry_at = w.clock })
      (insert msg_id
        (record { msg = e.msg; retry_count = e.retry_count + 1; last_retry_at = w.clock })
        (w.sessions s).pending_acks),
)

-- A pending message with a delivery that has been retried less often than is allowed, and that
-- the session cannot deliver: the timeout counts the retry, keeps the message pending, and sets
-- no timer.
pub handle_ack_timeout-counts :
    (g : Registry) (w : World) (sess_id msg_id : Str) (s : ℕ) (e : Pending) (d : Delivery)
    → Waits g w sess_id msg_id s e
    → (w.msgs e.msg).delivery ≡ some d
    → e.retry_count < max_retries_of (w.sessions s).deps
    → deliverable s w ≡ false
    → let after = world_of (handle_ack_timeout g sess_id msg_id w) in
      (lookup msg_id (after.sessions s).pending_acks
        ≡ some (record { msg = e.msg; retry_count = e.retry_count + 1; last_retry_at = w.clock }))
      × (after.timer ≡ w.timer)
unfolding handle_ack_timeout try_again bump_entry submit conn_submit handle_undelivered
handle_ack_timeout-counts g w sess_id msg_id s e d h q k u = ground (
  arith,
  h.known,
  h.pending,
  h.own_id,
  h.qos1,
  str_eq_refl msg_id,
  lookup-insert msg_id msg_id
      (record { msg = e.msg; retry_count = e.retry_count + 1; last_retry_at = w.clock })
      (w.sessions s).pending_acks,
)

forget_ack-sessions :
    (sess_id msg_id : Str) (w : World) → (forget_ack sess_id msg_id w).sessions ≡ w.sessions
unfolding forget_ack
forget_ack-sessions sess_id msg_id w = ground arith

handle_ack_timeout-done :
    (g : Registry) (w : World) (sess_id msg_id : Str) (s : ℕ) (e : Pending)
    → Waits g w sess_id msg_id s e
    → e.retry_count < max_retries_of (w.sessions s).deps
    → deliverable s w ≡ true
    → handle_ack_timeout g sess_id msg_id w
      ≡ done tt (world_of (handle_ack_timeout g sess_id msg_id w))
unfolding handle_ack_timeout try_again bump_entry submit conn_submit
handle_ack_timeout-done g w sess_id msg_id s e h k d = ground (arith, h.known, h.pending)

-- A pending message that has been retried less often than is allowed, and that a session with a
-- scanner can deliver: after the timer's callback it is still pending, and the scanner does not
-- have it among the session's messages, whose timers a close cancels.
pub on_timer-untracked :
    (g : Registry) (w : World) (sess_id msg_id : Str) (s : ℕ) (e : Pending)
    → Waits g w sess_id msg_id s e
    → w.scanner.has_handler ≡ true
    → (w.sessions s).deps.has_acker ≡ true
    → e.retry_count < max_retries_of (w.sessions s).deps
    → deliverable s w ≡ true
    → let after = world_of (on_timer g (record { sess_id = sess_id; msg_id = msg_id }) w) in
      (lookup msg_id (after.sessions s).pending_acks
        ≡ some (record { msg = e.msg; retry_count = 0; last_retry_at = w.clock }))
      × (contains msg_id (acks_of sess_id after.scanner.sess_acks) ≡ false)
unfolding handle_timeout
on_timer-untracked g w sess_id msg_id s e h q a k d =
    let after = world_of (handle_ack_timeout g sess_id msg_id w) in
    ground (
      arith,
      q,
      handle_ack_timeout-done g w sess_id msg_id s e h k d,
      handle_ack_timeout-resets_count g w sess_id msg_id s e h a k d,
      forget_ack-sessions sess_id msg_id after,
      forget_ack-contains sess_id msg_id msg_id after,
      str_eq_refl msg_id,
    )
