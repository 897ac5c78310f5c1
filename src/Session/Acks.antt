-- ===== src/Session/Acks.antt =====
-- A session's messages that wait for an ACK: what `Ack` and `Close` of session.go do about them, down
-- to the timer.
use long_gw.Base.{ℕ, ◌≡◌, [], true, false, not, ◌&&◌, none, Str, str_eq, if◌then◌else◌, arith}
use long_gw.Base.Dict.{lookup, delete, lookup-delete}
use long_gw.Timer.Shards.{AreTracked}
use long_gw.World.{World, put_session}
use long_gw.Connection.{close_conn}
use long_gw.Scanner.{acks_of, ack_done, forget_ack}
use long_gw.Scanner.Sets.{contains}
use long_gw.Scanner.Timers.{timers_of, ack_done-timers_of, cancel_all-timers_of}
use long_gw.Session.{ack, close_session, close_body, cut_connection, give_up_device, cancel_acks}

ack_done-sessions : (m id : Str) (w : World) → (ack_done m id w).sessions ≡ w.sessions
unfolding ack_done forget_ack
ack_done-sessions m id w = ground arith

-- Where the session has a scanner and its scheduler is consistent, `Ack` takes the message from the
-- pending ones and from those that the scanner knows of the session, and leaves no live timer of it;
-- it keeps all three for each other message of the session.
pub ack-stops :
    (s : ℕ) (m n : Str) (w : World)
    → AreTracked w.timer
    → (w.sessions s).deps.has_acker ≡ true
    → let id = (w.sessions s).session_id in
      let after = ack s m w in
      (lookup n (after.sessions s).pending_acks
        ≡ (if str_eq m n then none else lookup n (w.sessions s).pending_acks))
      × (contains n (acks_of id after.scanner.sess_acks)
          ≡ (not (str_eq m n) && contains n (acks_of id w.scanner.sess_acks)))
      × (timers_of id n after ≡ (if str_eq m n then [] else timers_of id n w))
      × AreTracked after.timer
unfolding ack
ack-stops s m n w t a =
    let sess = w.sessions s in
    let dropped = put_session s (record sess { pending_acks = delete m sess.pending_acks }) w in
    ground (
      arith,
      a,
      ack_done-timers_of sess.session_id m n dropped t,
      ack_done-sessions m sess.session_id dropped,
      lookup-delete m n sess.pending_acks,
    )

before_cancel-frame :
    (s : ℕ) (w : World)
    → let w' = give_up_device s (cut_connection s w) in
      (w'.sessions ≡ w.sessions) × (w'.scanner ≡ w.scanner) × (w'.timer ≡ w.timer)
unfolding give_up_device cut_connection close_conn
before_cancel-frame s w = ground arith

-- Where the session has a scanner, its scheduler is consistent and it is not closed yet, `Close`
-- leaves no live timer of any message that the scanner knows as the session's, and keeps those of
-- its other messages.
pub close_session-timers_of :
    (s : ℕ) (n : Str) (w : World)
    → AreTracked w.timer
    → (w.sessions s).deps.has_acker ≡ true
    → (w.sessions s).done_once ≡ false
    → let id = (w.sessions s).session_id in
      let after = close_session s w in
      AreTracked after.timer
      × (timers_of id n after
          ≡ (if contains n (acks_of id w.scanner.sess_acks) then [] else timers_of id n w))
unfolding close_session close_body cancel_acks
close_session-timers_of s n w t a o =
    let w' = give_up_device s (cut_connection s w) in
    let f = before_cancel-frame s w in
    ground (arith, a, o, f, cancel_all-timers_of (w.sessions s).session_id n w')
