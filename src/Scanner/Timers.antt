-- ===== src/Scanner/Timers.antt =====
-- The timers of the messages that wait for an ACK: the scanner and the wheels of its timer together.
use long_gw.Base.{
  ◌+◌, ◌<◌, ◌≡◌, refl, ◌∙◌, List, [], ◌∷◌, ◌++◌, true, false, not, ◌&&◌, ◌||◌, Str, lit, str_eq,
  str_eq_refl, if◌then◌else◌, arith, length,
}
use long_gw.Base.Dict.{lookup-insert}
use long_gw.Timer.{Task, Item, sharded_cancel, shard, ack_timeout}
use long_gw.Timer.Live.{item_of}
use long_gw.Timer.Shards.{AreTracked, live_in, sharded_cancel-live, sharded_schedule-live}
use long_gw.World.{World, Message, TimeoutPayload}
use long_gw.Scanner.{
  ack_key, acks_of, forget_ack, wants_ack, track, ack_done, cancel_timers, cancel_all, set_add,
}
use long_gw.Scanner.Sets.{contains, contains-set_add, forget_ack-contains}

str_eq-append : (p a b : Str) → str_eq (p ++ a) (p ++ b) ≡ str_eq a b
unfolding str_eq
str_eq-append [] a b = refl
str_eq-append (x ∷ p) a b = ground (arith, str_eq-append p a b)

-- One session's messages have keys of their own, none of which is empty.
ack_key_eq : (id m n : Str) → str_eq (ack_key id m) (ack_key id n) ≡ str_eq m n
unfolding ack_key
ack_key_eq id m n =
    str_eq-append (lit "ack:") (id ++ (lit ":" ++ m)) (id ++ (lit ":" ++ n))
    ∙ (str_eq-append id (lit ":" ++ m) (lit ":" ++ n) ∙ str_eq-append (lit ":") m n)

pub ack_key-ne-nil : (id m : Str) → str_eq (ack_key id m) [] ≡ false
unfolding ack_key str_eq
ack_key-ne-nil id m = refl

-- The live timers of a session's message.
abbrev pub timers_of : Str → Str → World → List (Item TimeoutPayload)
timers_of id m w = live_in (ack_key id m) w.timer

-- The task that `Track` schedules for a message.
abbrev pub ack_task : Str → Message → World → Task TimeoutPayload
ack_task id m w = record {
  key = ack_key id m.msg_id;
  kind = ack_timeout;
  due_at = w.clock + w.scanner.ack_timeout;
  payload = record { sess_id = id; msg_id = m.msg_id };
  has_handler = true;
}

-- Tracking a QoS 1 message on a consistent scheduler with at least one wheel leaves exactly one
-- live timer for it, due after the ACK timeout, and keeps those of the session's other messages; the
-- scanner knows it among the session's messages, and the scheduler stays consistent.
pub track-timers_of :
    (m : Message) (id n : Str) (w : World)
    → AreTracked w.timer
    → 0 < length w.timer
    → wants_ack m ≡ true
    → let after = track m id w in
      AreTracked after.timer
      × (timers_of id n after ≡ (
          if str_eq m.msg_id n
          then item_of w.clock (ack_task id m w) (shard (ack_key id m.msg_id) w.timer) ∷ []
          else timers_of id n w))
      × (contains n (acks_of id after.scanner.sess_acks)
          ≡ (str_eq m.msg_id n || contains n (acks_of id w.scanner.sess_acks)))
unfolding track
track-timers_of m id n w t h q =
    let r =
      sharded_schedule-live w.clock (ack_task id m w) (ack_key id n) w.timer t h
        (ack_key-ne-nil id m.msg_id) refl in
    ground (
      arith,
      q,
      r,
      ack_key_eq id m.msg_id n,
      lookup-insert id id (set_add m.msg_id (acks_of id w.scanner.sess_acks)) w.scanner.sess_acks,
      str_eq_refl id,
      contains-set_add n m.msg_id (acks_of id w.scanner.sess_acks),
    )

forget_ack-timer : (id m : Str) (w : World) → (forget_ack id m w).timer ≡ w.timer
unfolding forget_ack
forget_ack-timer id m w = ground arith

-- `Done` on a consistent scheduler leaves no live timer of the message, keeps those of the session's
-- other messages, and takes it, and no other, out of the session's messages.
pub ack_done-timers_of :
    (id m n : Str) (w : World)
    → AreTracked w.timer
    → let after = ack_done m id w in
      AreTracked after.timer
      × (timers_of id n after ≡ (if str_eq m n then [] else timers_of id n w))
      × (contains n (acks_of id after.scanner.sess_acks)
          ≡ (not (str_eq m n) && contains n (acks_of id w.scanner.sess_acks)))
unfolding ack_done
ack_done-timers_of id m n w t =
    let cancelled = record w { timer = (sharded_cancel (ack_key id m) w.timer).0 } in
    ground (
      arith,
      sharded_cancel-live (ack_key id m) (ack_key id n) w.timer t (ack_key-ne-nil id m),
      ack_key_eq id m n,
      forget_ack-timer id m cancelled,
      forget_ack-contains id m n cancelled,
    )

cancel_timers-timers_of :
    (id n : Str) (ms : List Str) (w : World)
    → AreTracked w.timer
    → let after = cancel_timers id ms w in
      AreTracked after.timer
      × (timers_of id n after ≡ (if contains n ms then [] else timers_of id n w))
unfolding cancel_timers
cancel_timers-timers_of id n [] w t = (t, refl)
cancel_timers-timers_of id n (m ∷ ms) w t =
    let r = sharded_cancel-live (ack_key id m) (ack_key id n) w.timer t (ack_key-ne-nil id m) in
    let w' = record w { timer = (sharded_cancel (ack_key id m) w.timer).0 } in
    ground (arith, r, ack_key_eq id m n, cancel_timers-timers_of id n ms w' r.0)

-- `CancelAll` on a consistent scheduler leaves no live timer of any message that the scanner knows
-- as the session's, keeps those of its other messages, and forgets the session.
pub cancel_all-timers_of :
    (id n : Str) (w : World)
    → AreTracked w.timer
    → let after = cancel_all id w in
      AreTracked after.timer
      × (timers_of id n after
          ≡ (if contains n (acks_of id w.scanner.sess_acks) then [] else timers_of id n w))
unfolding cancel_all
cancel_all-timers_of id n w t = cancel_timers-timers_of id n (acks_of id w.scanner.sess_acks) _ t
