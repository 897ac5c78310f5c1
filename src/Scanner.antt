-- ===== src/Scanner.antt =====
-- The ACK scanner, gateway/internal/delivery/ack/scanner.go.
pub mod Sets
pub mod Timers
use long_gw.Base.{
  ◌+◌, List, [], ◌∷◌, ◌++◌, Bool, true, false, not, none, some, Str, lit, str_eq, if◌then◌else◌,
}
use long_gw.Base.Dict.{Dict, lookup, insert, delete}
use long_gw.Router.{is_empty}
use long_gw.Timer.{sharded_schedule, sharded_cancel, ack_timeout}
use long_gw.World.{
  World, Scanner, Message, TimeoutPayload, QosClass, at_least_once, Outcome, done, and_then,
}

-- A set of message ids.
unfoldable pub set_add : Str → List Str → List Str
set_add x [] = x ∷ []
set_add x (y ∷ ys) = if str_eq y x then y ∷ ys else y ∷ set_add x ys

unfoldable pub set_remove : Str → List Str → List Str
set_remove x [] = []
set_remove x (y ∷ ys) = if str_eq y x then set_remove x ys else y ∷ set_remove x ys

-- `"ack:" + sessID + ":" + msgID`
unfoldable pub ack_key : Str → Str → Str
ack_key sess_id msg_id = lit "ack:" ++ (sess_id ++ (lit ":" ++ msg_id))

abbrev pub acks_of : Str → Dict (List Str) → List Str
acks_of sess_id acks = elim (lookup sess_id acks) [ none ↦ [] | some ids ↦ ids ]

abbrev pub put_scanner : Scanner → World → World
put_scanner s w = record w { scanner = s }

-- The id is removed from the session's set, and an empty set from the map.
unfoldable pub forget_ack : Str → Str → World → World
forget_ack sess_id msg_id w = elim (lookup sess_id w.scanner.sess_acks) [
  | none ↦ w
  | some ids ↦
      let left = set_remove msg_id ids in
      put_scanner
        (record (w.scanner) {
          sess_acks =
              if is_empty left
              then delete sess_id w.scanner.sess_acks
              else insert sess_id left w.scanner.sess_acks;
        })
        w
]

abbrev pub is_at_least_once : QosClass → Bool
is_at_least_once at_least_once = true
is_at_least_once q = false

-- Whether the message asks for QoS 1: `Delivery != nil && Qos == AT_LEAST_ONCE`.
abbrev pub wants_ack : Message → Bool
wants_ack m = elim m.delivery [ none ↦ false | some d ↦ is_at_least_once d.qos ]

unfoldable pub track : Message → Str → World → World
track m sess_id w =
    if wants_ack m
    then record w {
      scanner = record (w.scanner) {
        sess_acks =
            insert sess_id (set_add m.msg_id (acks_of sess_id w.scanner.sess_acks))
              w.scanner.sess_acks;
      };
      timer =
          (sharded_schedule w.clock
            (record {
              key = ack_key sess_id m.msg_id;
              kind = ack_timeout;
              due_at = w.clock + w.scanner.ack_timeout;
              payload = record { sess_id = sess_id; msg_id = m.msg_id };
              has_handler = true;
            })
            w.timer).0;
    }
    else w

-- `Done`
unfoldable pub ack_done : Str → Str → World → World
ack_done msg_id sess_id w =
    forget_ack sess_id msg_id
      (record w { timer = (sharded_cancel (ack_key sess_id msg_id) w.timer).0 })

unfoldable pub cancel_timers : Str → List Str → World → World
cancel_timers sess_id [] w = w
cancel_timers sess_id (m ∷ ms) w =
    cancel_timers sess_id ms (record w { timer = (sharded_cancel (ack_key sess_id m) w.timer).0 })

unfoldable pub cancel_all : Str → World → World
cancel_all sess_id w =
    cancel_timers sess_id (acks_of sess_id w.scanner.sess_acks)
      (put_scanner (record (w.scanner) { sess_acks = delete sess_id w.scanner.sess_acks }) w)

-- The timer's callback; `on_timeout` is the handler that the session registry injects.
unfoldable pub handle_timeout :
    (Str → Str → World → Outcome (Unit {0})) → TimeoutPayload → World → Outcome (Unit {0})
handle_timeout on_timeout p w =
    if not w.scanner.has_handler
    then done tt w
    else and_then (on_timeout p.sess_id p.msg_id w)
        λ _ w'. done tt (forget_ack p.sess_id p.msg_id w')
