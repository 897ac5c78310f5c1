-- ===== src/System.antt =====
-- The gateway as a whole: what can happen to it, one event at a time. An event is one call of an
-- entry point, or one turn of a goroutine's loop.
pub mod Keeps
pub mod Sound
pub mod Calls
pub mod Sessions
pub mod Entries
pub mod Pools
pub mod Stages
pub mod Downlinks
pub mod Uplinks
pub mod Wheels
pub mod Runs
pub mod Idle
pub mod Delivery
pub mod Upstream
use long_gw.Base.{ℕ, ◌+◌, List, [], ◌∷◌, Bool, Option, none, some, Str, Bytes, get_elem?, set}
use long_gw.Connection.{write_next}
use long_gw.Factory.{Gateway, Outside, create_and_run, run_ends}
use long_gw.Handler.{dispatch}
use long_gw.Pipeline.Downlink.{downstream_turn}
use long_gw.Session.{
  ack, close_session, session_join_room, session_leave_room, session_subscribe, session_unsubscribe,
}
use long_gw.SessionRegistry.{on_timer}
use long_gw.Timer.{Task, run_turn, next_task}
use long_gw.Worker.{alloc, manager_submit_downstream, upstream_turn}
use long_gw.World.{World, Message, TimeoutPayload, world_of}

-- `nextTask` of the wheel at an index, which drops what was cancelled.
unfoldable pub wheel_next : ℕ → World → World
wheel_next i w = elim (get_elem? w.timer i) [
  | none ↦ w
  | some v ↦ record w { timer = set w.timer i (next_task v).0 }
]

-- A turn of the loop `run` of the wheel at an index, when its timer has fired: the tasks whose
-- handlers it then calls, one after the other.
unfoldable pub wheel_turn : ℕ → World → World × List (Task TimeoutPayload)
wheel_turn i w = elim (get_elem? w.timer i) [
  | none ↦ (w, [])
  | some v ↦ let (v', due) = run_turn w.clock v in (record w { timer = set w.timer i v' }, due)
]

-- What can happen, with pointers to sessions, connections and messages:
--   connects        CreateAndRun on a new connection, as the outside answers
--   disconnects     both loops of a connection have ended
--   receives        a frame is decoded to a new message
--   dispatches      Dispatch of a message, at a time in nanoseconds
--   writes          a turn of writeLoop
--   acks, joins, leaves, subscribes, unsubscribes, closes    the calls of a session
--   pushes          a message for the downstream workers of a domain
--   works_up        a turn of upstreamWorker, as the sender answers
--   works_down      a turn of downstreamWorker
--   waits, fires    nextTask of a wheel, and a turn of its loop whose timer has fired
--   times_out       the handler of a task, whatever it carries
--   passes          time
pub data Event : Type 0 where
  connects : Outside → ℕ → Event
  disconnects : ℕ → ℕ → Event
  receives : Message → Event
  dispatches : ℕ → ℕ → ℕ → ℕ → Event
  writes waits fires passes closes : ℕ → Event
  acks joins leaves subscribes unsubscribes : ℕ → Str → Event
  pushes : Str → ℕ → Event
  works_up : (Message → Option Str) → Str → Event
  works_down : Bool → Str → Event
  times_out : TimeoutPayload → Event

abbrev pub on_world : (World → World) → Gateway → Gateway
on_world f gw = record gw { world = f gw.world }

-- The hash of session ids, the protobuf forms of error payloads, and the rate limiter.
module _ (compute_session_id : Str → Str → Str) (encode : ℕ → Str → Bytes)
    (limiter : Option (Str → Str → Bool)) (encode_failure : Str → Bytes) where
  -- The gateway after an event.
  unfoldable pub perform : Event → Gateway → Gateway
  perform (connects o c) gw = (create_and_run compute_session_id o c gw).1
  perform (disconnects s c) gw = run_ends s c gw
  perform (receives m) gw = on_world (alloc m) gw
  perform (dispatches nanos s c m) gw =
      on_world (λ w. world_of (dispatch encode limiter nanos s c m w)) gw
  perform (writes c) gw = on_world (λ w. (write_next c w).0) gw
  perform (acks s m) gw = on_world (ack s m) gw
  perform (joins s k) gw = on_world (session_join_room s k) gw
  perform (leaves s k) gw = on_world (session_leave_room s k) gw
  perform (subscribes s k) gw = on_world (session_subscribe s k) gw
  perform (unsubscribes s k) gw = on_world (session_unsubscribe s k) gw
  perform (closes s) gw = on_world (close_session s) gw
  perform (pushes biz m) gw = on_world (λ w. (manager_submit_downstream biz m w).0) gw
  perform (works_up send biz) gw =
      on_world (λ w. world_of (upstream_turn send encode_failure biz w)) gw
  perform (works_down has_store biz) gw = on_world (downstream_turn has_store biz) gw
  perform (waits i) gw = on_world (wheel_next i) gw
  perform (fires i) gw = on_world (λ w. (wheel_turn i w).0) gw
  perform (times_out p) gw = on_world (λ w. world_of (on_timer gw.registry p w)) gw
  perform (passes n) gw = on_world (λ w. record w { clock = w.clock + n }) gw

  -- What is reached from a gateway by events, one after the other.
  pub data Reaches : Gateway → Gateway → Type 0 where
    here : (gw : Gateway) → Reaches gw gw
    then_event : (gw gw' : Gateway) (e : Event) → Reaches gw gw' → Reaches gw (perform e gw')
