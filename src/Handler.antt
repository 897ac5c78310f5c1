-- ===== src/Handler.antt =====
-- The frame handlers, gateway/internal/access/handler: registry.go, heartbeat.go, logout.go and
-- business.go.
pub mod Dispatch
use long_gw.Base.{ℕ, ◌+◌, List, [], ◌∷◌, Bool, true, false, Option, none, some, Str, Bytes, lit}
use long_gw.Connection.{conn_submit}
use long_gw.Worker.{alloc}
use long_gw.Session.{close_session}
use long_gw.World.{
  World, Message, FrameType, ping, pong, kick, business, handshake, handshake_ack, error_frame,
  other_frame, Outcome, done, panic,
}
use long_gw.Pipeline.{Flow, running, panicked}
use long_gw.Pipeline.Uplink.{UplinkCtx, uplink_run}

-- The handlers that `Build` registers.
pub data Handler : Type 0 where
  heartbeat_handler logout_handler upstream_handler : Handler

-- The registry that `Build` makes, as a map; its `fallback` stays nil.
abbrev pub handlers : FrameType → Option Handler
handlers ping = some heartbeat_handler
handlers kick = some logout_handler
handlers business = some upstream_handler
handlers _ = none

-- A frame of the gateway's own, of a kind, an id, a trace and a body.
abbrev pub frame : FrameType → Str → Option Str → Bytes → Message
frame kind msg_id trace body = record {
  msg_id = msg_id;
  kind = kind;
  biz_code = [];
  seq_id = 0;
  expire_at = 0;
  to = none;
  from = none;
  delivery = none;
  trace = trace;
  headers = [];
  body = body;
}

abbrev pub heartbeat_answer : FrameType → Message
heartbeat_answer ping = frame pong [] none (lit "pong")
heartbeat_answer _ = frame error_frame [] none (lit "invalid message type")

-- `HeartbeatHandler.Handle`
unfoldable pub handle_heartbeat : ℕ → Message → World → World
handle_heartbeat c msg w = (conn_submit c w.next_msg (alloc (heartbeat_answer msg.kind) w)).1

-- `LogoutHandler.Handle`: with no trace context the read of its id panics.
unfoldable pub handle_logout : ℕ → ℕ → Message → World → Outcome (Unit {0})
handle_logout s c msg w = elim msg.trace [
  | none ↦ panic w
  | some id ↦
      done tt (
        close_session s (conn_submit c w.next_msg (alloc (frame kick msg.msg_id (some id) []) w)).1)
]

-- The outcome of a run of the pipeline, whose context nobody reads.
abbrev pub flow_outcome : Flow UplinkCtx → Outcome (Unit {0})
flow_outcome (running ctx w) = done tt w
flow_outcome (panicked ctx w) = panic w

-- The parameters of the uplink pipeline.
module _ (encode : ℕ → Str → Bytes) (limiter : Option (Str → Str → Bool)) (nanos : ℕ) where
  -- `Handle` of the handler that is found; for business frames it runs the uplink pipeline.
  unfoldable pub handle : Handler → ℕ → ℕ → ℕ → World → Outcome (Unit {0})
  handle heartbeat_handler s c m w = done tt (handle_heartbeat c (w.msgs m) w)
  handle logout_handler s c m w = handle_logout s c (w.msgs m) w
  handle upstream_handler s c m w = flow_outcome (uplink_run encode limiter nanos s c m w)

  -- `Dispatch`: for a frame without a handler it calls the nil `fallback`, which panics.
  unfoldable pub dispatch : ℕ → ℕ → ℕ → World → Outcome (Unit {0})
  dispatch s c m w = elim (handlers (w.msgs m).kind) [ none ↦ panic w | some h ↦ handle h s c m w ]
