-- ===== src/App.antt =====
-- How the gateway is put together and run: gateway/internal/svc/svc.go, and `Run`, `NewGatewayServer`,
-- `Start` and `registerWorkerPools` of gateway/internal/app. Redis and MySQL are outside: whether a ping
-- is answered and whether the database opens.
pub mod Start
use long_gw.Base.{
  ℕ, zero, suc, List, [], ◌∷◌, Bool, true, false, not, ◌||◌, Option, none, some, Str, lit, str_eq,
  if◌then◌else◌,
}
use long_gw.Router.{new_local_router}
use long_gw.Timer.{Wheel, new_wheel}
use long_gw.World.{
  World, Message, Conn, Session, Deps, TimeoutPayload, other_frame, handshaking, authenticating,
}
use long_gw.SessionRegistry.{Registry}
use long_gw.Factory.{Gateway}
use long_gw.Worker.{add_pool}

-- The configuration, as far as it is read here: `workers` is the map from a business domain to its
-- `upstream_sender`.
pub record Config : Type 0 where
  pub redis_addr : Str
  pub dsn : Str
  pub workers : List (Str × Str)

-- Redis and MySQL.
pub record Backends : Type 0 where
  pub answers_ping : Str → Bool
  pub opens : Str → Bool

pub data StartError : Type 0 where
  redis_not_configured redis_failed dsn_not_configured mysql_failed : StartError
  unknown_sender : Str → StartError

-- `newRedis`
unfoldable pub new_redis : Backends → Config → Option StartError
new_redis b cfg =
    if not (str_eq cfg.redis_addr [])
    then some redis_not_configured
    else if b.answers_ping cfg.redis_addr
    then none
    else some redis_failed

-- `newDB`
unfoldable pub new_db : Backends → Config → Option StartError
new_db b cfg =
    if str_eq cfg.dsn []
    then some dsn_not_configured
    else if b.opens cfg.dsn
    then none
    else some mysql_failed

-- `NewServiceContext`: the error it panics with, if any.
unfoldable pub new_service_context : Backends → Config → Option StartError
new_service_context b cfg = elim (new_redis b cfg) [ some e ↦ some e | none ↦ new_db b cfg ]

abbrev pub is_kafka : Str → Bool
is_kafka sender = str_eq sender (lit "kafka") || str_eq sender []

-- `registerWorkerPools`, over the map in the order in which it is iterated.
unfoldable pub register_worker_pools : List (Str × Str) → World → World × Option StartError
register_worker_pools [] w = (w, none)
register_worker_pools ((biz, sender) ∷ rest) w =
    let more = register_worker_pools rest (add_pool biz w) in
    if is_kafka sender then more else (w, some (unknown_sender sender))

-- `timer.NewScheduler(64)`, as `newShardedScheduler` makes its wheels.
unfoldable pub new_wheels : ℕ → List (Wheel TimeoutPayload)
new_wheels zero = []
new_wheels (suc n) = new_wheel ∷ new_wheels n

-- What an unused pointer reads.
abbrev pub no_message : Message
no_message = record {
  msg_id = [];
  kind = other_frame 0;
  biz_code = [];
  seq_id = 0;
  expire_at = 0;
  to = none;
  from = none;
  delivery = none;
  trace = none;
  headers = [];
  body = [];
}

abbrev pub no_conn : Conn
no_conn = record {
  conn_id = [];
  conn_user = [];
  device_type = [];
  conn_state = handshaking;
  next_send_seq = 0;
  write_ch = [];
}

-- The dependencies that `NewGatewayServer` gives to the session registry: the local router and the
-- offline store; the scanner comes in when a session is made.
abbrev pub gateway_deps : Deps
gateway_deps = record { has_offline = true; has_acker = false; has_worker = false; max_retries = 0 }

abbrev pub no_session : Session
no_session = record {
  session_id = [];
  app_id = [];
  user_id = [];
  device_id = [];
  device_type = [];
  biz_code = [];
  conn = none;
  sub_rooms = [];
  sub_topics = [];
  last_delivered_seq = 0;
  state = authenticating;
  suspended_at = 0;
  pending_acks = [];
  deps = gateway_deps;
  done_once = false;
}

-- The gateway before the worker pools, at the time `now`.
abbrev pub empty_world : ℕ → World
empty_world now = record {
  msgs = λ m. no_message;
  conns = λ c. no_conn;
  sessions = λ s. no_session;
  router = new_local_router;
  scanner = record { ack_timeout = 5000; sess_acks = []; has_handler = true };
  timer = new_wheels 64;
  stored = [];
  pools = [];
  next_msg = 0;
  clock = now;
}

-- `session.NewRegistry`
abbrev pub new_registry : Registry
new_registry = record {
  by_id = [];
  user_index = [];
  registry_deps = gateway_deps;
  has_scanner = true;
  fresh = 0;
}

-- `NewGatewayServer`: a panic, an error, or the gateway.
pub data Started : Type 0 where
  start_panics start_fails : StartError → Started
  started : Gateway → Started

-- The gateway, unless a pool was refused.
abbrev pub with_pools : World × Option StartError → Started
with_pools (w, some e) = start_fails e
with_pools (w, none) = started (record { registry = new_registry; conns = []; world = w })

unfoldable pub new_gateway_server : Backends → Config → ℕ → Started
new_gateway_server b cfg now = elim (new_service_context b cfg) [
  | some e ↦ start_panics e
  | none ↦ with_pools (register_worker_pools cfg.workers (empty_world now))
]

-- How `Run` of bootstrap.go ends: with a panic, with an error that is only logged, or it serves.
pub data RunEnd : Type 0 where
  panics logs : RunEnd
  serves : Gateway → RunEnd

-- `Start`, up to its waiting for a signal; `listens` says whether the address can be listened on.
unfoldable pub start : Bool → Gateway → RunEnd
start listens gw = if listens then serves gw else logs

-- `Run`, of the configuration that is loaded, if any. Errors are logged and not acted on, so that what
-- follows goes through a nil configuration or a nil gateway.
unfoldable pub run : Option Config → Bool → Backends → ℕ → RunEnd
run none listens b now = panics
run (some cfg) listens b now = elim (new_gateway_server b cfg now) [
  | start_panics e ↦ panics
  | start_fails e ↦ panics
  | started gw ↦ start listens gw
]
