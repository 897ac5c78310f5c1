-- ===== src/Tests/Data.antt =====
-- A small gateway to run the theorems on: one user with a phone, connected and in one room, and a
-- second session without a connection.
use long_gw.Base.{
  ℕ, [], ◌∷◌, ◌++◌, true, false, Option, none, some, Str, Bytes, lit, ◌==◌, if◌then◌else◌,
}
use long_gw.Protocol.{Wire}
use long_gw.Router.{Target, LocalRouter}
use long_gw.World.{
  World, Message, FrameType, business, kick, Delivery, at_least_once, Conn, conn_active,
  handshaking, Session, active, suspended, Pending, Deps, Pool,
}
use long_gw.SessionRegistry.{Registry}

abbrev pub tiny : Bytes
tiny = 7 ∷ []

abbrev pub pair : Bytes
pair = 7 ∷ 8 ∷ []

abbrev pub qos1 : Delivery
qos1 = record { qos = at_least_once; offline = true; ack_id = none }

abbrev pub message : FrameType → Option Delivery → Message
message kind d = record {
  msg_id = lit "message1";
  kind = kind;
  biz_code = lit "im";
  seq_id = 0;
  expire_at = 0;
  to = some (lit "u1");
  from = none;
  delivery = d;
  trace = some (lit "t1");
  headers = [];
  body = lit "hello";
}

-- Message 0 is a business frame, 1 a kick, 2 has no delivery, and the others have expired.
abbrev pub messages : ℕ → Message
messages p =
    if p == 0
    then message business (some qos1)
    else if p == 1
    then message kick (some qos1)
    else if p == 2
    then message business none
    else record (message business (some qos1)) { expire_at = 500 }

-- Connections 0 and 1 are active, the others shake hands.
abbrev pub connections : ℕ → Conn
connections p = record {
  conn_id = lit "c";
  conn_user = lit "u1";
  device_type = lit "phone";
  conn_state = if p == 0 then conn_active else if p == 1 then conn_active else handshaking;
  next_send_seq = 0;
  write_ch = [];
}

abbrev pub full_deps : Deps
full_deps = record { has_offline = true; has_acker = true; has_worker = true; max_retries = 3 }

abbrev pub waiting : ℕ → Pending
waiting retries = record { msg = 0; retry_count = retries; last_retry_at = 0 }

-- `retries` is how often message 0 was sent again.
abbrev pub session_of : Option ℕ → ℕ → Session
session_of conn retries = record {
  session_id = lit "s1";
  app_id = lit "app";
  device_type = lit "phone";
  user_id = lit "u1";
  device_id = lit "d1";
  biz_code = lit "im";
  conn = conn;
  sub_rooms = lit "r1" ∷ [];
  sub_topics = [];
  last_delivered_seq = 0;
  state = elim conn [ none ↦ suspended | some c ↦ active ];
  suspended_at = 0;
  pending_acks = (lit "message1", waiting retries) ∷ [];
  deps = full_deps;
  done_once = false;
}

-- Session 0 is on connection 0, the others on none; session 2 has used up its retries.
abbrev pub all_sessions : ℕ → Session
all_sessions p =
    if p == 0
    then session_of (some 0) 0
    else if p == 1
    then session_of none 0
    else session_of none 3

abbrev pub target : ℕ → Target
target p = record { ref = p; session_id = lit "s1"; user_id = lit "u1"; device_id = lit "d1" }

-- The router with session `p` under its user, its device and its room.
abbrev pub router_with : ℕ → LocalRouter
router_with p = record {
  user_conns = (lit "u1", (lit "d1", target p) ∷ []) ∷ [];
  device_conn = (lit "d1", target p) ∷ [];
  rooms = (lit "r1", (lit "s1", target p) ∷ []) ∷ [];
  topics = [];
}

abbrev pub empty_router : LocalRouter
empty_router = record { user_conns = []; device_conn = []; rooms = []; topics = [] }

abbrev pub no_jobs : Pool
no_jobs = record { upstream_ch = []; downstream_ch = [] }

abbrev pub world_with : LocalRouter → World
world_with r = record {
  msgs = messages;
  conns = connections;
  sessions = all_sessions;
  router = r;
  scanner = record { ack_timeout = 5000; sess_acks = []; has_handler = true };
  timer = [];
  stored = [];
  pools = (lit "im", no_jobs) ∷ [];
  next_msg = 10;
  clock = 1000;
}

-- The router knows session 0.
abbrev pub online : World
online = world_with (router_with 0)

-- It knows session 1, which has no connection.
abbrev pub offline_only : World
offline_only = world_with (router_with 1)

-- It knows nobody.
abbrev pub nobody : World
nobody = world_with empty_router

-- A registry that knows session `p` by its id.
abbrev pub registry_of : ℕ → Registry
registry_of p = record {
  by_id = (lit "s1", p) ∷ [];
  user_index = [];
  registry_deps = full_deps;
  has_scanner = true;
  fresh = 3;
}

-- Messages that are byte strings, written as they are.
abbrev pub plain : Wire Bytes
plain = record {
  json_marshal = λ m. some m;
  json_unmarshal = λ m. some m;
  proto_marshal = λ m. some m;
  proto_unmarshal = λ m. some m;
  gzip_write = λ m. some m;
  gzip_read = λ m. some m;
}

-- An error payload, as its text.
abbrev pub plain_error : ℕ → Str → Bytes
plain_error code text = text

-- A session id that shows its user and device.
abbrev pub joined : Str → Str → Str
joined user_id device_id = user_id ++ lit ":" ++ device_id
