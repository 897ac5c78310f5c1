-- ===== src/World.antt =====
-- The state that the gateway's components share through pointers: messages, connections, sessions,
-- the local router, the ACK scanner with its timer, and what went to the offline store.
use long_gw.Base.{
  ℕ, zero, suc, ◌+◌, ◌/◌, ◌%◌, List, [], ◌∷◌, ◌++◌, Bool, Option, Str, Bytes, ltb, ◌==◌,
  if◌then◌else◌,
}
use long_gw.Base.Dict.{Dict}
use long_gw.Router.{LocalRouter}
use long_gw.Timer.{Wheel}

-- `FrameType`, as far as the gateway names it.
pub data FrameType : Type 0 where
  ping pong kick business handshake handshake_ack error_frame : FrameType
  other_frame : ℕ → FrameType

pub data QosClass : Type 0 where
  unspecified at_most_once at_least_once : QosClass

pub record Delivery : Type 0 where
  pub qos : QosClass
  pub offline : Bool
  pub ack_id : Option Str

-- A `*gateway.Message`: pointers that may be nil are options, `to` and `from` hold the key of the
-- route target, `trace` the trace id. A nil map of headers reads and writes as an empty one. A
-- negative expiry never counts, as 0 does not.
pub record Message : Type 0 where
  pub msg_id : Str
  pub kind : FrameType
  pub biz_code : Str
  pub seq_id : ℕ
  pub expire_at : ℕ
  pub to : Option Str
  pub from : Option Str
  pub delivery : Option Delivery
  pub trace : Option Str
  pub headers : Dict Str
  pub body : Bytes

-- connruntime.State
pub data ConnState : Type 0 where
  handshaking conn_active closing conn_closed : ConnState

-- A `*Connection`, without its transport, codec and contexts, the times for the watchdog, and the
-- parts of its identity that its session has as well; its write channel holds pointers to messages.
pub record Conn : Type 0 where
  pub conn_id : Str
  pub conn_user : Str
  pub device_type : Str
  pub conn_state : ConnState
  pub next_send_seq : ℕ
  pub write_ch : List ℕ

-- session.State
pub data SessionState : Type 0 where
  authenticating active suspended closed : SessionState

-- `pendingEntry`, without the time of the first try, which nothing reads.
pub record Pending : Type 0 where
  pub msg : ℕ
  pub retry_count : ℕ
  pub last_retry_at : ℕ

-- `Deps`: which of the optional parts are there, and `RetryPolicy.MaxRetries`; the other parts are the
-- fields of `World`, and its durations are not read here.
pub record Deps : Type 0 where
  pub has_offline : Bool
  pub has_acker : Bool
  pub has_worker : Bool
  pub max_retries : ℕ

-- A `*Session`. `conn` is the pointer to its connection, `done_once` the state of `once`; the counter
-- of connections, which nothing moves, is left out.
pub record Session : Type 0 where
  pub session_id : Str
  pub app_id : Str
  pub user_id : Str
  pub device_id : Str
  pub device_type : Str
  pub biz_code : Str
  pub conn : Option ℕ
  pub sub_rooms : List Str
  pub sub_topics : List Str
  pub last_delivered_seq : ℕ
  pub state : SessionState
  pub suspended_at : ℕ
  pub pending_acks : Dict Pending
  pub deps : Deps
  pub done_once : Bool

-- `timeoutPayload`
pub record TimeoutPayload : Type 0 where
  pub sess_id : Str
  pub msg_id : Str

pub record Scanner : Type 0 where
  pub ack_timeout : ℕ
  pub sess_acks : Dict (List Str)
  pub has_handler : Bool

-- `UpstreamJob`: pointers to the sender's session and to the message.
pub record UpstreamJob : Type 0 where
  pub job_session : ℕ
  pub job_msg : ℕ

-- The channels of a `WorkerPool`; a downstream job is a pointer to a message.
pub record Pool : Type 0 where
  pub upstream_ch : List UpstreamJob
  pub downstream_ch : List ℕ

-- `next_msg` is where the next message is allocated, `clock` the time in milliseconds.
pub record World : Type 0 where
  pub msgs : ℕ → Message
  pub conns : ℕ → Conn
  pub sessions : ℕ → Session
  pub router : LocalRouter
  pub scanner : Scanner
  pub timer : List (Wheel TimeoutPayload)
  pub stored : List Message
  pub pools : Dict Pool
  pub next_msg : ℕ
  pub clock : ℕ

-- A call that can panic. A panic keeps what was written before it.
pub data Outcome {ℓ} (A : Type ℓ) : Type ℓ where
  done : A → World → Outcome A
  panic : World → Outcome A

abbrev pub and_then {ℓ κ} :
    {A : Type ℓ} {B : Type κ} → Outcome A → (A → World → Outcome B) → Outcome B
and_then (done a w) f = f a w
and_then (panic w) f = panic w

abbrev pub world_of {ℓ} : {A : Type ℓ} → Outcome A → World
world_of (done a w) = w
world_of (panic w) = w

-- A write through a pointer.
abbrev pub update {ℓ} : {A : Type ℓ} → (ℕ → A) → ℕ → A → ℕ → A
update f p v q = if p == q then v else f q

abbrev pub put_msg : ℕ → Message → World → World
put_msg p m w = record w { msgs = update w.msgs p m }

abbrev pub put_conn : ℕ → Conn → World → World
put_conn p c w = record w { conns = update w.conns p c }

abbrev pub put_session : ℕ → Session → World → World
put_session p s w = record w { sessions = update w.sessions p s }

abbrev pub set_router : LocalRouter → World → World
set_router r w = record w { router = r }

-- A call of the offline store, which logs its error at most.
abbrev pub offline_store : ℕ → World → World
offline_store m w = record w { stored = w.stored ++ (w.msgs m ∷ []) }

-- `strconv.Itoa`: `suc n` rounds are enough for the digits of `n`.
unfoldable pub itoa_loop : ℕ → ℕ → Str
itoa_loop zero n = []
itoa_loop (suc fuel) n =
    let high = itoa_loop fuel (n / 10) in
    if ltb n 10 then (48 + n) ∷ [] else high ++ ((48 + n % 10) ∷ [])

unfoldable pub itoa : ℕ → Str
unfolding itoa_loop
itoa n = itoa_loop (suc n) n
