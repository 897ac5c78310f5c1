-- ===== src/Factory.antt =====
-- How a connection is built, gateway/internal/access/connruntime/factory.go: the handshake, the
-- session, the connection and its registration, and the answer. Deadlines, reading, the codec,
-- protobuf, uuid, the token's verification and the writing of the answer are outside.
pub mod Serving
pub mod Tokens
pub mod Turns
use long_gw.Base.{
  ℕ, ◌+◌, ◌%◌, ◌^◌, List, [], ◌∷◌, Bool, true, false, not, Option, none, some, Str, Bytes, lit,
  str_eq, if◌then◌else◌,
}
use long_gw.Base.Dict.{Dict}
use long_gw.Connection.{activate, register_conn, unregister_conn}
use long_gw.Handler.{frame}
use long_gw.Session.{detach_conn}
use long_gw.SessionRegistry.{Registry, get_or_create, attach_and_register, on_close}
use long_gw.World.{
  World, Conn, Message, FrameType, handshake, handshake_ack, handshaking, conn_closed, put_conn,
}

-- `authInfo`
pub record AuthInfo : Type 0 where
  pub user_id : Str
  pub device_id : Str
  pub app_id : Str
  pub device_type : Str
  pub biz_code : Str
  pub conn_id : Str

-- `HandshakeRequest`, the fields that are read.
pub record HandshakeRequest : Type 0 where
  pub token : Str
  pub app_id : Str
  pub device_type : Str

pub data HandshakeError : Type 0 where
  no_deadline no_frame bad_frame not_a_handshake bad_payload empty_token not_verified :
      HandshakeError

-- What the factory finds outside for one connection: whether the deadline can be set, the frame
-- that is read, the decoder, the protobuf parser of the request, the verifier of tokens with the
-- user and the device it names, the fresh id, the protobuf form of the answer for a session and the
-- number to replay from, and whether a frame can be written.
pub record Outside : Type 0 where
  pub deadline_set : Bool
  pub raw : Option Bytes
  pub decode_frame : Bytes → Option Message
  pub parse_request : Bytes → Option HandshakeRequest
  pub verify : Str → Option (Str × Str)
  pub new_id : Str
  pub answer_payload : Str → ℕ → Bytes
  pub can_write : Message → Bool

abbrev pub is_handshake : FrameType → Bool
is_handshake handshake = true
is_handshake _ = false

pub data Handshake : Type 0 where
  failed : HandshakeError → Handshake
  accepted : AuthInfo → Message → Handshake

-- The checks of `doHandshake` once the request is parsed.
abbrev pub check_request : Outside → Message → HandshakeRequest → Handshake
check_request o msg r = if str_eq r.token [] then failed empty_token else elim (o.verify r.token) [
  | none ↦ failed not_verified
  | some (user_id, device_id) ↦
      accepted
        (record {
          user_id = user_id;
          device_id = device_id;
          app_id = r.app_id;
          device_type = r.device_type;
          biz_code = msg.biz_code;
          conn_id = o.new_id;
        })
        msg
]

abbrev pub check_frame : Outside → Message → Handshake
check_frame o msg =
    if not (is_handshake msg.kind)
    then failed not_a_handshake
    else elim (o.parse_request msg.body) [
      | none ↦ failed bad_payload
      | some r ↦ check_request o msg r
    ]

-- `doHandshake`
unfoldable pub do_handshake : Outside → Handshake
do_handshake o = if not o.deadline_set then failed no_deadline else elim o.raw [
  | none ↦ failed no_frame
  | some bytes ↦ elim (o.decode_frame bytes) [
    | none ↦ failed bad_frame
    | some msg ↦ check_frame o msg
  ]
]

-- `newConnection`, with the identity that `CreateAndRun` gives it.
unfoldable pub new_connection : AuthInfo → Conn
new_connection a = record {
  conn_id = a.conn_id;
  conn_user = a.user_id;
  device_type = a.device_type;
  conn_state = handshaking;
  next_send_seq = 0;
  write_ch = [];
}

-- The gateway's state: the session registry, the connection registry and what they point to.
pub record Gateway : Type 0 where
  pub registry : Registry
  pub conns : Dict ℕ
  pub world : World

-- How a call of `CreateAndRun` goes on: the handshake failed, which is told to the client with a
-- kick; the connection registry refused the id; the answer could not be written; the goroutine
-- panicked; or the connection runs, for the session, with the number it was told to replay from.
pub data Served : Type 0 where
  rejected : HandshakeError → Served
  refused unanswered crashed : Served
  serving : ℕ → ℕ → Served

-- `lastSeq + 1`, a uint64.
abbrev pub replay_from : ℕ → ℕ
replay_from last_seq = (last_seq + 1) % 2 ^ 64

-- `sendAuthResponse` on an activated connection, which reads the trace id of the request: without a
-- trace context that is a nil dereference.
unfoldable pub send_auth_response :
    Outside → ℕ → Str → ℕ → Str → Message → Registry → Dict ℕ → World → Served × Gateway
send_auth_response o s session_id last_seq conn_id ref g conns w = elim ref.trace [
  | none ↦ (crashed, record { registry = g; conns = conns; world = w })
  | some id ↦
      let answer =
        frame handshake_ack ref.msg_id (some id)
          (o.answer_payload session_id (replay_from last_seq)) in
      if o.can_write answer
      then (serving s (replay_from last_seq), record { registry = g; conns = conns; world = w })
      else (
        unanswered,
        record { registry = g; conns = unregister_conn conn_id conns; world = detach_conn s w },
      )
]

-- `CreateAndRun` from the registration in the connection registry on.
unfoldable pub activate_and_answer :
    Outside → ℕ → ℕ → ℕ → AuthInfo → Message → Registry → Dict ℕ → World → Served × Gateway
activate_and_answer o s c last_seq a ref g conns w =
    let (conns', error) = register_conn a.conn_id c conns in
    elim error [
      | some e ↦ (refused, record { registry = g; conns = conns'; world = detach_conn s w })
      | none ↦
          send_auth_response o s (w.sessions s).session_id last_seq a.conn_id ref g conns'
            (activate c w)
    ]

-- `CreateAndRun` up to `conn.Run`, with the new connection at `c`. Distributed routing is Redis and
-- does not stop it.
unfoldable pub create_and_run : (Str → Str → Str) → Outside → ℕ → Gateway → Served × Gateway
create_and_run compute_session_id o c gw = elim (do_handshake o) [
  | failed e ↦ (rejected e, gw)
  | accepted a ref ↦
      let (g, w, s, is_new) =
        get_or_create compute_session_id a.user_id a.device_id a.app_id a.device_type a.biz_code
          gw.registry gw.world in
      let (last_seq, w') = attach_and_register s c (put_conn c (new_connection a) w) in
      activate_and_answer o s c last_seq a ref g gw.conns w'
]

-- What `Run` of connection.go does when both of its loops have ended.
unfoldable pub run_ends : ℕ → ℕ → Gateway → Gateway
run_ends s c gw =
    let closed_conn = record (gw.world.conns c) { conn_state = conn_closed } in
    let (conns, w) =
      on_close s (gw.world.conns c).conn_id gw.conns (put_conn c closed_conn gw.world) in
    record gw { conns = conns; world = w }
