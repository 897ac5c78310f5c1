-- ===== src/Sdk/Signals.antt =====
-- The SDK's signals, sdk/types.go and sdk/codec.go. The Go form of the protobuf messages is taken with
-- the fields that the SDK reads and writes.
pub mod Requests
use long_gw.Base.{ℕ, List, [], Bool, Option, none, some, Str, Bytes, ltb, if◌then◌else◌}

-- `BusinessType` and `SignalType`, with the values that have no name.
pub data BusinessType : Type 0 where
  unknown_business im live message : BusinessType
  unnamed_business : ℕ → BusinessType

pub data SignalType : Type 0 where
  unknown_signal heartbeat_ping heartbeat_pong auth_request auth_response message_ack logout_request
        logout_response subscribe_request subscribe_response unsubscribe_request
        unsubscribe_response business_up business_down :
      SignalType
  unnamed_signal : ℕ → SignalType

-- `gateway.BusinessType` and `gateway.SignalType` of the protocol; the SDK does not name the others.
pub data ProtoBusiness : Type 0 where
  pb_unspecified pb_im pb_live pb_message : ProtoBusiness
  pb_other : ℕ → ProtoBusiness

pub data ProtoSignal : Type 0 where
  ps_unspecified ps_heartbeat_ping ps_heartbeat_pong ps_auth_request ps_auth_response ps_message_ack
        ps_logout_request ps_logout_response ps_subscribe_request ps_subscribe_response
        ps_unsubscribe_request ps_unsubscribe_response ps_business_up ps_business_down :
      ProtoSignal
  ps_other : ℕ → ProtoSignal

-- `BusinessType.ToProto`
unfoldable pub business_to_proto : BusinessType → ProtoBusiness
business_to_proto im = pb_im
business_to_proto live = pb_live
business_to_proto message = pb_message
business_to_proto _ = pb_unspecified

-- `BusinessTypeFromProto`
unfoldable pub business_from_proto : ProtoBusiness → BusinessType
business_from_proto pb_im = im
business_from_proto pb_live = live
business_from_proto pb_message = message
business_from_proto _ = unknown_business

-- `SignalType.ToProto`
unfoldable pub signal_to_proto : SignalType → ProtoSignal
signal_to_proto heartbeat_ping = ps_heartbeat_ping
signal_to_proto heartbeat_pong = ps_heartbeat_pong
signal_to_proto auth_request = ps_auth_request
signal_to_proto auth_response = ps_auth_response
signal_to_proto message_ack = ps_message_ack
signal_to_proto logout_request = ps_logout_request
signal_to_proto logout_response = ps_logout_response
signal_to_proto subscribe_request = ps_subscribe_request
signal_to_proto subscribe_response = ps_subscribe_response
signal_to_proto unsubscribe_request = ps_unsubscribe_request
signal_to_proto unsubscribe_response = ps_unsubscribe_response
signal_to_proto business_up = ps_business_up
signal_to_proto business_down = ps_business_down
signal_to_proto _ = ps_unspecified

-- `SignalTypeFromProto`
unfoldable pub signal_from_proto : ProtoSignal → SignalType
signal_from_proto ps_heartbeat_ping = heartbeat_ping
signal_from_proto ps_heartbeat_pong = heartbeat_pong
signal_from_proto ps_auth_request = auth_request
signal_from_proto ps_auth_response = auth_response
signal_from_proto ps_message_ack = message_ack
signal_from_proto ps_logout_request = logout_request
signal_from_proto ps_logout_response = logout_response
signal_from_proto ps_subscribe_request = subscribe_request
signal_from_proto ps_subscribe_response = subscribe_response
signal_from_proto ps_unsubscribe_request = unsubscribe_request
signal_from_proto ps_unsubscribe_response = unsubscribe_response
signal_from_proto ps_business_up = business_up
signal_from_proto ps_business_down = business_down
signal_from_proto _ = unknown_signal

-- `AuthRequest`, `AuthResponse` and `BusinessMessage`.
pub record AuthRequest : Type 0 where
  pub token : Str
  pub user_id : Str
  pub device_id : Str
  pub platform : Str
  pub heartbeat_interval : ℕ

pub record AuthResponse : Type 0 where
  pub code : ℕ
  pub text : Str
  pub granted : Bool
  pub interval : ℕ

pub record BusinessMessage : Type 0 where
  pub msg_id : Str
  pub biz_type : BusinessType
  pub body : Bytes

-- The payload of a `ClientSignal`; the interval of an authentication is optional on the wire.
pub data Payload : Type 0 where
  no_payload : Payload
  ping_payload : ℕ → Payload
  auth_payload : Str → Str → Str → Str → Option ℕ → Payload
  auth_answer : AuthResponse → Payload
  subscribe_payload : Str → ℕ → Payload
  unsubscribe_payload : Str → Payload
  logout_payload : ℕ → Payload
  ack_payload : List Str → Payload
  up_payload down_payload : Str → ProtoBusiness → Bytes → Payload

pub record ClientSignal : Type 0 where
  pub request_id : Str
  pub sequence_id : ℕ
  pub signal_type : ProtoSignal
  pub payload : Payload

-- The SDK's `Message`; the user, the device and the platform are never written.
pub record SdkMessage : Type 0 where
  pub request_id : Str
  pub sequence_id : ℕ
  pub signal : SignalType
  pub msg_id : Str
  pub biz_type : BusinessType
  pub body : Bytes

abbrev pub signal_of : Str → ℕ → ProtoSignal → Payload → ClientSignal
signal_of id seq t p = record { request_id = id; sequence_id = seq; signal_type = t; payload = p }

unfoldable pub encode_heartbeat_ping : Str → ℕ → ClientSignal
encode_heartbeat_ping id timestamp = signal_of id 0 ps_heartbeat_ping (ping_payload timestamp)

unfoldable pub encode_auth_request : Str → AuthRequest → ClientSignal
encode_auth_request id a = signal_of id 0 ps_auth_request (
    auth_payload a.token a.user_id a.device_id a.platform
      (if ltb 0 a.heartbeat_interval then some a.heartbeat_interval else none))

unfoldable pub encode_subscribe_request : Str → Str → ℕ → ClientSignal
encode_subscribe_request id topic qos =
    signal_of id 0 ps_subscribe_request (subscribe_payload topic qos)

unfoldable pub encode_unsubscribe_request : Str → Str → ClientSignal
encode_unsubscribe_request id topic =
    signal_of id 0 ps_unsubscribe_request (unsubscribe_payload topic)

unfoldable pub encode_business_up : Str → ℕ → BusinessMessage → ClientSignal
encode_business_up id seq m =
    signal_of id seq ps_business_up (up_payload m.msg_id (business_to_proto m.biz_type) m.body)

unfoldable pub encode_logout_request : Str → ℕ → ClientSignal
encode_logout_request id reason = signal_of id 0 ps_logout_request (logout_payload reason)

unfoldable pub encode_message_ack : Str → List Str → ClientSignal
encode_message_ack id msg_ids = signal_of id 0 ps_message_ack (ack_payload msg_ids)

-- `DecodeClientSignal`
unfoldable pub decode_client_signal : ClientSignal → SdkMessage
decode_client_signal cs = record {
  request_id = cs.request_id;
  sequence_id = cs.sequence_id;
  signal = signal_from_proto cs.signal_type;
  msg_id = [];
  biz_type = unknown_business;
  body = [];
}

-- `DecodeAuthResponse`: nil without such a payload.
unfoldable pub decode_auth_response : ClientSignal → Option AuthResponse
decode_auth_response cs = elim cs.payload [ auth_answer r ↦ some r | _ ↦ none ]

-- `DecodeBusinessDown`
unfoldable pub decode_business_down : ClientSignal → Option SdkMessage
decode_business_down cs = elim cs.payload [
  | down_payload msg_id biz body ↦ some (record {
    request_id = cs.request_id;
    sequence_id = cs.sequence_id;
    signal = business_down;
    msg_id = msg_id;
    biz_type = business_from_proto biz;
    body = body;
  })
  | _ ↦ none
]
