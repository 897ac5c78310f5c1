-- ===== src/Sdk/Signals/Requests.antt =====
-- What the protocol's names and the SDK's say of each other.
use long_gw.Base.{ℕ, ◌≡◌, refl, Str, List, [], arith}
use long_gw.Sdk.Signals.{
  BusinessType, unknown_business, im, live, message, unnamed_business, SignalType, unknown_signal,
  heartbeat_ping, auth_request, message_ack, logout_request, subscribe_request, unsubscribe_request,
  business_up, unnamed_signal, business_to_proto, business_from_proto, signal_to_proto,
  signal_from_proto, SdkMessage, AuthRequest, BusinessMessage, encode_heartbeat_ping,
  encode_auth_request, encode_subscribe_request, encode_unsubscribe_request, encode_business_up,
  encode_logout_request, encode_message_ack, decode_client_signal,
}

-- The SDK's own value for what has no name.
abbrev pub named : SignalType → SignalType
named (unnamed_signal n) = unknown_signal
named t = t

abbrev pub named_business : BusinessType → BusinessType
named_business (unnamed_business n) = unknown_business
named_business t = t

business-round_trip :
    (t : BusinessType) → business_from_proto (business_to_proto t) ≡ named_business t
unfolding business_from_proto business_to_proto
business-round_trip im = refl
business-round_trip live = refl
business-round_trip message = refl
business-round_trip unknown_business = refl
business-round_trip (unnamed_business n) = refl

signal-round_trip : (t : SignalType) → signal_from_proto (signal_to_proto t) ≡ named t
unfolding signal_from_proto signal_to_proto
signal-round_trip t = ground arith

-- The SDK's own type of a signal or a message, sent in the protocol's form and read back, is the type
-- it was, and the unknown one where it has no name.
pub types-round_trip :
    (t : SignalType) (b : BusinessType)
    → (signal_from_proto (signal_to_proto t) ≡ named t)
      × (business_from_proto (business_to_proto b) ≡ named_business b)
types-round_trip t b = (signal-round_trip t, business-round_trip b)

abbrev asks_as : Str → ℕ → SignalType → SdkMessage
asks_as id seq t = record {
  request_id = id;
  sequence_id = seq;
  signal = t;
  msg_id = [];
  biz_type = unknown_business;
  body = [];
}

-- Every request of the SDK, decoded again, has its id, its type, and its number where it has one.
pub decode-encode_requests :
    (id : Str) (n : ℕ) (a : AuthRequest) (topic : Str) (m : BusinessMessage) (ids : List Str)
    → (decode_client_signal (encode_heartbeat_ping id n) ≡ asks_as id 0 heartbeat_ping)
      × (decode_client_signal (encode_auth_request id a) ≡ asks_as id 0 auth_request)
      × (decode_client_signal (encode_subscribe_request id topic n)
          ≡ asks_as id 0 subscribe_request)
      × (decode_client_signal (encode_unsubscribe_request id topic)
          ≡ asks_as id 0 unsubscribe_request)
      × (decode_client_signal (encode_business_up id n m) ≡ asks_as id n business_up)
      × (decode_client_signal (encode_logout_request id n) ≡ asks_as id 0 logout_request)
      × (decode_client_signal (encode_message_ack id ids) ≡ asks_as id 0 message_ack)
unfolding decode_client_signal encode_heartbeat_ping encode_auth_request encode_subscribe_request
    encode_unsubscribe_request encode_business_up encode_logout_request encode_message_ack
    signal_from_proto
decode-encode_requests id n a topic m ids = (refl, refl, refl, refl, refl, refl, refl)
