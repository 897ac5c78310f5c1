-- ===== src/Sdk/Client/Async.antt =====
-- The calls of the client that do not wait: the Async calls of sdk/tcp/client.go, which
-- sdk/ws/client.go has in the same words.
use long_gw.Base.{ℕ, ◌≡◌, Bool, ◌⊎◌, inl, inr, Option, none, some, Str, arith, if◌then◌else◌}
use long_gw.Base.Dict.{lookup}
use long_gw.Sdk.Signals.{
  ClientSignal, AuthRequest, BusinessMessage, ps_subscribe_response, decode_client_signal,
  encode_auth_request, encode_subscribe_request, encode_unsubscribe_request, encode_business_up,
}
use long_gw.Sdk.Client.{
  Client, client_of, is_connected, is_authenticated, next_sequence_id, notify_pending_response,
  handle_signal,
}
use long_gw.Sdk.Client.Calls.{
  CallError, not_connected, not_authenticated, auth_asks, subscribe_asks, unsubscribe_asks,
  send_business,
}

abbrev refused_or : Bool → CallError → ClientSignal → CallError ⊎ ClientSignal
refused_or allowed e cs = if allowed then inr cs else inl e

-- `AuthAsync`, `SubscribeAsync` and `UnsubscribeAsync` under a fresh id: the error, or the signal that is
-- written.
unfoldable pub auth_async : Str → AuthRequest → Client → CallError ⊎ ClientSignal
auth_async id a c = refused_or (is_connected c) not_connected (encode_auth_request id a)

unfoldable pub subscribe_async : Str → Str → ℕ → Client → CallError ⊎ ClientSignal
subscribe_async id topic qos c =
    refused_or (is_authenticated c) not_authenticated (encode_subscribe_request id topic qos)

unfoldable pub unsubscribe_async : Str → Str → Client → CallError ⊎ ClientSignal
unsubscribe_async id topic c =
    refused_or (is_authenticated c) not_authenticated (encode_unsubscribe_request id topic)

-- `SendBusinessAsync`, which answers nothing: the signal that is written, if any.
unfoldable pub send_business_async : Str → BusinessMessage → Client → Client × Option ClientSignal
send_business_async id m c =
    if is_authenticated c
    then (let (n, c') = next_sequence_id c in (c', some (encode_business_up id n m)))
    else (c, none)

abbrev pub written : CallError ⊎ ClientSignal → Option ClientSignal
written (inl e) = none
written (inr cs) = some cs

-- The calls that do not wait write the signals of those that do, under the same conditions, and a
-- business message takes the same sequence number. Since they wait for nothing, an answer to a
-- subscription under their id, also one that refuses it, is dropped without a trace.
pub async-signals :
    (id topic : Str) (qos : ℕ) (a : AuthRequest) (m : BusinessMessage) (c : Client)
    (cs : ClientSignal)
    → cs.request_id ≡ id
    → cs.signal_type ≡ ps_subscribe_response
    → lookup id c.pending_resp ≡ none
    → (auth_async id a c ≡ (auth_asks id a c).1)
      × (subscribe_async id topic qos c ≡ (subscribe_asks id topic qos c).1)
      × (unsubscribe_async id topic c ≡ (unsubscribe_asks id topic c).1)
      × (send_business_async id m c ≡ ((send_business id m c).0, written (send_business id m c).1))
      × (client_of (handle_signal cs c) ≡ c)
unfolding auth_async auth_asks subscribe_async subscribe_asks unsubscribe_async unsubscribe_asks
    send_business_async send_business handle_signal notify_pending_response decode_client_signal
async-signals id topic qos a m c cs e t p =
    (ground arith, ground arith, ground arith, ground arith, ground (arith, e, t, p))
