-- ===== src/Sdk/Client/Calls.antt =====
-- The reading loop of a client, and the calls of the application: sdk/tcp/client.go, and what
-- sdk/ws/client.go has in the same words.
use long_gw.Base.{
  ℕ, List, [], ◌∷◌, Bool, true, false, not, ◌&&◌, ◌||◌, ◌⊎◌, inl, inr, Option, none, some, Str,
  if◌then◌else◌,
}
use long_gw.Base.Dict.{lookup}
use long_gw.Sdk.Signals.{
  ClientSignal, SdkMessage, AuthResponse, AuthRequest, BusinessMessage, SignalType, auth_response,
  subscribe_response, encode_auth_request, encode_subscribe_request, encode_unsubscribe_request,
  encode_business_up, encode_logout_request,
}
use long_gw.Sdk.Client.{
  client_of, after_call, is_connected, is_authenticated, next_sequence_id, wait_response,
  remove_pending_response, stop_heartbeat, close_client, set_state, tcp_connect, ws_connect,
  handle_signal, Client, Ran, disconnected, returned, blocked, panicked,
}

-- The deferred call of `readLoop`, at the end of the loop.
abbrev pub loop_ends : Client → Ran Bool
loop_ends c = after_call (close_client c) λ _ c'. returned false c'

-- What follows a signal: a panic is recovered, and ends the loop.
abbrev pub after_signal : Ran (Unit {0}) → Ran Bool
after_signal (returned _ c) = returned true c
after_signal (blocked c) = blocked c
after_signal (panicked c) = loop_ends c

-- A round of `readLoop` on what the connection gives, an error or a signal: whether it goes on.
unfoldable pub read_round : Option ClientSignal → Client → Ran Bool
read_round next c = if c.cancelled then loop_ends c else elim next [
  | none ↦ loop_ends (set_state disconnected c)
  | some cs ↦ after_signal (handle_signal cs c)
]

-- The loop goes on after a round that says so.
abbrev pub goes_on : Ran Bool → (Client → Ran Bool) → Ran Bool
goes_on (returned true c) next = next c
goes_on (returned false c) next = returned false c
goes_on (blocked c) next = blocked c
goes_on (panicked c) next = panicked c

-- The rounds of `readLoop` on signals that the connection gives one after the other, until one ends it.
unfoldable pub read_all : List ClientSignal → Client → Ran Bool
read_all [] c = returned true c
read_all (cs ∷ rest) c = goes_on (read_round (some cs) c) λ c'. read_all rest c'

-- `SendHeartbeat`; `sends` says whether the write succeeds.
unfoldable pub send_heartbeat : Bool → Client → Client
send_heartbeat sends c = if not c.dialled then c else if sends then c else set_state disconnected c

pub data CallError : Type 0 where
  not_connected not_authenticated send_failed timed_out : CallError
  unexpected : SignalType → CallError

-- The first half of a call that waits for its answer, under a fresh id: the error, or the signal to
-- write, with the answer's channel in place.
abbrev pub ask :
    Bool → CallError → Str → ClientSignal → Client → Client × (CallError ⊎ ClientSignal)
ask allowed e id cs c = if allowed then (wait_response id c, inr cs) else (c, inl e)

-- `Auth`, `Subscribe` and `Unsubscribe` up to the write.
unfoldable pub auth_asks : Str → AuthRequest → Client → Client × (CallError ⊎ ClientSignal)
auth_asks id a c = ask (is_connected c) not_connected id (encode_auth_request id a) c

unfoldable pub subscribe_asks : Str → Str → ℕ → Client → Client × (CallError ⊎ ClientSignal)
subscribe_asks id topic qos c =
    ask (is_authenticated c) not_authenticated id (encode_subscribe_request id topic qos) c

unfoldable pub unsubscribe_asks : Str → Str → Client → Client × (CallError ⊎ ClientSignal)
unsubscribe_asks id topic c =
    ask (is_authenticated c) not_authenticated id (encode_unsubscribe_request id topic) c

-- The answer that waits in the channel of an id.
abbrev pub answer_of : Str → Client → Option SdkMessage
answer_of id c = elim (lookup id c.pending_resp) [ none ↦ none | some m ↦ m ]

-- How the wait of a call ends, once the request is to be written: whether the write succeeds, whether the
-- time of the call is over, and whether its `select` picks the end of the context where an answer waits
-- too.
pub record Wait : Type 0 where
  pub sends : Bool
  pub late : Bool
  pub picks_done : Bool

-- The second half: the write failed, the context of the call, which ends with the client's, is done, or
-- the answer's type is looked at; the channel is given up in each case. With no answer the call waits
-- until its context is done.
unfoldable pub finish : Wait → (SignalType → Bool) → Str → Client → Client × Option CallError
finish wait expects id c = (
  remove_pending_response id c,
  if not wait.sends then some send_failed else elim (answer_of id c) [
    | none ↦ some timed_out
    | some m ↦
        if (c.cancelled || wait.late) && wait.picks_done
        then some timed_out
        else if expects m.signal
        then none
        else some (unexpected m.signal)
  ],
)

abbrev pub is_auth_response : SignalType → Bool
is_auth_response auth_response = true
is_auth_response _ = false

abbrev pub is_subscribe_response : SignalType → Bool
is_subscribe_response subscribe_response = true
is_subscribe_response _ = false

-- The rest of `Auth`: the answer that the client has by then.
unfoldable pub auth_finishes : Wait → Str → Client → Client × (CallError ⊎ Option AuthResponse)
auth_finishes wait id c =
    let (c', e) = finish wait is_auth_response id c in
    (c', elim e [ some x ↦ inl x | none ↦ inr c'.auth_resp ])

-- `SendBusiness`: the error, or the signal that is written under the next sequence number.
unfoldable pub send_business : Str → BusinessMessage → Client → Client × (CallError ⊎ ClientSignal)
send_business id m c =
    if is_authenticated c
    then (let (n, c') = next_sequence_id c in (c', inr (encode_business_up id n m)))
    else (c, inl not_authenticated)

-- `Logout`, which stops the heartbeat.
unfoldable pub logout : Str → ℕ → Client → Client × (CallError ⊎ ClientSignal)
logout id reason c =
    if is_authenticated c
    then (stop_heartbeat c, inr (encode_logout_request id reason))
    else (c, inl not_authenticated)

-- What can happen to a client: a call of the application, with the first and the second half of a
-- call that waits apart, a round of the reading loop, a beat of the heartbeat, and the application's
-- taking a message from the channel.
pub data ClientEvent : Type 0 where
  connects_tcp connects_ws beats_once : Bool → ClientEvent
  reads : Option ClientSignal → ClientEvent
  authenticates : Str → AuthRequest → ClientEvent
  subscribes : Str → Str → ℕ → ClientEvent
  unsubscribes : Str → Str → ClientEvent
  finishes : Wait → Str → ClientEvent
  sends : Str → BusinessMessage → ClientEvent
  logs_out : Str → ℕ → ClientEvent
  closes takes : ClientEvent

abbrev pub take_message : Client → Client
take_message c = elim c.msg_ch [ [] ↦ c | m ∷ rest ↦ record c { msg_ch = rest } ]

unfoldable pub client_step : ClientEvent → Client → Client
client_step (connects_tcp dials) c = client_of (tcp_connect dials c)
client_step (connects_ws dials) c = client_of (ws_connect dials c)
client_step (beats_once ok) c = send_heartbeat ok c
client_step (reads next) c = client_of (read_round next c)
client_step (authenticates id a) c = (auth_asks id a c).0
client_step (subscribes id topic qos) c = (subscribe_asks id topic qos c).0
client_step (unsubscribes id topic) c = (unsubscribe_asks id topic c).0
client_step (finishes wait id) c = (auth_finishes wait id c).0
client_step (sends id m) c = (send_business id m c).0
client_step (logs_out id reason) c = (logout id reason c).0
client_step closes c = client_of (close_client c)
client_step takes c = take_message c

unfoldable pub client_run : List ClientEvent → Client → Client
client_run [] c = c
client_run (e ∷ es) c = client_run es (client_step e c)
