-- ===== src/Sdk/Client.antt =====
-- The SDK's client: `BaseClient` of sdk/client.go, and what sdk/tcp/client.go and sdk/ws/client.go do
-- over it. Dialling, sending and the fresh request ids are outside.
pub mod Sessions
pub mod Calls
pub mod Runs
pub mod Reading
pub mod Answers
pub mod Async
use long_gw.Base.{
  ℕ, ◌+◌, ◌%◌, ◌^◌, List, [], ◌∷◌, ◌++◌, Bool, true, false, not, ◌&&◌, ◌||◌, ◌⊎◌, inl, inr, Option,
  none, some, Str, Bytes, lit, str_eq, ltb, ◌==◌, if◌then◌else◌, length,
}
use long_gw.Base.Dict.{Dict, lookup, insert, delete}
use long_gw.Sdk.Signals.{
  ClientSignal, SdkMessage, AuthResponse, AuthRequest, BusinessMessage, SignalType, auth_response,
  subscribe_response, unsubscribe_response, ProtoSignal, ps_auth_response, ps_heartbeat_pong,
  ps_business_down, decode_client_signal, decode_auth_response, decode_business_down,
  encode_auth_request, encode_subscribe_request, encode_unsubscribe_request, encode_business_up,
  encode_logout_request,
}

-- `ConnState`
pub data ConnState : Type 0 where
  unspecified connecting connected authenticated disconnected authentication_failed : ConnState

-- `BaseClient`, with the `conn` of the clients over it. A channel of `pendingResp` has room for one
-- message. `locked` says whether `closeMu` is held; `ticking` whether there is a ticker, `beats` how
-- many heartbeat goroutines were started; `notices` is what the connect handler was told, `handed`
-- what the message handler got, where there are any.
pub record Client : Type 0 where
  pub state : ConnState
  pub auth_resp : Option AuthResponse
  pub next_sequence : ℕ
  pub ticking : Bool
  pub beats : ℕ
  pub msg_ch : List SdkMessage
  pub msg_ch_closed : Bool
  pub pending_resp : Dict (Option SdkMessage)
  pub locked : Bool
  pub is_closed_flag : Bool
  pub cancelled : Bool
  pub dialled : Bool
  pub notices : List ConnState
  pub handed : List SdkMessage

-- `make(chan *Message, 100)`
abbrev pub msg_ch_cap : ℕ
msg_ch_cap = 100

-- `NewBaseClient`
unfoldable pub new_client : Client
new_client = record {
  state = unspecified;
  auth_resp = none;
  next_sequence = 0;
  ticking = false;
  beats = 0;
  msg_ch = [];
  msg_ch_closed = false;
  pending_resp = [];
  locked = false;
  is_closed_flag = false;
  cancelled = false;
  dialled = false;
  notices = [];
  handed = [];
}

-- A call that returns, that waits for ever for a lock that its own goroutine holds, or that panics.
pub data Ran (A : Type 0) : Type 0 where
  returned : A → Client → Ran A
  blocked : Client → Ran A
  panicked : Client → Ran A

abbrev pub client_of : {A : Type 0} → Ran A → Client
client_of (returned a c) = c
client_of (blocked c) = c
client_of (panicked c) = c

abbrev pub after_call : {A B : Type 0} → Ran A → (A → Client → Ran B) → Ran B
after_call (returned a c) f = f a c
after_call (blocked c) f = blocked c
after_call (panicked c) f = panicked c

abbrev pub is_connected_state : ConnState → Bool
is_connected_state connected = true
is_connected_state authenticated = true
is_connected_state _ = false

unfoldable pub is_connected : Client → Bool
is_connected c = is_connected_state c.state

unfoldable pub is_authenticated : Client → Bool
is_authenticated c = elim c.state [ authenticated ↦ true | _ ↦ false ]

-- `closeMu.Lock()`, which waits where the mutex is held.
abbrev pub lock : Client → Ran (Unit {0})
lock c = if c.locked then blocked c else returned tt (record c { locked = true })

abbrev pub unlock : Client → Client
unlock c = record c { locked = false }

-- `IsClosed`
unfoldable pub is_closed : Client → Ran Bool
is_closed c = after_call (lock c) λ _ c'. returned c'.is_closed_flag (unlock c')

-- `NextSequenceID`
unfoldable pub next_sequence_id : Client → ℕ × Client
next_sequence_id c = let n = (c.next_sequence + 1) % 2 ^ 64 in (n, record c { next_sequence = n })

-- `WaitResponse`, `RemovePendingResponse` and `NotifyPendingResponse`.
unfoldable pub wait_response : Str → Client → Client
wait_response id c = record c { pending_resp = insert id none c.pending_resp }

unfoldable pub remove_pending_response : Str → Client → Client
remove_pending_response id c = record c { pending_resp = delete id c.pending_resp }

unfoldable pub notify_pending_response : Str → SdkMessage → Client → Client
notify_pending_response id msg c = elim (lookup id c.pending_resp) [
  | none ↦ c
  | some (some earlier) ↦ c
  | some none ↦ record c { pending_resp = insert id (some msg) c.pending_resp }
]

-- `StartHeartbeat`: `time.NewTicker` panics for an interval of 0.
unfoldable pub start_heartbeat : ℕ → Client → Ran (Unit {0})
start_heartbeat interval c =
    if interval == 0
    then panicked c
    else returned tt (record c { ticking = true; beats = c.beats + 1 })

-- `StopHeartbeat`
unfoldable pub stop_heartbeat : Client → Client
stop_heartbeat c = record c { ticking = false }

-- What `BaseClient.Close` does under its lock.
abbrev pub close_locked : Client → Client
close_locked c =
    if c.is_closed_flag
    then c
    else record c { is_closed_flag = true; cancelled = true; ticking = false; msg_ch_closed = true }

-- `Close`; the transport is closed as well, which is I/O.
unfoldable pub close_client : Client → Ran (Unit {0})
close_client c = after_call (lock c) λ _ c'. returned tt (unlock (close_locked c'))

-- `SetState`, and the call of the connect handler that follows it.
abbrev pub set_state : ConnState → Client → Client
set_state s c = record c { state = s; notices = c.notices ++ (s ∷ []) }

pub data ConnectError : Type 0 where
  already_closed dial_failed : ConnectError

-- Dialling, and what follows; `dials` says whether it succeeds.
unfoldable pub dial : Bool → Client → Ran (Option ConnectError)
dial dials c =
    let trying = record c { state = connecting } in
    if dials
    then returned none (set_state connected (record trying { dialled = true }))
    else returned (some dial_failed) (set_state disconnected trying)

-- `Connect` of the TCP client, which asks `IsClosed` while it holds the mutex.
unfoldable pub tcp_connect : Bool → Client → Ran (Option ConnectError)
tcp_connect dials c = after_call (lock c) λ _ c1. after_call (is_closed c1) λ closed c2.
    if closed then returned (some already_closed) (unlock c2) else dial dials (unlock c2)

-- `Connect` of the WebSocket client.
unfoldable pub ws_connect : Bool → Client → Ran (Option ConnectError)
ws_connect dials c =
    after_call (is_closed c)
      λ closed c'. if closed then returned (some already_closed) c' else dial dials c'

-- An answer that grants, and one that does not, to an authentication.
abbrev pub on_granted : AuthResponse → Client → Ran (Unit {0})
on_granted r c =
    after_call (start_heartbeat r.interval (record c { state = authenticated }))
      λ _ c'. returned tt (record c' { notices = c'.notices ++ (authenticated ∷ []) })

abbrev pub on_auth_response : Option AuthResponse → Client → Ran (Unit {0})
on_auth_response none c = close_client (set_state authentication_failed c)
on_auth_response (some r) c =
    if r.granted then on_granted r c else close_client (set_state authentication_failed c)

-- A message for the application: a send on the closed channel panics, and one that has no room is
-- dropped; the handler gets the message in both other cases.
unfoldable pub deliver_business : SdkMessage → Client → Ran (Unit {0})
deliver_business msg c =
    if c.msg_ch_closed
    then panicked c
    else let queued =
        if ltb (length c.msg_ch) msg_ch_cap
        then record c { msg_ch = c.msg_ch ++ (msg ∷ []) }
        else c in
      returned tt (record queued { handed = queued.handed ++ (msg ∷ []) })

-- `handleSignal`, the same in both clients.
unfoldable pub handle_signal : ClientSignal → Client → Ran (Unit {0})
handle_signal cs c =
    let msg = decode_client_signal cs in
    elim cs.signal_type [
      | ps_auth_response ↦
          let r = decode_auth_response cs in
          after_call (on_auth_response r (record c { auth_resp = r }))
            λ _ c'. returned tt (notify_pending_response msg.request_id msg c')
      | ps_heartbeat_pong ↦ returned tt c
      | ps_business_down ↦ elim (decode_business_down cs) [
        | none ↦ returned tt c
        | some down ↦ deliver_business down c
      ]
      | _ ↦ returned tt (notify_pending_response msg.request_id msg c)
    ]
