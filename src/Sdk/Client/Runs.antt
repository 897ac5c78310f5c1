-- ===== src/Sdk/Client/Runs.antt =====
-- What holds of a client however it is used.
use long_gw.Base.{◌≡◌, refl, List, [], ◌∷◌, Bool, true, false, Option, none, some, Str, arith, inr}
use long_gw.Sdk.Signals.{
  ClientSignal, AuthResponse, BusinessMessage, ps_auth_response, decode_auth_response, auth_answer,
  encode_business_up,
}
use long_gw.Sdk.Client.{
  Client, disconnected, authenticated, Ran, returned, blocked, panicked, client_of, after_call,
  is_closed, close_client, set_state, dial, tcp_connect, ws_connect, handle_signal, wait_response,
  remove_pending_response, next_sequence_id, stop_heartbeat, is_authenticated, is_connected,
  new_client, start_heartbeat,
}
use long_gw.Sdk.Client.Calls.{
  loop_ends, after_signal, read_round, send_heartbeat, auth_asks, subscribe_asks, unsubscribe_asks,
  auth_finishes, finish, send_business, logout, ClientEvent, connects_tcp, connects_ws, beats_once,
  reads, authenticates, subscribes, unsubscribes, finishes, sends, logs_out, closes, takes,
  client_step, client_run,
}
use long_gw.Sdk.Client.Sessions.{
  Coherent, new_client-Coherent, set_state-Coherent, same-Coherent, close_client-Coherent,
  handle_signal-Coherent,
}

loop_ends-Coherent : (c : Client) → Coherent c → Coherent (client_of (loop_ends c))
loop_ends-Coherent c h = closed-Coherent (close_client c) (close_client-Coherent c h)
  where
    closed-Coherent :
        (r : Ran (Unit {0}))
        → Coherent (client_of r)
        → Coherent (client_of (after_call r λ _ c'. returned false c'))
    closed-Coherent (returned _ c') k = k
    closed-Coherent (blocked c') k = k
    closed-Coherent (panicked c') k = k

after_signal-Coherent :
    (r : Ran (Unit {0})) → Coherent (client_of r) → Coherent (client_of (after_signal r))
after_signal-Coherent (returned _ c) h = h
after_signal-Coherent (blocked c) h = h
after_signal-Coherent (panicked c) h = loop_ends-Coherent c h

read_round-Coherent :
    (next : Option ClientSignal) (c : Client)
    → Coherent c
    → Coherent (client_of (read_round next c))
unfolding read_round is_authenticated
read_round-Coherent none c h = ground (
  arith,
  loop_ends-Coherent c h,
  loop_ends-Coherent (set_state disconnected c) (set_state-Coherent disconnected c refl h),
)
read_round-Coherent (some cs) c h = ground (
  arith,
  loop_ends-Coherent c h,
  after_signal-Coherent (handle_signal cs c) (handle_signal-Coherent cs c h),
)

connects-Coherent :
    (dials : Bool) (c : Client)
    → Coherent c
    → Coherent (client_of (tcp_connect dials c)) × Coherent (client_of (ws_connect dials c))
unfolding tcp_connect ws_connect is_closed dial is_authenticated
connects-Coherent dials c h = (
  same-Coherent c _ (ground arith) h,
  record {
    closed_channel = ground (arith, h.closed_channel);
    closed_context = ground (arith, h.closed_context);
    bounded = ground (arith, h.bounded);
    was_granted = λ e. ground (arith, e, h.was_granted);
  },
)

-- Every event keeps a client coherent.
client_step-Coherent : (e : ClientEvent) (c : Client) → Coherent c → Coherent (client_step e c)
unfolding client_step send_heartbeat auth_asks subscribe_asks unsubscribe_asks auth_finishes finish
    wait_response remove_pending_response send_business next_sequence_id logout stop_heartbeat
    is_authenticated
client_step-Coherent (connects_tcp dials) c h = (connects-Coherent dials c h).0
client_step-Coherent (connects_ws dials) c h = (connects-Coherent dials c h).1
client_step-Coherent (beats_once ok) c h =
    ground (arith, h, set_state-Coherent disconnected c refl h)
client_step-Coherent (reads next) c h = read_round-Coherent next c h
client_step-Coherent (authenticates id a) c h = same-Coherent c _ (ground arith) h
client_step-Coherent (subscribes id topic qos) c h = same-Coherent c _ (ground arith) h
client_step-Coherent (unsubscribes id topic) c h = same-Coherent c _ (ground arith) h
client_step-Coherent (finishes wait id) c h = same-Coherent c _ (ground arith) h
client_step-Coherent (sends id m) c h = same-Coherent c _ (ground arith) h
client_step-Coherent (logs_out id reason) c h = same-Coherent c _ (ground arith) h
client_step-Coherent closes c h = close_client-Coherent c h
client_step-Coherent takes c h = record {
  closed_channel = ground (arith, h.closed_channel);
  closed_context = ground (arith, h.closed_context);
  bounded = ground (arith, h.bounded);
  was_granted = λ e. ground (arith, e, h.was_granted);
}

client_run-Coherent : (es : List ClientEvent) (c : Client) → Coherent c → Coherent (client_run es c)
unfolding client_run
client_run-Coherent [] c h = h
client_run-Coherent (e ∷ es) c h =
    client_run-Coherent es (client_step e c) (client_step-Coherent e c h)

-- However a new client is used through the methods of the interface `Client` and by its own goroutines,
-- and not through what else its base exports, such as the setters and `Cancel`: its message channel and
-- its context are closed exactly where the client is, the channel holds 100 messages at most, and the
-- client is authenticated only where the last answer to an authentication grants it.
pub client_run-new-Coherent : (es : List ClientEvent) → Coherent (client_run es new_client)
client_run-new-Coherent es = client_run-Coherent es new_client new_client-Coherent

-- Closing an authenticated client whose mutex is free and that is not closed yet: it is closed, it
-- still says that it is connected and authenticated, and sending a message is still let through.
pub close_client-stays_authenticated :
    (c : Client) (id : Str) (m : BusinessMessage)
    → c.locked ≡ false
    → c.state ≡ authenticated
    → let c' = client_of (close_client c) in
      (is_closed c' ≡ returned true c')
      × (is_connected c' ≡ true)
      × (is_authenticated c' ≡ true)
      × ((cs : ClientSignal) × (d : Client) × (send_business id m c' ≡ (d, inr cs)))
unfolding close_client is_closed is_connected is_authenticated send_business
close_client-stays_authenticated c id m l s =
    let (n, d) = next_sequence_id (client_of (close_client c)) in
    (
      ground (arith, l, s),
      ground (arith, l, s),
      ground (arith, l, s),
      (encode_business_up id n m, d, ground (arith, l, s)),
    )

-- An answer that grants an authentication with a heartbeat interval of 0, on a client whose context
-- is not cancelled and whose mutex is free: the round ends the reading loop, and leaves a client that
-- is closed and authenticated.
pub read_round-zero_interval :
    (cs : ClientSignal) (r : AuthResponse) (c : Client)
    → cs.signal_type ≡ ps_auth_response
    → cs.payload ≡ auth_answer r
    → r.granted ≡ true
    → r.interval ≡ 0
    → c.cancelled ≡ false
    → c.locked ≡ false
    → let o = read_round (some cs) c in
      (o ≡ returned false (client_of o))
      × ((client_of o).is_closed_flag ≡ true)
      × ((client_of o).state ≡ authenticated)
unfolding read_round handle_signal decode_auth_response start_heartbeat close_client
read_round-zero_interval cs r c t p g i k l = (
  ground (arith, t, p, g, i, k, l),
  ground (arith, t, p, g, i, k, l),
  ground (arith, t, p, g, i, k, l),
)
