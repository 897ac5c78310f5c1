-- ===== src/Sdk/Client/Sessions.antt =====
-- A client's life: connecting, being authenticated, and closing.
use long_gw.Base.{
  ◌≡◌, ◌≤◌, inl, inr, refl, [], ◌∷◌, Bool, true, false, Option, none, some, Str, length, arith,
  Option-cases, if◌then◌else◌, length-append,
}
use long_gw.Sdk.Signals.{
  ClientSignal, SdkMessage, AuthResponse, decode_client_signal, decode_auth_response,
  decode_business_down,
}
use long_gw.Sdk.Client.{
  Client, ConnState, connected, disconnected, Ran, returned, blocked, panicked, client_of,
  after_call, is_closed, close_client, set_state, dial, ConnectError, already_closed, dial_failed,
  tcp_connect, ws_connect, on_auth_response, deliver_business, handle_signal, start_heartbeat,
  notify_pending_response, is_authenticated, msg_ch_cap, new_client,
}

-- What `Connect` of the WebSocket client refuses with.
abbrev pub refusal : Bool → Client → Option ConnectError
refusal dials c =
    if c.is_closed_flag then some already_closed else if dials then none else some dial_failed

abbrev has_grant : Option AuthResponse → Bool
has_grant none = false
has_grant (some r) = r.granted

-- Where the mutex of a client is free, `Connect` of the TCP client waits for ever for the mutex that
-- it holds itself, and so does every `Close` after it. `Connect` of the WebSocket client returns: it
-- refuses exactly a closed client, and else the client is connected where dialling succeeds, and
-- disconnected where it fails.
pub connects-total :
    (dials : Bool) (c : Client)
    → c.locked ≡ false
    → (tcp_connect dials c ≡ blocked (record c { locked = true }))
      × (close_client (client_of (tcp_connect dials c)) ≡ blocked (record c { locked = true }))
      × (ws_connect dials c ≡ returned (refusal dials c) (client_of (ws_connect dials c)))
      × ((client_of (ws_connect dials c)).state
          ≡ (if c.is_closed_flag then c.state else if dials then connected else disconnected))
unfolding tcp_connect ws_connect is_closed close_client dial
connects-total dials c h =
    (ground (arith, h), ground (arith, h), ground (arith, h), ground (arith, h))

-- What keeps a client together: closing closes the message channel and the context, and nothing else
-- does; the channel holds as many messages as it has room for, at most; and a client is authenticated
-- only with an answer that grants it.
pub record Coherent (c : Client) : Type 0 where
  pub closed_channel : c.msg_ch_closed ≡ c.is_closed_flag
  pub closed_context : c.cancelled ≡ c.is_closed_flag
  pub bounded : length c.msg_ch ≤ msg_ch_cap
  pub was_granted : is_authenticated c ≡ true → has_grant c.auth_resp ≡ true

pub new_client-Coherent : Coherent new_client
unfolding new_client is_authenticated
new_client-Coherent = record {
  closed_channel = refl;
  closed_context = refl;
  bounded = omega arith;
  was_granted = λ e. ground (arith, e);
}

pub close_client-Coherent : (c : Client) → Coherent c → Coherent (client_of (close_client c))
unfolding close_client is_authenticated
close_client-Coherent c h = record {
  closed_channel = ground (arith, h.closed_channel);
  closed_context = ground (arith, h.closed_context);
  bounded = ground (arith, h.bounded);
  was_granted = λ e. ground (arith, e, h.was_granted);
}

-- A change of the state to one that is not authenticated.
pub set_state-Coherent :
    (s : ConnState) (c : Client)
    → is_authenticated (set_state s c) ≡ false
    → Coherent c
    → Coherent (set_state s c)
set_state-Coherent s c n h = record {
  closed_channel = h.closed_channel;
  closed_context = h.closed_context;
  bounded = h.bounded;
  was_granted = λ e. ground (arith, e, n);
}

pub notify-Coherent :
    (id : Str) (msg : SdkMessage) (c : Client)
    → Coherent c
    → Coherent (notify_pending_response id msg c)
unfolding notify_pending_response is_authenticated
notify-Coherent id msg c h = record {
  closed_channel = ground (arith, h.closed_channel);
  closed_context = ground (arith, h.closed_context);
  bounded = ground (arith, h.bounded);
  was_granted = λ e. ground (arith, e, h.was_granted);
}

-- A client that differs from a coherent one in what `Coherent` does not speak of.
pub same-Coherent :
    (c c' : Client)
    → (c'.state ≡ c.state)
      × (c'.auth_resp ≡ c.auth_resp)
      × (c'.msg_ch ≡ c.msg_ch)
      × (c'.msg_ch_closed ≡ c.msg_ch_closed)
      × (c'.is_closed_flag ≡ c.is_closed_flag)
      × (c'.cancelled ≡ c.cancelled)
    → Coherent c
    → Coherent c'
unfolding is_authenticated
same-Coherent c c' e h = record {
  closed_channel = ground (arith, e, h.closed_channel);
  closed_context = ground (arith, e, h.closed_context);
  bounded = ground (arith, e, h.bounded);
  was_granted = λ g. ground (arith, e, g, h.was_granted);
}

on_auth_response-Coherent :
    (r : Option AuthResponse) (c : Client)
    → Coherent c
    → Coherent (client_of (on_auth_response r (record c { auth_resp = r })))
unfolding is_authenticated start_heartbeat close_client
on_auth_response-Coherent r c h = record {
  closed_channel = ground (arith, h.closed_channel);
  closed_context = ground (arith, h.closed_context);
  bounded = ground (arith, h.bounded);
  was_granted = λ e. ground (arith, e);
}

deliver-Coherent :
    (msg : SdkMessage) (c : Client) → Coherent c → Coherent (client_of (deliver_business msg c))
unfolding deliver_business is_authenticated
deliver-Coherent msg c h = record {
  closed_channel = ground (arith, h.closed_channel);
  closed_context = ground (arith, h.closed_context);
  bounded = ground (arith, h.bounded, length-append c.msg_ch (msg ∷ []));
  was_granted = λ e. ground (arith, e, h.was_granted);
}

after-Coherent :
    (id : Str) (msg : SdkMessage) (r : Ran (Unit {0}))
    → Coherent (client_of r)
    → Coherent (client_of (after_call r λ _ c'. returned tt (notify_pending_response id msg c')))
after-Coherent id msg (returned _ c) h = notify-Coherent id msg c h
after-Coherent id msg (blocked c) h = h
after-Coherent id msg (panicked c) h = h

pub handle_signal-Coherent :
    (cs : ClientSignal) (c : Client) → Coherent c → Coherent (client_of (handle_signal cs c))
unfolding handle_signal
handle_signal-Coherent cs c h =
    let msg = decode_client_signal cs in
    let r = decode_auth_response cs in
    elim (Option-cases (decode_business_down cs)) [
      | inl n ↦ ground (
        arith,
        n,
        h,
        notify-Coherent msg.request_id msg c h,
        after-Coherent msg.request_id msg (on_auth_response r (record c { auth_resp = r }))
            (on_auth_response-Coherent r c h),
      )
      | inr (down, e) ↦ ground (
        arith,
        e,
        h,
        deliver-Coherent down c h,
        notify-Coherent msg.request_id msg c h,
        after-Coherent msg.request_id msg (on_auth_response r (record c { auth_resp = r }))
            (on_auth_response-Coherent r c h),
      )
    ]
