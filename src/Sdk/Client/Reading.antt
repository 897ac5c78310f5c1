-- ===== src/Sdk/Client/Reading.antt =====
-- What the reading loop of a client does to the channels of the calls that wait.
use long_gw.Base.{
  ◌≡◌, ◌∙◌, refl, ap, List, [], ◌∷◌, ◌++◌, Bool, true, false, not, ◌&&◌, ◌||◌, ◌⊎◌, Option, none,
  some, Str, str_eq, arith, inl, inr, All, ltb, Bool-cases,
}
use long_gw.Base.Dict.{lookup, lookup-insert}
use long_gw.Sdk.Signals.{
  ClientSignal, SdkMessage, AuthResponse, ps_auth_response, decode_client_signal,
  decode_auth_response,
}
use long_gw.Sdk.Client.{
  Client, Ran, returned, blocked, panicked, client_of, after_call, notify_pending_response,
  handle_signal, on_auth_response, deliver_business, start_heartbeat, close_client,
}
use long_gw.Sdk.Client.Calls.{loop_ends, goes_on, read_round, read_all, after_signal}

notify-pending :
    (id j : Str) (msg : SdkMessage) (c : Client)
    → str_eq id j ≡ false
    → lookup j (notify_pending_response id msg c).pending_resp ≡ lookup j c.pending_resp
unfolding notify_pending_response
notify-pending id j msg c n = ground (arith, n, lookup-insert id j (some msg) c.pending_resp)

on_auth_response-pending :
    (r : Option AuthResponse) (c : Client)
    → (client_of (on_auth_response r c)).pending_resp ≡ c.pending_resp
unfolding start_heartbeat close_client
on_auth_response-pending r c = ground arith

after-pending :
    (id j : Str) (msg : SdkMessage) (r : Ran (Unit {0}))
    → str_eq id j ≡ false
    → lookup j
        (client_of
          (after_call r λ _ c'. returned tt (notify_pending_response id msg c'))).pending_resp
      ≡ lookup j (client_of r).pending_resp
after-pending id j msg (returned _ c) n = notify-pending id j msg c n
after-pending id j msg (blocked c) n = refl
after-pending id j msg (panicked c) n = refl

-- A signal touches the channel of no other request.
pub handle_signal-pending :
    (cs : ClientSignal) (j : Str) (c : Client)
    → str_eq cs.request_id j ≡ false
    → lookup j (client_of (handle_signal cs c)).pending_resp ≡ lookup j c.pending_resp
unfolding handle_signal decode_client_signal deliver_business
handle_signal-pending cs j c n =
    let msg = decode_client_signal cs in
    let r = decode_auth_response cs in
    let o = on_auth_response r (record c { auth_resp = r }) in
    ground (
      arith,
      n,
      notify-pending cs.request_id j msg c n,
      after-pending cs.request_id j msg o n,
      on_auth_response-pending r (record c { auth_resp = r }),
    )

after_call-client :
    (b : Bool) (r : Ran (Unit {0})) → client_of (after_call r λ _ c'. returned b c') ≡ client_of r
after_call-client b (returned _ c) = refl
after_call-client b (blocked c) = refl
after_call-client b (panicked c) = refl

loop_ends-pending : (c : Client) → (client_of (loop_ends c)).pending_resp ≡ c.pending_resp
unfolding close_client
loop_ends-pending c = ground arith

-- The deferred call goes on with no round.
loop_ends-stops : (c : Client) (next : Client → Ran Bool) → goes_on (loop_ends c) next ≡ loop_ends c
loop_ends-stops c next = stops (close_client c)
  where
    stops :
        (r : Ran (Unit {0})) → let o = after_call r λ _ c'. returned false c' in goes_on o next ≡ o
    stops (returned _ c') = refl
    stops (blocked c') = refl
    stops (panicked c') = refl

read_round-cancelled :
    (cs : ClientSignal) (c : Client) → c.cancelled ≡ true → read_round (some cs) c ≡ loop_ends c
unfolding read_round
read_round-cancelled cs c e = ground (arith, e)

-- Once the context is cancelled, no signal reaches a channel.
read_all-cancelled :
    (signals : List ClientSignal) (c : Client)
    → c.cancelled ≡ true
    → (client_of (read_all signals c)).pending_resp ≡ c.pending_resp
unfolding read_all
read_all-cancelled [] c e = refl
read_all-cancelled (cs ∷ rest) c e =
    rw (read_round-cancelled cs c e, loop_ends-stops c (λ c'. read_all rest c'))
      (loop_ends-pending c)

-- A client that is not closed, and whose mutex is free.
abbrev pub IsOpen : Client → Type 0
IsOpen c =
    (c.cancelled ≡ false)
    × (c.is_closed_flag ≡ false)
    × (c.msg_ch_closed ≡ false)
    × (c.locked ≡ false)

-- An answer to an authentication after which nothing is read: one that is missing or does not grant
-- closes the client, and one that grants with an interval of 0 panics.
abbrev pub ends_reading : ClientSignal → Bool
ends_reading cs = elim cs.signal_type [
  | ps_auth_response ↦ elim (decode_auth_response cs) [
    | none ↦ true
    | some r ↦ not (r.granted && ltb 0 r.interval)
  ]
  | _ ↦ false
]

handle_signal-goes_on :
    (cs : ClientSignal) (c : Client)
    → IsOpen c
    → ends_reading cs ≡ false
    → let r = handle_signal cs c in (r ≡ returned tt (client_of r)) × IsOpen (client_of r)
unfolding handle_signal decode_auth_response start_heartbeat deliver_business
    notify_pending_response
handle_signal-goes_on cs c h e = ground (arith, h, e)

handle_signal-ends :
    (cs : ClientSignal) (c : Client)
    → IsOpen c
    → ends_reading cs ≡ true
    → let r = handle_signal cs c in
      (r ≡ panicked (client_of r))
      ⊎ ((r ≡ returned tt (client_of r)) × ((client_of r).cancelled ≡ true))
unfolding handle_signal decode_auth_response start_heartbeat close_client notify_pending_response
handle_signal-ends cs c h e = ground (arith, h, e)

read_round-open :
    (cs : ClientSignal) (c : Client)
    → c.cancelled ≡ false
    → read_round (some cs) c ≡ after_signal (handle_signal cs c)
unfolding read_round
read_round-open cs c e = ground (arith, e)

pub read_round-goes_on :
    (cs : ClientSignal) (c : Client)
    → IsOpen c
    → ends_reading cs ≡ false
    → let d = client_of (handle_signal cs c) in
      (read_round (some cs) c ≡ returned true d) × IsOpen d
read_round-goes_on cs c h e =
    let g = handle_signal-goes_on cs c h e in
    (read_round-open cs c h.0 ∙ ap (λ r. after_signal r) g.0, g.1)

-- After an answer that ends the reading no channel of another request is touched.
read_round-ends :
    (cs : ClientSignal) (c : Client) (id : Str) (rest : List ClientSignal)
    → IsOpen c
    → ends_reading cs ≡ true
    → str_eq cs.request_id id ≡ false
    → lookup id (client_of (read_all (cs ∷ rest) c)).pending_resp ≡ lookup id c.pending_resp
unfolding read_all
read_round-ends cs c id rest h e n =
    let d = client_of (handle_signal cs c) in
    let o = read_round-open cs c h.0 in
    let k = handle_signal-pending cs id c n in
    elim (handle_signal-ends cs c h e) [
      | inl p ↦
          rw (o ∙ ap (λ r. after_signal r) p, loop_ends-stops d (λ c'. read_all rest c'))
            (ap (λ m. lookup id m) (loop_ends-pending d) ∙ k)
      | inr (p, q) ↦
          rw (o ∙ ap (λ r. after_signal r) p)
            (ap (λ m. lookup id m) (read_all-cancelled rest d q) ∙ k)
    ]

-- Whether the reading ends at one of the signals.
abbrev pub any_ends : List ClientSignal → Bool
any_ends [] = false
any_ends (cs ∷ rest) = ends_reading cs || any_ends rest

pub read_all-ended :
    (others next : List ClientSignal) (c : Client) (id : Str)
    → IsOpen c
    → All (λ o. str_eq o.request_id id ≡ false) others
    → any_ends others ≡ true
    → lookup id (client_of (read_all (others ++ next) c)).pending_resp ≡ lookup id c.pending_resp
unfolding read_all
read_all-ended [] next c id h a e = cc
read_all-ended (cs ∷ rest) next c id h a e = elim (Bool-cases (ends_reading cs)) [
  | inl q ↦ read_round-ends cs c id (rest ++ next) h q a.0
  | inr q ↦
      let g = read_round-goes_on cs c h q in
      let d = client_of (handle_signal cs c) in
      rw g.0 (
        read_all-ended rest next d id g.1 a.1 (ground (arith, q, e))
        ∙ handle_signal-pending cs id c a.0)
]

-- Signals of other requests that do not end the reading.
pub read_all-passes :
    (others next : List ClientSignal) (c : Client) (id : Str)
    → IsOpen c
    → All (λ o. str_eq o.request_id id ≡ false) others
    → any_ends others ≡ false
    → (d : Client) × (read_all (others ++ next) c ≡ read_all next d)
      × IsOpen d
      × (lookup id d.pending_resp ≡ lookup id c.pending_resp)
unfolding read_all
read_all-passes [] next c id h a e = (c, refl, h, refl)
read_all-passes (cs ∷ rest) next c id h a e =
    let q : ends_reading cs ≡ false = ground (arith, e) in
    let g = read_round-goes_on cs c h q in
    let (d, p, o, k) =
      read_all-passes rest next (client_of (handle_signal cs c)) id g.1 a.1
        (ground (arith, q, e)) in
    (d, rw g.0 p, o, k ∙ handle_signal-pending cs id c a.0)
