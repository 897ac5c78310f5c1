-- ===== src/Factory/Serving.antt =====
-- What `CreateAndRun` of factory.go does with a client: who it serves, and what it leaves.
use long_gw.Base.{
  ℕ, ◌≡◌, ◌⊎◌, ◌∙◌, refl, ap, [], true, false, none, some, Str, Bytes, str_eq, str_eq_refl, arith,
  Option-cases, inl, inr,
}
use long_gw.Base.Dict.{Dict, lookup, insert, lookup-insert}
use long_gw.Connection.{is_active, activate, register_conn}
use long_gw.World.{World, Message, handshake_ack, handshaking, put_conn, active}
use long_gw.Router.{LocalRouter, register_session}
use long_gw.Session.{target_of, attach_conn, new_session}
use long_gw.Session.Attach.{Kept, attach_conn-flushes_nothing, attach_conn-frame}
use long_gw.SessionRegistry.{
  Registry, devices_of, get_or_create, attach_and_register, register_and_kick,
}
use long_gw.SessionRegistry.Reconnect.{attached-device, login_attaches}
use long_gw.Factory.{
  AuthInfo, HandshakeRequest, HandshakeError, Outside, Handshake, failed, accepted, do_handshake,
  new_connection, Gateway, rejected, crashed, serving, send_auth_response, activate_and_answer,
  create_and_run, is_handshake, replay_from,
}
use long_gw.Handler.{frame}

-- The token that the client sent, and who the verifier says it is of.
pub record IsVerified (o : Outside) (a : AuthInfo) (ref : Message) : Type 0 where
  pub bytes : Bytes
  pub request : HandshakeRequest
  pub was_read : o.raw ≡ some bytes
  pub was_decoded : o.decode_frame bytes ≡ some ref
  pub is_request : is_handshake ref.kind ≡ true
  pub was_parsed : o.parse_request ref.body ≡ some request
  pub has_token : str_eq request.token [] ≡ false
  pub verified : o.verify request.token ≡ some (a.user_id, a.device_id)

pub do_handshake-IsVerified :
    (o : Outside) (a : AuthInfo) (ref : Message)
    → do_handshake o ≡ accepted a ref
    → IsVerified o a ref
unfolding do_handshake
do_handshake-IsVerified o a ref e = elim (Option-cases o.raw) [
  | inl n ↦ ground (arith, e, n)
  | inr (bytes, r) ↦ elim (Option-cases (o.decode_frame bytes)) [
    | inl n ↦ ground (arith, e, r, n)
    | inr (msg, d) ↦ elim (Option-cases (o.parse_request msg.body)) [
      | inl n ↦ ground (arith, e, r, d, n)
      | inr (q, p) ↦ elim (Option-cases (o.verify q.token)) [
        | inl n ↦ ground (arith, e, r, d, p, n)
        | inr ((u, v), t) ↦ record {
          bytes = bytes;
          request = q;
          was_read = r;
          was_decoded = ground (arith, e, r, d, p, t);
          is_request = ground (arith, e, r, d, p, t);
          was_parsed = ground (arith, e, r, d, p, t);
          has_token = ground (arith, e, r, d, p, t);
          verified = ground (arith, e, r, d, p, t);
        }
      ]
    ]
  ]
]

-- Either the handshake fails and nothing of the gateway changes, or the client sent a handshake
-- frame with a token that is not empty and that the verifier knows, and the handshake names the user
-- and the device of that token.
pub create_and_run-authenticates :
    (hash : Str → Str → Str) (o : Outside) (c : ℕ) (gw : Gateway)
    → ((e : HandshakeError) × (create_and_run hash o c gw ≡ (rejected e, gw)))
      ⊎ ((a : AuthInfo) × (ref : Message) × IsVerified o a ref × (do_handshake o ≡ accepted a ref))
unfolding create_and_run
create_and_run-authenticates hash o c gw = by_handshake (do_handshake o) refl
  where
    by_handshake :
        (h : Handshake)
        → do_handshake o ≡ h
        → ((e : HandshakeError) × (create_and_run hash o c gw ≡ (rejected e, gw)))
          ⊎ ((a : AuthInfo) × (ref : Message) × IsVerified o a ref
              × (do_handshake o ≡ accepted a ref))
    by_handshake (failed e) q = inl (e, ground (arith, q))
    by_handshake (accepted a ref) q = inr (a, ref, do_handshake-IsVerified o a ref q, q)

register_and_kick-conns :
    (s : ℕ) (w : World)
    → lookup (w.sessions s).device_id w.router.device_conn ≡ none
    → (register_and_kick s w).conns ≡ w.conns
unfolding register_and_kick register_session
register_and_kick-conns s w h = ground (arith, h)

attached-sessions :
    (s c : ℕ) (w : World) → ((attach_conn s c w).1.sessions s).device_id ≡ (w.sessions s).device_id
attached-sessions s c w = ap (λ (p : Kept × LocalRouter). p.0.device_id) (attach_conn-frame s c w)

-- Attaching and registering a session whose device the router does not know touches no connection,
-- while the new one is not active.
attach_and_register-conns :
    (s c : ℕ) (w : World)
    → lookup (w.sessions s).device_id w.router.device_conn ≡ none
    → is_active (w.conns c) ≡ false
    → (attach_and_register s c w).1.conns ≡ w.conns
unfolding attach_and_register
attach_and_register-conns s c w h i =
    register_and_kick-conns s _ (rw (attached-sessions s c w, attached-device s c w) h)
    ∙ attach_conn-flushes_nothing s c w i

activate_and_answer-serves :
    (o : Outside) (s c seq : ℕ) (a : AuthInfo) (ref : Message) (id : Str) (g : Registry)
    (conns : Dict ℕ) (w : World)
    → ref.trace ≡ some id
    → ((m : Message) → o.can_write m ≡ true)
    → str_eq a.conn_id [] ≡ false
    → activate_and_answer o s c seq a ref g conns w ≡ (
      serving s (replay_from seq),
      record { registry = g; conns = insert a.conn_id c conns; world = activate c w },
    )
unfolding activate_and_answer send_auth_response register_conn
activate_and_answer-serves o s c seq a ref id g conns w t p n =
    let answer =
      frame handshake_ack ref.msg_id (some id)
        (o.answer_payload (w.sessions s).session_id (replay_from seq)) in
    ground (arith, t, p answer, n)

activated-active :
    (c : ℕ) (w : World)
    → (w.conns c).conn_state ≡ handshaking
    → (is_active ((activate c w).conns c) ≡ true)
      × ((activate c w).sessions ≡ w.sessions)
      × ((activate c w).router ≡ w.router)
unfolding activate
activated-active c w h = ground (arith, h)

-- The world that a first login attaches: the new session and the new connection.
abbrev pub first_world : (Str → Str → Str) → AuthInfo → ℕ → Gateway → World
first_world hash a c gw =
    put_conn c (new_connection a)
      (get_or_create hash a.user_id a.device_id a.app_id a.device_type a.biz_code gw.registry
        gw.world).1

-- A client whose handshake is accepted with a trace context, whose user has no session on its
-- device and whose device the router does not know, with a connection id that is not empty and an
-- answer that can be written: it is served. Its session is new and active on the connection, the
-- connection is active and registered under its id, and the router has the session under its
-- device.
pub create_and_run-serves :
    (hash : Str → Str → Str) (o : Outside) (c : ℕ) (gw : Gateway) (a : AuthInfo) (ref : Message)
    (id : Str)
    → do_handshake o ≡ accepted a ref
    → ref.trace ≡ some id
    → ((m : Message) → o.can_write m ≡ true)
    → str_eq a.conn_id [] ≡ false
    → lookup a.device_id (devices_of a.user_id gw.registry) ≡ none
    → lookup a.device_id gw.world.router.device_conn ≡ none
    → let (answer, after) = create_and_run hash o c gw in
      let s = gw.registry.fresh in
      ((n : ℕ) × (answer ≡ serving s n))
      × ((after.world.sessions s).state ≡ active)
      × ((after.world.sessions s).conn ≡ some c)
      × (is_active (after.world.conns c) ≡ true)
      × (lookup a.conn_id after.conns ≡ some c)
      × (lookup a.device_id after.world.router.device_conn
          ≡ some (target_of s (first_world hash a c gw)))
unfolding create_and_run get_or_create new_session new_connection
create_and_run-serves hash o c gw a ref id e t w n f r =
    let s = gw.registry.fresh in
    let w2 = first_world hash a c gw in
    let (seq, w3) = attach_and_register s c w2 in
    let q = login_attaches s c w2 (ground (arith, f, r)) in
    let k = attach_and_register-conns s c w2 (ground (arith, f, r)) (ground arith) in
    let g =
      (get_or_create hash a.user_id a.device_id a.app_id a.device_type a.biz_code gw.registry
        gw.world).0 in
    let served = activate_and_answer-serves o s c seq a ref id g gw.conns w3 t w n in
    let on = activated-active c w3 (ground (arith, k)) in
    let same : create_and_run hash o c gw ≡ activate_and_answer o s c seq a ref g gw.conns w3 =
      ground (arith, e, f) in
    let device : (w2.sessions s).device_id ≡ a.device_id = ground (arith, f) in
    rw (same, served)
      (
        (replay_from seq, refl),
        ground (arith, on, q),
        ground (arith, on, q),
        on.0,
        ground (arith, lookup-insert a.conn_id a.conn_id c gw.conns, str_eq_refl a.conn_id),
        ground (arith, on, q, device),
      )

activate_and_answer-crashes :
    (o : Outside) (s c seq : ℕ) (a : AuthInfo) (ref : Message) (g : Registry) (conns : Dict ℕ)
    (w : World)
    → ref.trace ≡ none
    → str_eq a.conn_id [] ≡ false
    → (activate_and_answer o s c seq a ref g conns w).0 ≡ crashed
unfolding activate_and_answer send_auth_response register_conn
activate_and_answer-crashes o s c seq a ref g conns w t n = ground (arith, t, n)

-- A client whose handshake is accepted, but whose frame has no trace context, with a connection id
-- that is not empty, makes the goroutine panic, whatever the state of the gateway.
pub create_and_run-crashes :
    (hash : Str → Str → Str) (o : Outside) (c : ℕ) (gw : Gateway) (a : AuthInfo) (ref : Message)
    → do_handshake o ≡ accepted a ref
    → ref.trace ≡ none
    → str_eq a.conn_id [] ≡ false
    → (create_and_run hash o c gw).0 ≡ crashed
unfolding create_and_run
create_and_run-crashes hash o c gw a ref e t n =
    rw (create_and_run, e) (activate_and_answer-crashes o _ c _ a ref _ gw.conns _ t n)
