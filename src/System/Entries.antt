-- ===== src/System/Entries.antt =====
-- The registry, the factory and the retries keep an invariant of the world.
use long_gw.Base.{
  ℕ, ◌≤◌, ◌≡◌, refl, true, if◌then◌else◌, Str, length, arith, Option-cases, inl, inr,
}
use long_gw.Base.Dict.{Dict, lookup}
use long_gw.Router.{register_session, unregister_all}
use long_gw.Router.Membership.{registers, unregisters_all, step}
use long_gw.World.{Deps, World, Message, Pending, TimeoutPayload, world_of, set_router}
use long_gw.Connection.{activate, register_conn, write_channel_size}
use long_gw.Scanner.{handle_timeout}
use long_gw.Session.{target_of, new_session, submit, bump_entry, detach_conn}
use long_gw.SessionRegistry.{
  Registry, devices_of, get_or_create, give_up, try_again, handle_ack_timeout, on_timer,
  register_and_kick, attach_and_register, on_close,
}
use long_gw.Factory.{
  Gateway, Outside, AuthInfo, Handshake, failed, accepted, do_handshake, new_connection,
  send_auth_response, activate_and_answer, create_and_run, run_ends,
}
use long_gw.System.Calls.{track_keeps, forget_ack_keeps, submit_keeps}
use long_gw.System.Sessions.{
  bump_entry_keeps, attach_conn_keeps, detach_conn_keeps, close_session_keeps,
}
use long_gw.System.Keeps.{Keeps, same_keeps, call_keeps}

module _ {I : World → Type 0} {allowed : Deps → Type 0} (keeps : Keeps I allowed) where
  activate_keeps : (c : ℕ) (w : World) → I w → I (activate c w)
  unfolding activate
  activate_keeps c w h = keeps.connects c _ w (λ l. l) h

  register_and_kick_keeps : (s : ℕ) (w : World) → I w → I (register_and_kick s w)
  unfolding register_and_kick step
  register_and_kick_keeps s w h =
      let t = target_of s w in
      let r = (register_session t.user_id t.device_id t w.router).0 in
      let h' = call_keeps keeps (registers t) w h in
      elim (Option-cases ((register_session t.user_id t.device_id t w.router).1)) [
        | inl e ↦ rw (register_and_kick, e) h'
        | inr (old, e) ↦
            rw (register_and_kick, e) (close_session_keeps keeps old.ref (set_router r w) h')
      ]

  attach_and_register_keeps : (s c : ℕ) (w : World) → I w → I (attach_and_register s c w).1
  unfolding attach_and_register
  attach_and_register_keeps s c w h = register_and_kick_keeps s _ (attach_conn_keeps keeps s c w h)

  send_auth_response_keeps :
      (o : Outside) (s : ℕ) (id : Str) (seq : ℕ) (conn_id : Str) (ref : Message) (g : Registry)
      (conns : Dict ℕ) (w : World)
      → I w
      → I (send_auth_response o s id seq conn_id ref g conns w).1.world
  unfolding send_auth_response
  send_auth_response_keeps o s id seq conn_id ref g conns w h =
      ground (arith, h, detach_conn_keeps keeps s w h)

  activate_and_answer_keeps :
      (o : Outside) (s c seq : ℕ) (a : AuthInfo) (ref : Message) (g : Registry) (conns : Dict ℕ)
      (w : World)
      → I w
      → I (activate_and_answer o s c seq a ref g conns w).1.world
  unfolding activate_and_answer
  activate_and_answer_keeps o s c seq a ref g conns w h =
      let conns' = (register_conn a.conn_id c conns).0 in
      ground (
        arith,
        detach_conn_keeps keeps s w h,
        send_auth_response_keeps o s (w.sessions s).session_id seq a.conn_id ref g conns'
            (activate c w) (activate_keeps c w h),
      )

  pub on_close_keeps :
      (s : ℕ) (id : Str) (conns : Dict ℕ) (w : World) → I w → I (on_close s id conns w).1
  unfolding on_close unregister_all step
  on_close_keeps s id conns w h =
      call_keeps keeps (unregisters_all (target_of s (detach_conn s w))) _
        (detach_conn_keeps keeps s w h)

  -- What a session of the registry is made with is allowed, where the registry's own dependencies are.
  made-allowed :
      (g : Registry)
      → allowed g.registry_deps
      → allowed
          (if g.has_scanner then record g.registry_deps { has_acker = true } else g.registry_deps)
  made-allowed g q = ground (arith, q, keeps.acks g.registry_deps q)

  pub get_or_create_keeps :
      (hash : Str → Str → Str) (u d a t b : Str) (g : Registry) (w : World)
      → allowed g.registry_deps
      → I w
      → I (get_or_create hash u d a t b g w).1
  unfolding get_or_create new_session
  get_or_create_keeps hash u d a t b g w q h = elim (Option-cases (lookup d (devices_of u g))) [
    | inl e ↦ rw (get_or_create, e) (keeps.makes g.fresh _ w (made-allowed g q) h)
    | inr (s, e) ↦ rw (get_or_create, e) h
  ]

  new_connection-le : (a : AuthInfo) → length (new_connection a).write_ch ≤ write_channel_size
  unfolding new_connection
  new_connection-le a = omega arith

  -- Serving a connection keeps the invariant, however far it gets.
  pub create_and_run_keeps :
      (hash : Str → Str → Str) (o : Outside) (c : ℕ) (gw : Gateway)
      → allowed gw.registry.registry_deps
      → I gw.world
      → I (create_and_run hash o c gw).1.world
  unfolding create_and_run
  create_and_run_keeps hash o c gw ok h = created (do_handshake o) refl
    where
      created : (r : Handshake) → do_handshake o ≡ r → I (create_and_run hash o c gw).1.world
      created (failed e) q = rw (create_and_run, q) h
      created (accepted a ref) q =
          let (g, w, s, is_new) =
            get_or_create hash a.user_id a.device_id a.app_id a.device_type a.biz_code gw.registry
              gw.world in
          rw (create_and_run, q)
            (activate_and_answer_keeps o s c _ a ref g gw.conns _ (
              attach_and_register_keeps s c _ (
                keeps.connects c (new_connection a) w (λ l. new_connection-le a)
                  (get_or_create_keeps hash a.user_id a.device_id a.app_id a.device_type a.biz_code
                    gw.registry gw.world ok h))))

  pub run_ends_keeps : (s c : ℕ) (gw : Gateway) → I gw.world → I (run_ends s c gw).world
  unfolding run_ends
  run_ends_keeps s c gw h = on_close_keeps s _ gw.conns _ (keeps.connects c _ gw.world (λ l. l) h)

  give_up_keeps : (s : ℕ) (m : Str) (e : Pending) (w : World) → I w → I (give_up s m e w)
  unfolding give_up
  give_up_keeps s m e w h =
      same_keeps keeps w _ (ground arith, ground arith, ground arith, λ i. ground arith)
        (ground arith) h

  try_again_keeps :
      (s : ℕ) (m : Str) (e : Pending) (g : Registry) (w : World)
      → I w
      → I (world_of (try_again s m e g w))
  unfolding try_again
  try_again_keeps s m e g w h =
      let o = submit s e.msg (bump_entry s m e w) in
      let w' = world_of o in
      let h' = submit_keeps keeps s e.msg _ (bump_entry_keeps keeps s m e w h) in
      ground (arith, h', track_keeps keeps (w'.msgs e.msg) (w'.sessions s).session_id w' h')

  handle_ack_timeout_keeps :
      (g : Registry) (id m : Str) (w : World) → I w → I (world_of (handle_ack_timeout g id m w))
  unfolding handle_ack_timeout
  handle_ack_timeout_keeps g id m w h = elim (Option-cases (lookup id g.by_id)) [
    | inl n ↦ rw (handle_ack_timeout, n) h
    | inr (s, e) ↦ elim (Option-cases (lookup m (w.sessions s).pending_acks)) [
      | inl n ↦ ground (arith, e, n, h)
      | inr (p, f) ↦ ground (arith, e, f, give_up_keeps s m p w h, try_again_keeps s m p g w h)
    ]
  ]

  -- Whatever a timer carries, its handler keeps the invariant.
  pub on_timer_keeps :
      (g : Registry) (p : TimeoutPayload) (w : World) → I w → I (world_of (on_timer g p w))
  unfolding handle_timeout
  on_timer_keeps g p w h =
      let w' = world_of (handle_ack_timeout g p.sess_id p.msg_id w) in
      let h' = handle_ack_timeout_keeps g p.sess_id p.msg_id w h in
      ground (arith, h, h', forget_ack_keeps keeps p.sess_id p.msg_id w' h')
