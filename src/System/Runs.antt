-- ===== src/System/Runs.antt =====
-- Every run of the gateway keeps what its parts keep.
use long_gw.Base.{ℕ, ◌≡◌, refl, arith, Bool, Option, Str, Bytes}
use long_gw.Base.Dict.{Dict}
use long_gw.World.{World, Deps, Message}
use long_gw.SessionRegistry.{Registry, get_or_create}
use long_gw.Factory.{
  Gateway, Outside, AuthInfo, Handshake, failed, accepted, do_handshake, create_and_run, run_ends,
  activate_and_answer, send_auth_response,
}
use long_gw.App.{Backends, Config, new_gateway_server, started}
use long_gw.App.Start.{started-IsSound, started-IsIdle}
use long_gw.System.{
  Event, connects, disconnects, receives, dispatches, writes, acks, joins, leaves, subscribes,
  unsubscribes, closes, pushes, works_up, works_down, waits, fires, times_out, passes, perform,
  Reaches, here, then_event,
}
use long_gw.System.Keeps.{Keeps, stores_keep}
use long_gw.System.Sound.{IsSound, Sound, IsSound-Keeps}
use long_gw.System.Idle.{IsIdle, Idle, IsIdle-Keeps}
use long_gw.System.Sessions.{ack_keeps, session_rooms_keeps, close_session_keeps}
use long_gw.System.Entries.{create_and_run_keeps, run_ends_keeps, on_timer_keeps}
use long_gw.System.Pools.{alloc_keeps, upstream_turn_keeps}
use long_gw.System.Downlinks.{downstream_turn_keeps}
use long_gw.System.Uplinks.{dispatch_keeps}
use long_gw.System.Wheels.{wheel_next_keeps, wheel_turn_keeps}

get_or_create-registry_deps :
    (hash : Str → Str → Str) (u d a t b : Str) (g : Registry) (w : World)
    → (get_or_create hash u d a t b g w).0.registry_deps ≡ g.registry_deps
unfolding get_or_create
get_or_create-registry_deps hash u d a t b g w = ground arith

activate_and_answer-registry :
    (o : Outside) (s c seq : ℕ) (a : AuthInfo) (ref : Message) (g : Registry) (conns : Dict ℕ)
    (w : World)
    → (activate_and_answer o s c seq a ref g conns w).1.registry ≡ g
unfolding activate_and_answer send_auth_response
activate_and_answer-registry o s c seq a ref g conns w = ground arith

create_and_run-registry_deps :
    (hash : Str → Str → Str) (o : Outside) (c : ℕ) (gw : Gateway)
    → (create_and_run hash o c gw).1.registry.registry_deps ≡ gw.registry.registry_deps
unfolding create_and_run
create_and_run-registry_deps hash o c gw = by_answer (do_handshake o) refl
  where
    by_answer :
        (r : Handshake)
        → do_handshake o ≡ r
        → (create_and_run hash o c gw).1.registry.registry_deps ≡ gw.registry.registry_deps
    by_answer (failed e) q = rw (create_and_run, q) refl
    by_answer (accepted a ref) q =
        rw (create_and_run, q, activate_and_answer-registry)
          (get_or_create-registry_deps hash a.user_id a.device_id a.app_id a.device_type a.biz_code
            gw.registry gw.world)

run_ends-registry : (s c : ℕ) (gw : Gateway) → (run_ends s c gw).registry ≡ gw.registry
unfolding run_ends
run_ends-registry s c gw = refl

module _ (hash : Str → Str → Str) (encode : ℕ → Str → Bytes) (limiter : Option (Str → Str → Bool))
    (encode_failure : Str → Bytes) where
  perform-registry_deps :
      (e : Event) (gw : Gateway)
      → (perform hash encode limiter encode_failure e gw).registry.registry_deps
        ≡ gw.registry.registry_deps
  unfolding perform
  perform-registry_deps (connects o c) gw = create_and_run-registry_deps hash o c gw
  perform-registry_deps (disconnects s c) gw = rw run_ends-registry refl
  perform-registry_deps (receives m) gw = refl
  perform-registry_deps (dispatches n s c m) gw = refl
  perform-registry_deps (writes c) gw = refl
  perform-registry_deps (acks s m) gw = refl
  perform-registry_deps (joins s k) gw = refl
  perform-registry_deps (leaves s k) gw = refl
  perform-registry_deps (subscribes s k) gw = refl
  perform-registry_deps (unsubscribes s k) gw = refl
  perform-registry_deps (closes s) gw = refl
  perform-registry_deps (pushes biz m) gw = refl
  perform-registry_deps (works_up send biz) gw = refl
  perform-registry_deps (works_down b biz) gw = refl
  perform-registry_deps (waits i) gw = refl
  perform-registry_deps (fires i) gw = refl
  perform-registry_deps (times_out p) gw = refl
  perform-registry_deps (passes n) gw = refl

  module _ {I : World → Type 0} {allowed : Deps → Type 0} (keeps : Keeps I allowed) where
    -- Every event keeps the invariant.
    perform_keeps :
        (e : Event) (gw : Gateway)
        → allowed gw.registry.registry_deps
        → I gw.world
        → I (perform hash encode limiter encode_failure e gw).world
    unfolding perform
    perform_keeps (connects o c) gw ok h = create_and_run_keeps keeps hash o c gw ok h
    perform_keeps (disconnects s c) gw ok h = run_ends_keeps keeps s c gw h
    perform_keeps (receives m) gw ok h = alloc_keeps keeps m gw.world h
    perform_keeps (dispatches n s c m) gw ok h =
        dispatch_keeps keeps encode limiter n s c m gw.world h
    perform_keeps (writes c) gw ok h = keeps.writes c gw.world h
    perform_keeps (acks s m) gw ok h = ack_keeps keeps s m gw.world h
    perform_keeps (joins s k) gw ok h = (session_rooms_keeps keeps s k gw.world h).0
    perform_keeps (leaves s k) gw ok h = (session_rooms_keeps keeps s k gw.world h).1
    perform_keeps (subscribes s k) gw ok h = (session_rooms_keeps keeps s k gw.world h).2
    perform_keeps (unsubscribes s k) gw ok h = (session_rooms_keeps keeps s k gw.world h).3
    perform_keeps (closes s) gw ok h = close_session_keeps keeps s gw.world h
    perform_keeps (pushes biz m) gw ok h = keeps.pushes biz m gw.world h
    perform_keeps (works_up send biz) gw ok h =
        upstream_turn_keeps keeps send encode_failure biz gw.world h
    perform_keeps (works_down b biz) gw ok h = downstream_turn_keeps keeps b biz gw.world h
    perform_keeps (waits i) gw ok h = wheel_next_keeps keeps i gw.world h
    perform_keeps (fires i) gw ok h = wheel_turn_keeps keeps i gw.world h
    perform_keeps (times_out p) gw ok h = on_timer_keeps keeps gw.registry p gw.world h
    perform_keeps (passes n) gw ok h = stores_keep keeps gw.world _ (refl, refl, refl, refl) refl h

    -- So does every run.
    Reaches_keep :
        (gw gw' : Gateway)
        → Reaches hash encode limiter encode_failure gw gw'
        → allowed gw.registry.registry_deps
        → I gw.world
        → allowed gw'.registry.registry_deps × I gw'.world
    Reaches_keep gw gw' (here _) ok h = (ok, h)
    Reaches_keep gw _ (then_event _ gw' e r) ok h =
        let (ok', h') = Reaches_keep gw gw' r ok h in
        (rw perform-registry_deps ok', perform_keeps e gw' ok' h')

  -- However a gateway that has started runs, in whatever order connections come and go, frames are
  -- dispatched, workers and timers take their turns and calls panic: no write channel and no
  -- channel of a worker pool holds more than its capacity, the router's maps hold each key once, and
  -- every wheel of the timer is consistent.
  pub reachable-Sound :
      (b : Backends) (cfg : Config) (now : ℕ) (gw gw' : Gateway)
      → new_gateway_server b cfg now ≡ started gw
      → Reaches hash encode limiter encode_failure gw gw'
      → Sound gw'.world
  unfolding IsSound
  reachable-Sound b cfg now gw gw' e r =
      (Reaches_keep IsSound-Keeps gw gw' r tt (started-IsSound b cfg now gw e)).1

  -- However a gateway that has started runs: no session has a worker manager, and no job ever waits in
  -- the upstream channel of a worker pool.
  pub reachable-Idle :
      (b : Backends) (cfg : Config) (now : ℕ) (gw gw' : Gateway)
      → new_gateway_server b cfg now ≡ started gw
      → Reaches hash encode limiter encode_failure gw gw'
      → Idle gw'.world
  unfolding IsIdle
  reachable-Idle b cfg now gw gw' e r =
      let (d, h) = started-IsIdle b cfg now gw e in (Reaches_keep IsIdle-Keeps gw gw' r d h).1
