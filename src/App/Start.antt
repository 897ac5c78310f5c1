-- ===== src/App/Start.antt =====
-- When the gateway starts, and what it starts with.
use long_gw.Base.{
  ℕ, subst, zero, suc, ◌≡◌, refl, List, [], ◌∷◌, Bool, true, false, not, ◌&&◌, Option, none, some,
  Str, str_eq, arith, Option-cases, inl, inr, is_some,
}
use long_gw.Base.Dict.{lookup, lookup-insert}
use long_gw.Router.Membership.{run as run_calls, run-new-IsWellFormed}
use long_gw.Timer.Live.{new_wheel-IsTracked}
use long_gw.Timer.Shards.{AreTracked}
use long_gw.World.{World, TimeoutPayload}
use long_gw.Factory.{Gateway}
use long_gw.Worker.{add_pool, empty_pool}
use long_gw.Worker.Queues.{AreBounded}
use long_gw.System.Sound.{IsSound, pools-IsSound, IsSound-AreBounded}
use long_gw.System.Idle.{IsIdle, HasNoWorker, put_pool-HasNoJob}
use long_gw.App.{
  Config, Backends, StartError, redis_not_configured, new_redis, new_db, new_service_context,
  is_kafka, register_worker_pools, new_wheels, empty_world, Started, start_panics, start_fails,
  started, with_pools, new_gateway_server, RunEnd, panics, logs, serves, start, run,
}

abbrev pub all_kafka : List (Str × Str) → Bool
all_kafka [] = true
all_kafka ((biz, sender) ∷ rest) = is_kafka sender && all_kafka rest

register_worker_pools-ends :
    (ws : List (Str × Str)) (w : World)
    → is_some (register_worker_pools ws w).1 ≡ not (all_kafka ws)
unfolding register_worker_pools
register_worker_pools-ends [] w = refl
register_worker_pools-ends ((biz, sender) ∷ rest) w =
    ground (arith, register_worker_pools-ends rest (add_pool biz w))

abbrev pub is_started : Started → Bool
is_started (started gw) = true
is_started _ = false

with_pools-is_started :
    (r : World × Option StartError) → is_started (with_pools r) ≡ not (is_some r.1)
with_pools-is_started (w, none) = refl
with_pools-is_started (w, some e) = refl

-- The gateway starts exactly where the configuration names no Redis address, Redis answers at the
-- empty one, a database is named and opens, and every business domain's sender is Kafka; with a
-- Redis address in the configuration it panics.
pub new_gateway_server-starts :
    (b : Backends) (cfg : Config) (now : ℕ)
    → (is_started (new_gateway_server b cfg now) ≡ (
        str_eq cfg.redis_addr []
        && (b.answers_ping cfg.redis_addr
            && (not (str_eq cfg.dsn []) && (b.opens cfg.dsn && all_kafka cfg.workers)))))
      × (str_eq cfg.redis_addr [] ≡ false
          → new_gateway_server b cfg now ≡ start_panics redis_not_configured)
unfolding new_gateway_server new_service_context new_redis new_db
new_gateway_server-starts b cfg now = (
  ground (
    arith,
    with_pools-is_started (register_worker_pools cfg.workers (empty_world now)),
    register_worker_pools-ends cfg.workers (empty_world now),
  ),
  λ h. ground (arith, h),
)

-- What the configuration and the backends have to be for the gateway to start.
abbrev pub can_start : Backends → Config → Bool
can_start b cfg =
    str_eq cfg.redis_addr []
    && (b.answers_ping cfg.redis_addr
        && (not (str_eq cfg.dsn []) && (b.opens cfg.dsn && all_kafka cfg.workers)))

abbrev pub is_serving : RunEnd → Bool
is_serving (serves gw) = true
is_serving panics = false
is_serving logs = false

abbrev pub is_panic : RunEnd → Bool
is_panic panics = true
is_panic logs = false
is_panic (serves gw) = false

-- With a configuration that is loaded, `Run` serves exactly where the configuration names no Redis
-- address, Redis answers at the empty one, a database is named and opens, every business domain's
-- sender is Kafka, and the address can be listened on. Where the last fails alone it logs, and in every
-- other case it panics, also without a configuration.
pub run-serves :
    (b : Backends) (cfg : Config) (now : ℕ) (listens : Bool)
    → (is_serving (run (some cfg) listens b now) ≡ (can_start b cfg && listens))
      × (is_panic (run (some cfg) listens b now) ≡ not (can_start b cfg))
      × (run none listens b now ≡ panics)
unfolding run start
run-serves b cfg now listens = ended (new_gateway_server b cfg now) refl
  where
    ended :
        (r : Started)
        → new_gateway_server b cfg now ≡ r
        → (is_serving (run (some cfg) listens b now) ≡ (can_start b cfg && listens))
          × (is_panic (run (some cfg) listens b now) ≡ not (can_start b cfg))
          × (run none listens b now ≡ panics)
    ended (start_panics e) q = ground (arith, q, (new_gateway_server-starts b cfg now).0)
    ended (start_fails e) q = ground (arith, q, (new_gateway_server-starts b cfg now).0)
    ended (started gw) q = ground (arith, q, (new_gateway_server-starts b cfg now).0)

new_wheels-AreTracked : (n : ℕ) → AreTracked (new_wheels n)
unfolding new_wheels
new_wheels-AreTracked zero = tt
new_wheels-AreTracked (suc n) = (new_wheel-IsTracked TimeoutPayload, new_wheels-AreTracked n)

empty_world-IsSound : (now : ℕ) → IsSound (empty_world now)
unfolding IsSound AreBounded lookup run_calls
empty_world-IsSound now = record {
  channels = λ c. omega arith;
  pools = λ biz p e. ground (arith, e);
  router = run-new-IsWellFormed [];
  timers = new_wheels-AreTracked 64;
}

add_pool-AreBounded : (biz : Str) (w : World) → AreBounded w → AreBounded (add_pool biz w)
unfolding AreBounded add_pool
add_pool-AreBounded b w h biz p e =
    ground (arith, e, h biz p, lookup-insert b biz empty_pool w.pools)

add_pool-IsSound : (biz : Str) (w : World) → IsSound w → IsSound (add_pool biz w)
unfolding add_pool
add_pool-IsSound biz w h =
    pools-IsSound w _ (add_pool-AreBounded biz w (IsSound-AreBounded w h)) h refl refl refl

-- What the empty world has and registering a pool keeps, a gateway that has started has.
module _ {I : World → Type 0} (adds : (biz : Str) (w : World) → I w → I (add_pool biz w)) where
  register_worker_pools_keeps :
      (ws : List (Str × Str)) (w : World) → I w → I (register_worker_pools ws w).0
  unfolding register_worker_pools
  register_worker_pools_keeps [] w h = h
  register_worker_pools_keeps ((biz, sender) ∷ rest) w h =
      ground (arith, h, register_worker_pools_keeps rest (add_pool biz w) (adds biz w h))

  with_pools_keeps :
      (r : World × Option StartError) (gw : Gateway)
      → I r.0
      → with_pools r ≡ started gw
      → I gw.world
  with_pools_keeps (w, some x) gw h e = ground (arith, e)
  with_pools_keeps (w, none) gw h e =
      let q : w ≡ gw.world = ground (arith, e) in subst (λ v. I v) q h

  started_keeps :
      (b : Backends) (cfg : Config) (now : ℕ) (gw : Gateway)
      → I (empty_world now)
      → new_gateway_server b cfg now ≡ started gw
      → I gw.world
  unfolding new_gateway_server
  started_keeps b cfg now gw h e =
      with_pools_keeps (register_worker_pools cfg.workers (empty_world now)) gw
        (register_worker_pools_keeps cfg.workers _ h)
        (elim (Option-cases (new_service_context b cfg)) [
          | inl n ↦ ground (arith, e, n)
          | inr (x, n) ↦ ground (arith, e, n)
        ])

-- A gateway that has started is sound: its channels are empty, its router's maps hold each key once,
-- and its wheels are consistent.
pub started-IsSound :
    (b : Backends) (cfg : Config) (now : ℕ) (gw : Gateway)
    → new_gateway_server b cfg now ≡ started gw
    → IsSound gw.world
started-IsSound b cfg now gw e =
    started_keeps add_pool-IsSound b cfg now gw (empty_world-IsSound now) e

empty_world-IsIdle : (now : ℕ) → IsIdle (empty_world now)
unfolding IsIdle lookup
empty_world-IsIdle now = record { sessions = λ s. refl; jobs = λ biz p e. ground (arith, e) }

add_pool-IsIdle : (biz : Str) (w : World) → IsIdle w → IsIdle (add_pool biz w)
unfolding IsIdle add_pool
add_pool-IsIdle b w h = record {
  sessions = h.sessions;
  jobs = put_pool-HasNoJob b empty_pool w refl h.jobs;
}

with_pools-registry :
    (r : World × Option StartError) (gw : Gateway)
    → with_pools r ≡ started gw
    → HasNoWorker gw.registry.registry_deps
with_pools-registry (w, some x) gw e = ground (arith, e)
with_pools-registry (w, none) gw e = ground (arith, e)

-- A gateway that has started has no session with a worker manager, none for those to come, and no
-- upstream job.
pub started-IsIdle :
    (b : Backends) (cfg : Config) (now : ℕ) (gw : Gateway)
    → new_gateway_server b cfg now ≡ started gw
    → HasNoWorker gw.registry.registry_deps × IsIdle gw.world
unfolding new_gateway_server
started-IsIdle b cfg now gw e = (
  with_pools-registry (register_worker_pools cfg.workers (empty_world now)) gw
      (elim (Option-cases (new_service_context b cfg)) [
        | inl n ↦ ground (arith, e, n)
        | inr (x, n) ↦ ground (arith, e, n)
      ]),
  started_keeps add_pool-IsIdle b cfg now gw (empty_world-IsIdle now) e,
)
