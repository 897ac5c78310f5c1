-- ===== src/Worker/Shutdown/Stops.antt =====
-- What `Stop` of a worker pool waits for, and what it leaves behind.
use long_gw.Base.{ℕ, ◌+◌, ◌≡◌, refl, List, [], ◌∷◌, Bool, true, false, none, some, arith}
use long_gw.World.{UpstreamJob}
use long_gw.Worker.Shutdown.{
  PoolLife, new_worker_pool, start_pool, begin_upstream, begin_downstream, life_submit_upstream,
  life_submit_downstream, stop_pool, returns, upstream_select, downstream_select, crashes,
  PoolEvent, begins_upstream, begins_downstream, takes_upstream, takes_downstream, submits_upstream,
  submits_downstream, pool_step, pool_run,
}

abbrev pub is_drained {ℓ} : {A : Type ℓ} → List A → Bool
is_drained [] = true
is_drained (x ∷ xs) = false

-- A pool that was started with `n` and `m` workers and not stopped: its wait group counts those that
-- have not begun.
pub record IsRunning (n m : ℕ) (p : PoolLife) : Type 0 where
  pub open_channels : p.channels_closed ≡ false
  pub counts_starting : p.waits_for ≡ p.starting_up + p.starting_down
  pub all_up : p.starting_up + p.working_up ≡ n
  pub all_down : p.starting_down + p.working_down ≡ m

start_pool-IsRunning : (n m : ℕ) → IsRunning n m (start_pool n m new_worker_pool)
unfolding start_pool new_worker_pool
start_pool-IsRunning n m = record {
  open_channels = refl;
  counts_starting = omega arith;
  all_up = omega arith;
  all_down = omega arith;
}

-- What happens to the channels.
pool-IsRunning :
    (n m : ℕ) (p p' : PoolLife)
    → p' ≡ record p { pool = p'.pool }
    → IsRunning n m p
    → IsRunning n m p'
pool-IsRunning n m p p' e h = record {
  open_channels = ground (arith, e, h.open_channels);
  counts_starting = ground (arith, e, h.counts_starting);
  all_up = ground (arith, e, h.all_up);
  all_down = ground (arith, e, h.all_down);
}

pool_step-IsRunning :
    (n m : ℕ) (e : PoolEvent) (p : PoolLife) → IsRunning n m p → IsRunning n m (pool_step e p)
unfolding pool_step begin_upstream begin_downstream life_submit_upstream life_submit_downstream
pool_step-IsRunning n m begins_upstream p h = record {
  open_channels = ground (arith, h.open_channels);
  counts_starting = ground (arith, h.counts_starting);
  all_up = ground (arith, h.all_up);
  all_down = ground (arith, h.all_down);
}
pool_step-IsRunning n m begins_downstream p h = record {
  open_channels = ground (arith, h.open_channels);
  counts_starting = ground (arith, h.counts_starting);
  all_up = ground (arith, h.all_up);
  all_down = ground (arith, h.all_down);
}
pool_step-IsRunning n m takes_upstream p h = pool-IsRunning n m p _ (ground arith) h
pool_step-IsRunning n m takes_downstream p h = pool-IsRunning n m p _ (ground arith) h
pool_step-IsRunning n m (submits_upstream job) p h =
    pool-IsRunning n m p _ (ground (arith, h.open_channels)) h
pool_step-IsRunning n m (submits_downstream k) p h =
    pool-IsRunning n m p _ (ground (arith, h.open_channels)) h

pool_run-IsRunning :
    (n m : ℕ) (es : List PoolEvent) (p : PoolLife) → IsRunning n m p → IsRunning n m (pool_run es p)
unfolding pool_run
pool_run-IsRunning n m [] p h = h
pool_run-IsRunning n m (e ∷ es) p h =
    pool_run-IsRunning n m es (pool_step e p) (pool_step-IsRunning n m e p h)

-- A pool is started, and whatever happens to it then, all its workers have begun when it is stopped:
-- the wait group is at 0, so that `Stop` returns while every worker is still working. From then on
-- submitting to it and stopping it again panic. A worker of either kind may return whatever waits in its
-- channel, and an upstream worker whose channel is empty may as well crash.
pub stop_pool-waits_for_none :
    (n m : ℕ) (es : List PoolEvent) (job : UpstreamJob) (k : ℕ)
    → (pool_run es (start_pool n m new_worker_pool)).starting_up ≡ 0
    → (pool_run es (start_pool n m new_worker_pool)).starting_down ≡ 0
    → let p = pool_run es (start_pool n m new_worker_pool) in
      (p' : PoolLife) × (stop_pool p ≡ some p')
      × (p'.waits_for ≡ 0)
      × (p'.working_up ≡ n)
      × (p'.working_down ≡ m)
      × (p'.pool ≡ p.pool)
      × (life_submit_upstream job p' ≡ none)
      × (life_submit_downstream k p' ≡ none)
      × (stop_pool p' ≡ none)
      × (upstream_select true p' ≡ returns)
      × (downstream_select true p' ≡ returns)
      × (crashes (upstream_select false p') ≡ is_drained p'.pool.upstream_ch)
unfolding stop_pool life_submit_upstream life_submit_downstream upstream_select downstream_select
stop_pool-waits_for_none n m es job k u d =
    let p = pool_run es (start_pool n m new_worker_pool) in
    let h = pool_run-IsRunning n m es _ (start_pool-IsRunning n m) in
    (
      record p { cancelled = true; channels_closed = true },
      ground (arith, h.open_channels),
      omega (arith, h.counts_starting),
      omega (arith, h.all_up),
      omega (arith, h.all_down),
      refl,
      refl,
      refl,
      refl,
      refl,
      refl,
      ground arith,
    )
