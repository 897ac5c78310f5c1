-- ===== src/Worker/Shutdown.antt =====
-- Starting and stopping a worker pool: `Start`, `Stop` and the `select` of both workers of
-- gateway/internal/worker/pool.go.
pub mod Stops
use long_gw.Base.{
  ℕ, ◌+◌, ◌-◌, ◌==◌, ◌≡◌, refl, ◌∙◌, ap, List, [], ◌∷◌, Bool, true, false, not, ◌&&◌, ◌||◌, Option,
  none, some, if◌then◌else◌, arith,
}
use long_gw.World.{Pool, UpstreamJob}
use long_gw.Worker.{WorkerError, empty_pool, pool_submit_upstream, pool_submit_downstream}

-- A pool with its life: its context is cancelled, its channels are closed, the counter of its wait
-- group, the goroutines of each kind that have been made and have not begun, and those that work.
pub record PoolLife : Type 0 where
  pub pool : Pool
  pub cancelled : Bool
  pub channels_closed : Bool
  pub waits_for : ℕ
  pub starting_up : ℕ
  pub starting_down : ℕ
  pub working_up : ℕ
  pub working_down : ℕ

-- `newWorkerPool`
unfoldable pub new_worker_pool : PoolLife
new_worker_pool = record {
  pool = empty_pool;
  cancelled = false;
  channels_closed = false;
  waits_for = 0;
  starting_up = 0;
  starting_down = 0;
  working_up = 0;
  working_down = 0;
}

-- `Start`, with the numbers of workers of the configuration.
unfoldable pub start_pool : ℕ → ℕ → PoolLife → PoolLife
start_pool upstream_workers downstream_workers p = record p {
  waits_for = p.waits_for + upstream_workers + downstream_workers;
  starting_up = p.starting_up + upstream_workers;
  starting_down = p.starting_down + downstream_workers;
}

-- A goroutine begins, which calls `Done` and then its worker.
unfoldable pub begin_upstream : PoolLife → PoolLife
begin_upstream p = if p.starting_up == 0 then p else record p {
  waits_for = p.waits_for - 1;
  starting_up = p.starting_up - 1;
  working_up = p.working_up + 1;
}

unfoldable pub begin_downstream : PoolLife → PoolLife
begin_downstream p = if p.starting_down == 0 then p else record p {
  waits_for = p.waits_for - 1;
  starting_down = p.starting_down - 1;
  working_down = p.working_down + 1;
}

-- The submissions: to a closed channel they panic, which is `none`.
unfoldable pub life_submit_upstream :
    UpstreamJob → PoolLife → Option (PoolLife × Option WorkerError)
life_submit_upstream job p =
    if p.channels_closed
    then none
    else (let (q, e) = pool_submit_upstream job p.pool in some (record p { pool = q }, e))

unfoldable pub life_submit_downstream : ℕ → PoolLife → Option (PoolLife × Bool)
life_submit_downstream m p =
    if p.channels_closed
    then none
    else (let (q, ok) = pool_submit_downstream m p.pool in some (record p { pool = q }, ok))

-- `Stop`, up to its waiting: closing a closed channel panics, which is `none`.
unfoldable pub stop_pool : PoolLife → Option PoolLife
stop_pool p =
    if p.channels_closed then none else some (record p { cancelled = true; channels_closed = true })

-- What the `select` of a worker does: it returns, waits, takes a job, or takes nothing from a closed
-- channel, which is a job without a message. Where both cases are ready it takes either.
pub data Selected {ℓ} (J : Type ℓ) : Type ℓ where
  returns waits takes_nothing : Selected J
  takes : J → Selected J

abbrev from_channel {ℓ} : {J : Type ℓ} → List J → Bool → Selected J
from_channel [] closed = if closed then takes_nothing else waits
from_channel (job ∷ rest) closed = takes job

abbrev is_ready {ℓ} : {J : Type ℓ} → List J → Bool → Bool
is_ready [] closed = closed
is_ready (job ∷ rest) closed = true

abbrev select_of {ℓ} : {J : Type ℓ} → Bool → Bool → Bool → List J → Selected J
select_of prefers_done cancelled closed ch =
    if cancelled && (prefers_done || not (is_ready ch closed))
    then returns
    else from_channel ch closed

unfoldable pub upstream_select : Bool → PoolLife → Selected UpstreamJob
upstream_select prefers_done p =
    select_of prefers_done p.cancelled p.channels_closed p.pool.upstream_ch

unfoldable pub downstream_select : Bool → PoolLife → Selected ℕ
downstream_select prefers_done p =
    select_of prefers_done p.cancelled p.channels_closed p.pool.downstream_ch

-- What an upstream worker does with what it took: a job without a message is a nil dereference, that
-- nothing recovers.
abbrev pub crashes : Selected UpstreamJob → Bool
crashes takes_nothing = true
crashes returns = false
crashes waits = false
crashes (takes job) = false

-- What happens to a pool between `Start` and `Stop`. A worker takes a job where there is one.
pub data PoolEvent : Type 0 where
  begins_upstream begins_downstream takes_upstream takes_downstream : PoolEvent
  submits_upstream : UpstreamJob → PoolEvent
  submits_downstream : ℕ → PoolEvent

abbrev after_submission {ℓ} : {R : Type ℓ} → PoolLife → Option (PoolLife × R) → PoolLife
after_submission p none = p
after_submission p (some (q, r)) = q

unfoldable pub pool_step : PoolEvent → PoolLife → PoolLife
pool_step begins_upstream p = begin_upstream p
pool_step begins_downstream p = begin_downstream p
pool_step takes_upstream p = elim p.pool.upstream_ch [
  | [] ↦ p
  | job ∷ rest ↦ record p { pool = record (p.pool) { upstream_ch = rest } }
]
pool_step takes_downstream p = elim p.pool.downstream_ch [
  | [] ↦ p
  | m ∷ rest ↦ record p { pool = record (p.pool) { downstream_ch = rest } }
]
pool_step (submits_upstream job) p = after_submission p (life_submit_upstream job p)
pool_step (submits_downstream m) p = after_submission p (life_submit_downstream m p)

unfoldable pub pool_run : List PoolEvent → PoolLife → PoolLife
pool_run [] p = p
pool_run (e ∷ es) p = pool_run es (pool_step e p)
