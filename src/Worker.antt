-- ===== src/Worker.antt =====
-- The worker pools, gateway/internal/worker/manager.go and pool.go, and the session's way into them,
-- `SubmitUpstream` of gateway/internal/session/session.go.
pub mod Queues
pub mod Brokers
pub mod Offsets
pub mod Topics
pub mod Failures
pub mod Shutdown
pub mod Senders
use long_gw.Base.{
  ℕ, ◌+◌, List, [], ◌∷◌, ◌++◌, Bool, true, false, ◌&&◌, Option, none, some, Str, Bytes, lit, str_eq,
  ltb, if◌then◌else◌, length,
}
use long_gw.Base.Dict.{Dict, lookup, insert}
use long_gw.Connection.{is_expired}
use long_gw.Session.{submit}
use long_gw.World.{
  World, Pool, UpstreamJob, Message, Delivery, error_frame, unspecified, Outcome, done, panic,
  and_then, put_msg,
}

-- `make(chan UpstreamJob, 100)` and `make(chan DownstreamJob, 100)`
abbrev pub channel_cap : ℕ
channel_cap = 100

abbrev pub empty_pool : Pool
empty_pool = record { upstream_ch = []; downstream_ch = [] }

pub data WorkerError : Type 0 where
  empty_biz_code unknown_biz_code pool_full : WorkerError

abbrev pub put_pool : Str → Pool → World → World
put_pool biz p w = record w { pools = insert biz p w.pools }

-- `AddPool`
unfoldable pub add_pool : Str → World → World
add_pool biz w = put_pool biz empty_pool w

-- `WorkerPool.SubmitUpstream`
unfoldable pub pool_submit_upstream : UpstreamJob → Pool → Pool × Option WorkerError
pool_submit_upstream job p =
    if ltb (length p.upstream_ch) channel_cap
    then (record p { upstream_ch = p.upstream_ch ++ (job ∷ []) }, none)
    else (p, some pool_full)

-- `WorkerPool.SubmitDownstream`
unfoldable pub pool_submit_downstream : ℕ → Pool → Pool × Bool
pool_submit_downstream m p =
    if ltb (length p.downstream_ch) channel_cap
    then (record p { downstream_ch = p.downstream_ch ++ (m ∷ []) }, true)
    else (p, false)

-- `Manager.SubmitUpstream`
unfoldable pub manager_submit_upstream : Str → UpstreamJob → World → World × Option WorkerError
manager_submit_upstream biz job w = elim (lookup biz w.pools) [
  | none ↦ (w, some unknown_biz_code)
  | some p ↦ let (p', e) = pool_submit_upstream job p in (put_pool biz p' w, e)
]

-- `Manager.SubmitDownstream`
unfoldable pub manager_submit_downstream : Str → ℕ → World → World × Bool
manager_submit_downstream biz m w = elim (lookup biz w.pools) [
  | none ↦ (w, false)
  | some p ↦ let (p', sent) = pool_submit_downstream m p in (put_pool biz p' w, sent)
]

-- `case job := <-p.upstreamCh`: the first job of the domain's channel is taken.
unfoldable pub take_upstream : Str → World → World × Option UpstreamJob
take_upstream biz w = elim (lookup biz w.pools) [
  | none ↦ (w, none)
  | some p ↦ elim p.upstream_ch [
    | [] ↦ (w, none)
    | job ∷ rest ↦ (put_pool biz (record p { upstream_ch = rest }) w, some job)
  ]
]

-- `case job := <-p.downstreamCh`
unfoldable pub take_downstream : Str → World → World × Option ℕ
take_downstream biz w = elim (lookup biz w.pools) [
  | none ↦ (w, none)
  | some p ↦ elim p.downstream_ch [
    | [] ↦ (w, none)
    | m ∷ rest ↦ (put_pool biz (record p { downstream_ch = rest }) w, some m)
  ]
]

-- The business domain of a message: its own, or the session's.
abbrev pub biz_of : Str → Str → Str
biz_of own default = if str_eq own [] then default else own

-- What `SubmitUpstream` of the manager returns.
abbrev pub answered : World × Option WorkerError → Outcome (Option WorkerError)
answered (w, e) = done e w

-- `Session.SubmitUpstream`: its error, if any. Without a manager in the dependencies the call through
-- the nil interface panics.
unfoldable pub submit_upstream : ℕ → ℕ → World → Outcome (Option WorkerError)
submit_upstream s m w =
    let biz = biz_of (w.msgs m).biz_code (w.sessions s).biz_code in
    if str_eq biz []
    then done (some empty_biz_code) w
    else if (w.sessions s).deps.has_worker
    then answered (manager_submit_upstream biz (record { job_session = s; job_msg = m }) w)
    else panic w

-- A fresh message: its pointer is the old `next_msg`.
abbrev pub alloc : Message → World → World
alloc m w = put_msg w.next_msg m (record w { next_msg = w.next_msg + 1 })

-- The frame that tells a client that its message was not sent upstream, with its error's payload.
abbrev pub failure_frame : Message → Bytes → Message
failure_frame msg payload = record {
  msg_id = [];
  kind = error_frame;
  biz_code = [];
  seq_id = 0;
  expire_at = 0;
  to = none;
  from = none;
  delivery = some (record { qos = unspecified; offline = false; ack_id = some msg.msg_id });
  trace = some msg.msg_id;
  headers = [];
  body = payload;
}

-- One job of `upstreamWorker`. `send` is the upstream sender, which answers with its error, and
-- `encode` the protobuf form of the error's payload. The reply goes out through the session.
unfoldable pub upstream_job :
    (Message → Option Str) → (Str → Bytes) → UpstreamJob → World → Outcome (Unit {0})
upstream_job send encode job w =
    let msg = w.msgs job.job_msg in
    if is_expired w.clock msg.expire_at then done tt w else elim (send msg) [
      | none ↦ done tt w
      | some e ↦
          and_then (submit job.job_session w.next_msg (alloc (failure_frame msg (encode e)) w))
            λ _ w'. done tt w'
    ]

-- One turn of `upstreamWorker` of a domain's pool.
unfoldable pub upstream_turn :
    (Message → Option Str) → (Str → Bytes) → Str → World → Outcome (Unit {0})
upstream_turn send encode biz w =
    let (w', taken) = take_upstream biz w in
    elim taken [ none ↦ done tt w' | some job ↦ upstream_job send encode job w' ]
