-- ===== src/Tests/Runs.antt =====
-- Messages on their way through the small gateway, and a pool that is stopped.
use long_gw.Tests.Data.{qos1, message, target, no_jobs, online}
use long_gw.Base.{
  ℕ, ◌≡◌, refl, [], ◌∷◌, ◌++◌, true, false, ◌&&◌, some, Str, if◌then◌else◌, length, Option, none,
  Bytes, lit, str_eq,
}
use long_gw.Base.Dict.{lookup, values}
use long_gw.Router.{resolve, targets}
use long_gw.World.{World, Message, Pool, world_of, done, UpstreamJob, business}
use long_gw.Connection.{is_expired, next_seq, write_next}
use long_gw.Scanner.{wants_ack}
use long_gw.Session.Submit.{deliverable}
use long_gw.Pipeline.Downlink.{downstream_turn}
use long_gw.Worker.{pool_submit_downstream, upstream_turn}
use long_gw.Worker.Brokers.{decoded, manager_consumer_round}
use long_gw.System.Delivery.{write_turns, fetched-written}
use long_gw.Worker.Failures.{frame_of, fails, upstream_turn-replies}
use long_gw.Worker.Shutdown.{
  PoolLife, new_worker_pool, start_pool, begin_upstream, begin_downstream, life_submit_upstream,
  life_submit_downstream, stop_pool, returns, upstream_select, downstream_select, crashes,
  begins_upstream, begins_downstream, submits_downstream, pool_step, pool_run,
}
use long_gw.Worker.Shutdown.Stops.{is_drained, stop_pool-waits_for_none}

abbrev news : Message
news = message business (some qos1)

abbrev plain_failure : Str → Bytes
plain_failure text = text

abbrev refusing : Message → Option Str
refusing m = some (lit "broker")

abbrev upstream_of : ℕ → UpstreamJob
upstream_of s = record { job_session = s; job_msg = 0 }

abbrev one_job : Pool
one_job = record { upstream_ch = upstream_of 0 ∷ []; downstream_ch = [] }

abbrev busy : World
busy = record online { pools = (lit "im", one_job) ∷ [] }

fetched-written_example :
    let (w1, committed) = manager_consumer_round (decoded news) online in
    let w2 = downstream_turn true news.biz_code w1 in
    let turns = length (online.conns 0).write_ch in
    (committed ≡ true)
    × ((write_next 0 (write_turns 0 turns w2)).1
        ≡ some (record news { seq_id = next_seq (online.conns 0) }))
    × (w2.stored ≡ online.stored)
    × (lookup news.msg_id (w2.sessions (target 0).ref).pending_acks ≡ (
        if (online.sessions (target 0).ref).deps.has_acker && wants_ack news
        then some (record { msg = online.next_msg; retry_count = 0; last_retry_at = online.clock })
        else lookup news.msg_id (online.sessions (target 0).ref).pending_acks))
unfolding str_eq lookup resolve targets values is_expired
fetched-written_example =
    fetched-written true news no_jobs (lit "u1") (lit "t1") (target 0) 0 online refl refl refl refl
      refl refl refl refl refl

upstream_turn-replies_example :
    let msg = busy.msgs (upstream_of 0).job_msg in
    let answer = upstream_turn refusing plain_failure (lit "im") busy in
    let after = world_of answer in
    (answer ≡ done tt after)
    × (lookup (lit "im") after.pools ≡ some (record one_job { upstream_ch = [] }))
    × (after.stored ≡ busy.stored)
    × ((after.conns 0).write_ch ≡ (
        if fails refusing busy.clock msg && deliverable (upstream_of 0).job_session busy
        then (busy.conns 0).write_ch ++ (busy.next_msg ∷ [])
        else (busy.conns 0).write_ch))
    × (record (after.msgs busy.next_msg) { seq_id = 0 }
        ≡ frame_of refusing plain_failure busy.clock msg (busy.msgs busy.next_msg))
unfolding str_eq lookup
upstream_turn-replies_example =
    upstream_turn-replies refusing plain_failure (lit "im") one_job (upstream_of 0) [] 0 busy refl
      refl refl

stop_pool-waits_for_none_example :
    let p =
      pool_run
        (begins_upstream ∷ (begins_downstream ∷ (begins_upstream ∷ (submits_downstream 7 ∷ []))))
        (start_pool 2 1 new_worker_pool) in
    (p' : PoolLife) × (stop_pool p ≡ some p')
    × (p'.waits_for ≡ 0)
    × (p'.working_up ≡ 2)
    × (p'.working_down ≡ 1)
    × (p'.pool ≡ p.pool)
    × (life_submit_upstream (upstream_of 0) p' ≡ none)
    × (life_submit_downstream 8 p' ≡ none)
    × (stop_pool p' ≡ none)
    × (upstream_select true p' ≡ returns)
    × (downstream_select true p' ≡ returns)
    × (crashes (upstream_select false p') ≡ is_drained p'.pool.upstream_ch)
unfolding pool_run pool_step start_pool new_worker_pool begin_upstream begin_downstream
    life_submit_downstream pool_submit_downstream
stop_pool-waits_for_none_example =
    stop_pool-waits_for_none 2 1
      (begins_upstream ∷ (begins_downstream ∷ (begins_upstream ∷ (submits_downstream 7 ∷ []))))
      (upstream_of 0) 8 refl refl
