-- ===== src/System/Idle.antt =====
-- What never happens in the gateway as it is started: no session has a worker manager, and no job is
-- queued for an upstream worker.
use long_gw.Base.{ℕ, ◌≡◌, refl, [], false, some, Str, arith, Option-cases, inl, inr}
use long_gw.Base.Dict.{lookup, lookup-insert}
use long_gw.World.{World, Deps, Pool, world_of}
use long_gw.Connection.{conn_submit, write_next}
use long_gw.Worker.{
  put_pool, take_upstream, take_downstream, submit_upstream, manager_submit_downstream,
  pool_submit_downstream,
}
use long_gw.Worker.Queues.{tail}
use long_gw.System.Keeps.{Keeps}

-- No session has a worker manager.
abbrev pub HasNoWorker : Deps → Type 0
HasNoWorker d = d.has_worker ≡ false

-- No job waits in the upstream channel of a worker pool.
abbrev pub HasNoJob : World → Type 0
HasNoJob w = (biz : Str) (p : Pool) → lookup biz w.pools ≡ some p → p.upstream_ch ≡ []

pub record Idle (w : World) : Type 0 where
  pub sessions : (s : ℕ) → HasNoWorker (w.sessions s).deps
  pub jobs : HasNoJob w

unfoldable pub IsIdle : World → Type 0
IsIdle w = Idle w

-- A call that keeps the sessions and the pools.
pub same-IsIdle :
    (w w' : World) → w'.sessions ≡ w.sessions → w'.pools ≡ w.pools → IsIdle w → IsIdle w'
unfolding IsIdle
same-IsIdle w w' s p h = record { sessions = λ i. rw s (h.sessions i); jobs = rw p h.jobs }

conn_submit-IsIdle : (c m : ℕ) (w : World) → IsIdle w → IsIdle (conn_submit c m w).1
unfolding conn_submit
conn_submit-IsIdle c m w h = same-IsIdle w _ (ground arith) (ground arith) h

write_next-IsIdle : (c : ℕ) (w : World) → IsIdle w → IsIdle (write_next c w).0
unfolding write_next
write_next-IsIdle c w h = same-IsIdle w _ (ground arith) (ground arith) h

-- A pool without jobs is written.
pub put_pool-HasNoJob :
    (biz : Str) (p : Pool) (w : World)
    → p.upstream_ch ≡ []
    → HasNoJob w
    → HasNoJob (put_pool biz p w)
put_pool-HasNoJob b p w q h biz p' e = ground (arith, e, q, h biz p', lookup-insert b biz p w.pools)

take_upstream-same : (biz : Str) (w : World) → HasNoJob w → (take_upstream biz w).0 ≡ w
unfolding take_upstream
take_upstream-same biz w h = elim (Option-cases (lookup biz w.pools)) [
  | inl n ↦ rw (take_upstream, n) refl
  | inr (p, e) ↦ rw (take_upstream, e, h biz p e) refl
]

take_downstream-HasNoJob : (biz : Str) (w : World) → HasNoJob w → HasNoJob (take_downstream biz w).0
unfolding take_downstream
take_downstream-HasNoJob b w h = elim (Option-cases (lookup b w.pools)) [
  | inl n ↦ rw (take_downstream, n) h
  | inr (q, f) ↦ λ biz p e. ground (
    arith,
    e,
    f,
    h biz p,
    h b q f,
    lookup-insert b biz (record q { downstream_ch = tail q.downstream_ch }) w.pools,
  )
]

submit_downstream-HasNoJob :
    (biz : Str) (m : ℕ) (w : World) → HasNoJob w → HasNoJob (manager_submit_downstream biz m w).0
unfolding manager_submit_downstream pool_submit_downstream
submit_downstream-HasNoJob biz m w h = elim (Option-cases (lookup biz w.pools)) [
  | inl n ↦ rw (manager_submit_downstream, n) h
  | inr (p, e) ↦
      rw (manager_submit_downstream, e)
        (put_pool-HasNoJob biz (pool_submit_downstream m p).0 w (ground (arith, h biz p e)) h)
]

submit_upstream-same :
    (s m : ℕ) (w : World) → HasNoWorker (w.sessions s).deps → world_of (submit_upstream s m w) ≡ w
unfolding submit_upstream
submit_upstream-same s m w e = ground (arith, e)

take_frame-sessions :
    (biz : Str) (w : World)
    → ((take_upstream biz w).0.sessions ≡ w.sessions)
      × ((take_downstream biz w).0.sessions ≡ w.sessions)
unfolding take_upstream take_downstream
take_frame-sessions biz w = (ground arith, ground arith)

submit_downstream-sessions :
    (biz : Str) (m : ℕ) (w : World) → (manager_submit_downstream biz m w).0.sessions ≡ w.sessions
unfolding manager_submit_downstream
submit_downstream-sessions biz m w = ground arith

-- The invariant is kept, where a new session has no worker manager.
pub IsIdle-Keeps : Keeps IsIdle HasNoWorker
unfolding IsIdle
IsIdle-Keeps = record {
  timers = λ w w' e t h. record { sessions = λ s. rw (e.3 s) (h.sessions s); jobs = rw e.1 h.jobs };
  routers = λ r w q h. record { sessions = h.sessions; jobs = h.jobs };
  connects = λ c conn w q h. record { sessions = h.sessions; jobs = h.jobs };
  makes =
      λ s sess w ok h. record { sessions = λ i. ground (arith, ok, h.sessions i); jobs = h.jobs };
  acks = λ d ok. ok;
  sends = conn_submit-IsIdle;
  writes = write_next-IsIdle;
  takes = λ biz w h.
      let f = take_frame-sessions biz w in
      (
        record {
          sessions = λ s. rw f.0 (h.sessions s);
          jobs = rw (take_upstream-same biz w h.jobs) h.jobs;
        },
        record {
          sessions = λ s. rw f.1 (h.sessions s);
          jobs = take_downstream-HasNoJob biz w h.jobs;
        },
      );
  submits = λ s m w h. record {
    sessions = rw (submit_upstream-same s m w (h.sessions s)) h.sessions;
    jobs = rw (submit_upstream-same s m w (h.sessions s)) h.jobs;
  };
  pushes = λ biz m w h. record {
    sessions = λ s. rw (submit_downstream-sessions biz m w) (h.sessions s);
    jobs = submit_downstream-HasNoJob biz m w h.jobs;
  };
}
