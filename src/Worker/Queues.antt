-- ===== src/Worker/Queues.antt =====
-- The channels of the worker pools: what a job's way into them does, and that they stay bounded.
use long_gw.Base.{
  ℕ, Option, true, ◌≤◌, ◌≡◌, List, [], not, ◌&&◌, is_some, str_eq_iff, ◌∷◌, ◌++◌, Bool, false, none,
  some, Str, str_eq, ltb, if◌then◌else◌, length, arith, Option-cases, inl, inr, length-append,
}
use long_gw.Base.Dict.{lookup, lookup-insert}
use long_gw.World.{World, Pool, UpstreamJob, Outcome, done, panic, world_of}
use long_gw.Worker.{
  WorkerError, channel_cap, pool_submit_upstream, pool_submit_downstream, manager_submit_upstream,
  manager_submit_downstream, biz_of, submit_upstream, take_upstream, take_downstream,
}

-- What is left behind the first element.
abbrev pub tail {ℓ} : {A : Type ℓ} → List A → List A
tail [] = []
tail (x ∷ xs) = xs

-- Every channel of every pool holds as many jobs as it has room for, at most.
unfoldable pub AreBounded : World → Type 0
AreBounded w =
    (biz : Str) (p : Pool)
    → lookup biz w.pools ≡ some p
    → (length p.upstream_ch ≤ channel_cap) × (length p.downstream_ch ≤ channel_cap)

-- The jobs that wait in a domain's pool, none where there is no pool.
abbrev pub jobs : Str → World → List UpstreamJob
jobs biz w = elim (lookup biz w.pools) [ none ↦ [] | some p ↦ p.upstream_ch ]

-- Whether a domain is named, has a pool, and its pool has room for a job.
abbrev pub has_room : Str → World → Bool
has_room biz w =
    not (str_eq biz [])
    && elim (lookup biz w.pools) [ none ↦ false | some p ↦ ltb (length p.upstream_ch) channel_cap ]

-- The error of a call that does not panic.
abbrev pub error_of : Outcome (Option WorkerError) → Option WorkerError
error_of (done e w) = e
error_of (panic w) = none

-- Of a session with a worker manager a message goes to the pool of its own domain, or else to the
-- session's. It is refused exactly where no domain is named, the domain has no pool or the pool has
-- no room, and then every pool keeps its jobs; otherwise its job becomes the last of that pool, and
-- the other pools keep theirs.
pub submit_upstream_total :
    (s m : ℕ) (w : World) (j : Str)
    → (w.sessions s).deps.has_worker ≡ true
    → let biz = biz_of (w.msgs m).biz_code (w.sessions s).biz_code in
      let answer = submit_upstream s m w in
      (answer ≡ done (error_of answer) (world_of answer))
      × (is_some (error_of answer) ≡ not (has_room biz w))
      × (jobs j (world_of answer) ≡ (
          if has_room biz w && str_eq biz j
          then jobs j w ++ (record { job_session = s; job_msg = m } ∷ [])
          else jobs j w))
unfolding submit_upstream manager_submit_upstream pool_submit_upstream
submit_upstream_total s m w j g =
    let biz = biz_of (w.msgs m).biz_code (w.sessions s).biz_code in
    elim (Option-cases (lookup biz w.pools)) [
      | inl n ↦ ground (arith, n)
      | inr (p, e) ↦ ground (
        arith,
        e,
        str_eq_iff biz j,
        lookup-insert biz j p w.pools,
        lookup-insert biz j
            (record p {
              upstream_ch = p.upstream_ch ++ (record { job_session = s; job_msg = m } ∷ []);
            })
            w.pools,
      )
    ]

-- Submitting a message upstream keeps the channels bounded.
pub submit_upstream-AreBounded :
    (s m : ℕ) (w : World) → AreBounded w → AreBounded (world_of (submit_upstream s m w))
unfolding AreBounded submit_upstream manager_submit_upstream pool_submit_upstream
submit_upstream-AreBounded s m w h biz p e =
    let b = biz_of (w.msgs m).biz_code (w.sessions s).biz_code in
    elim (Option-cases (lookup b w.pools)) [
      | inl n ↦ h biz p (ground (arith, n, e))
      | inr (q, f) ↦ ground (
        arith,
        e,
        f,
        h biz p,
        h b q f,
        length-append q.upstream_ch (record { job_session = s; job_msg = m } ∷ []),
        lookup-insert b biz q w.pools,
        lookup-insert b biz
            (record q {
              upstream_ch = q.upstream_ch ++ (record { job_session = s; job_msg = m } ∷ []);
            })
            w.pools,
      )
    ]

-- So does handing a message to the downstream workers.
pub submit_downstream-AreBounded :
    (biz : Str) (m : ℕ) (w : World)
    → AreBounded w
    → AreBounded (manager_submit_downstream biz m w).0
unfolding AreBounded manager_submit_downstream pool_submit_downstream
submit_downstream-AreBounded b m w h biz p e = elim (Option-cases (lookup b w.pools)) [
  | inl n ↦ h biz p (ground (arith, n, e))
  | inr (q, f) ↦ ground (
    arith,
    e,
    f,
    h biz p,
    h b q f,
    length-append q.downstream_ch (m ∷ []),
    lookup-insert b biz q w.pools,
    lookup-insert b biz (record q { downstream_ch = q.downstream_ch ++ (m ∷ []) }) w.pools,
  )
]

-- Taking a job keeps the channels bounded.
pub take-AreBounded :
    (biz : Str) (w : World)
    → AreBounded w
    → AreBounded (take_upstream biz w).0 × AreBounded (take_downstream biz w).0
unfolding AreBounded take_upstream take_downstream
take-AreBounded b w h = elim (Option-cases (lookup b w.pools)) [
  | inl n ↦ (λ biz p e. h biz p (ground (arith, n, e)), λ biz p e. h biz p (ground (arith, n, e)))
  | inr (q, f) ↦ (
    λ biz p e. ground (
      arith,
      e,
      f,
      h biz p,
      h b q f,
      lookup-insert b biz (record q { upstream_ch = tail q.upstream_ch }) w.pools,
    ),
    λ biz p e. ground (
      arith,
      e,
      f,
      h biz p,
      h b q f,
      lookup-insert b biz (record q { downstream_ch = tail q.downstream_ch }) w.pools,
    ),
  )
]
