-- ===== src/System/Pools.antt =====
-- The upstream turns of the worker pools keep an invariant of the world.
use long_gw.Base.{refl, Option, Str, Bytes, arith, Option-cases, inl, inr}
use long_gw.World.{Deps, World, Message, world_of, UpstreamJob}
use long_gw.Worker.{alloc, failure_frame, take_upstream, upstream_job, upstream_turn}
use long_gw.System.Calls.{submit_keeps}
use long_gw.System.Keeps.{Keeps, stores_keep}

module _ {I : World → Type 0} {allowed : Deps → Type 0} (keeps : Keeps I allowed) where
  pub alloc_keeps : (m : Message) (w : World) → I w → I (alloc m w)
  alloc_keeps m w h = stores_keep keeps w _ (refl, refl, refl, refl) refl h

  module _ (send : Message → Option Str) (encode : Str → Bytes) where
    upstream_job_keeps :
        (job : UpstreamJob) (w : World) → I w → I (world_of (upstream_job send encode job w))
    unfolding upstream_job
    upstream_job_keeps job w h = elim (Option-cases (send (w.msgs job.job_msg))) [
      | inl n ↦ ground (arith, h, n)
      | inr (e, q) ↦ ground (
        arith,
        h,
        q,
        submit_keeps keeps job.job_session w.next_msg
            (alloc (failure_frame (w.msgs job.job_msg) (encode e)) w)
            (alloc_keeps (failure_frame (w.msgs job.job_msg) (encode e)) w h),
      )
    ]

    pub upstream_turn_keeps :
        (biz : Str) (w : World) → I w → I (world_of (upstream_turn send encode biz w))
    unfolding upstream_turn
    upstream_turn_keeps biz w h =
        let w' = (take_upstream biz w).0 in
        let h' = (keeps.takes biz w h).0 in
        elim (Option-cases ((take_upstream biz w).1)) [
          | inl n ↦ ground (arith, n, h')
          | inr (job, e) ↦ ground (arith, e, upstream_job_keeps job w' h')
        ]
