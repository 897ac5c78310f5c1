-- ===== src/System/Downlinks.antt =====
-- The downlink pipeline keeps the invariant of the world.
use long_gw.Base.{ℕ, ◌+◌, refl, List, [], ◌∷◌, Bool, Str, length, arith, Option-cases, inl, inr}
use long_gw.Router.{Target, resolve}
use long_gw.World.{Deps, World, Outcome, done, panic, world_of, offline_store}
use long_gw.Session.{submit}
use long_gw.Worker.{take_downstream}
use long_gw.Pipeline.{flow_world, Flow}
use long_gw.Pipeline.Downlink.{
  DownlinkCtx, FanOutResult, drop_one, fan_out_loop, downstream_job, downstream_turn, new_ctx,
  no_result, recover_stage, validate_stage, validate_message, route_stage, filter_stage,
  filter_targets, exclude_id, fan_out_stage, store_offline, metrics_stage, build_chain, with_result,
  routed,
}
use long_gw.System.Calls.{submit_keeps}
use long_gw.System.Stages.{Preserves, IsSafe, run_chain-Preserves}
use long_gw.System.Keeps.{Keeps, stores_keep}

module _ {I : World → Type 0} {allowed : Deps → Type 0} (keeps : Keeps I allowed) where
  offline_store_keeps : (m : ℕ) (w : World) → I w → I (offline_store m w)
  offline_store_keeps m w h = stores_keep keeps w _ (refl, refl, refl, refl) refl h

  drop_one_keeps : (b : Bool) (m : ℕ) (r : FanOutResult) (w : World) → I w → I (drop_one b m r w).1
  unfolding drop_one
  drop_one_keeps b m r w h = ground (arith, h, offline_store_keeps m w h)

  fan_out_loop_keeps :
      (b : Bool) (m : ℕ) (ts : List Target) (r : FanOutResult) (w : World)
      → I w
      → I (world_of (fan_out_loop b m ts r w))
  unfolding fan_out_loop
  fan_out_loop_keeps b m [] r w h = h
  fan_out_loop_keeps b m (t ∷ ts) r w h =
      let w' = world_of (submit t.ref m w) in
      let h' = submit_keeps keeps t.ref m w h in
      let (r', w'') = drop_one b m r w' in
      ground (
        arith,
        h',
        fan_out_loop_keeps b m ts (record r { sent = r.sent + 1 }) w' h',
        fan_out_loop_keeps b m ts r' w'' (drop_one_keeps b m r w' h'),
      )

  recover_stage-IsSafe : IsSafe I recover_stage
  unfolding recover_stage
  recover_stage-IsSafe next k ctx w h = ground (arith, k ctx w h)

  validate_stage-IsSafe : IsSafe I validate_stage
  unfolding validate_stage validate_message
  validate_stage-IsSafe next k ctx w h = elim (Option-cases ctx.message) [
    | inl n ↦ ground (arith, n, h)
    | inr (m, e) ↦ elim (Option-cases ((w.msgs m).trace)) [
      | inl n ↦ ground (arith, n, e, h)
      | inr (id, f) ↦ ground (arith, e, f, h, k (record ctx { trace_id = id }) w h)
    ]
  ]

  route_stage-IsSafe : IsSafe I route_stage
  unfolding route_stage
  route_stage-IsSafe next k ctx w h = elim (Option-cases ctx.message) [
    | inl n ↦ ground (arith, n, h)
    | inr (m, e) ↦ elim (Option-cases ((w.msgs m).to)) [
      | inl n ↦ ground (arith, n, e, h)
      | inr (key, f) ↦ ground (arith, e, f, h, k (routed (resolve key w.router) ctx) w h)
    ]
  ]

  filter_stage-IsSafe : IsSafe I filter_stage
  unfolding filter_stage
  filter_stage-IsSafe next k ctx w h = elim (Option-cases ctx.message) [
    | inl n ↦ ground (arith, n, h, k ctx w h)
    | inr (m, e) ↦ ground (
      arith,
      e,
      h,
      k ctx w h,
      k
          (record ctx {
            target_sessions = filter_targets (exclude_id (w.msgs m)) w ctx.target_sessions;
          })
          w h,
    )
  ]

  with_result_keeps :
      (next : DownlinkCtx → World → Flow DownlinkCtx) (ctx : DownlinkCtx) (o : Outcome FanOutResult)
      → Preserves I next
      → I (world_of o)
      → I (flow_world (with_result next ctx o))
  with_result_keeps next ctx (done r w) k h = k (record ctx { fan_out_result = r }) w h
  with_result_keeps next ctx (panic w) k h = h

  fan_out_stage-IsSafe : (b : Bool) → IsSafe I (fan_out_stage b)
  unfolding fan_out_stage store_offline
  fan_out_stage-IsSafe b next k ctx w h = elim (Option-cases ctx.message) [
    | inl n ↦ ground (arith, n, h)
    | inr (m, e) ↦
        let start = record no_result { total = length ctx.target_sessions } in
        let o = fan_out_loop b m ctx.target_sessions start w in
        ground (
          arith,
          e,
          h,
          k ctx w h,
          k ctx (offline_store m w) (offline_store_keeps m w h),
          with_result_keeps next ctx o k (fan_out_loop_keeps b m ctx.target_sessions start w h),
        )
  ]

  metrics_stage-IsSafe : IsSafe I metrics_stage
  unfolding metrics_stage
  metrics_stage-IsSafe next k ctx w h = ground (arith, k ctx w h)

  downstream_job_keeps :
      (b : Bool) (m : ℕ) (w : World) → I w → I (flow_world (downstream_job b m w))
  unfolding downstream_job build_chain
  downstream_job_keeps b m w h =
      run_chain-Preserves I (build_chain b)
        (
          recover_stage-IsSafe,
          (
            validate_stage-IsSafe,
            (
              route_stage-IsSafe,
              (filter_stage-IsSafe, (fan_out_stage-IsSafe b, (metrics_stage-IsSafe, tt))),
            ),
          ),
        )
        (new_ctx m) w h

  pub downstream_turn_keeps : (b : Bool) (biz : Str) (w : World) → I w → I (downstream_turn b biz w)
  unfolding downstream_turn
  downstream_turn_keeps b biz w h =
      let w' = (take_downstream biz w).0 in
      let h' = (keeps.takes biz w h).1 in
      elim (Option-cases ((take_downstream biz w).1)) [
        | inl n ↦ ground (arith, n, h')
        | inr (m, e) ↦ ground (arith, e, downstream_job_keeps b m w' h')
      ]
