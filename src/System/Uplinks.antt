-- ===== src/System/Uplinks.antt =====
-- The uplink pipeline and the frame handlers keep an invariant of the world.
use long_gw.Base.{ℕ, ◌++◌, Bool, Option, none, some, Str, Bytes, arith, Option-cases, inl, inr, lit}
use long_gw.World.{Deps, World, Message, Outcome, done, panic, world_of, put_msg}
use long_gw.Worker.{WorkerError, submit_upstream}
use long_gw.Pipeline.{flow_world, Flow, running, panicked}
use long_gw.Pipeline.Uplink.{
  UplinkCtx, uplink_run, reply_error, uplink_recover_stage, uplink_validate_stage, rate_limit_stage,
  trace_stage, uplink_metrics_stage, annotated, submit_stage, uplink_chain, trace_of,
  uplink_recovered, submitted, error_text,
}
use long_gw.Handler.{
  Handler, heartbeat_handler, logout_handler, upstream_handler, handlers, handle_heartbeat,
  handle_logout, handle, dispatch, flow_outcome,
}
use long_gw.System.Calls.{put_msg_keeps}
use long_gw.System.Sessions.{close_session_keeps}
use long_gw.System.Pools.{alloc_keeps}
use long_gw.System.Stages.{Preserves, IsSafe, run_chain-Preserves}
use long_gw.System.Keeps.{Keeps}

module _ {I : World → Type 0} {allowed : Deps → Type 0} (keeps : Keeps I allowed) where
  module _ (encode : ℕ → Str → Bytes) (limiter : Option (Str → Str → Bool)) (nanos : ℕ) where
    reply_error_keeps :
        (code : ℕ) (text : Str) (ctx : UplinkCtx) (w : World)
        → I w
        → I (reply_error encode limiter nanos code text ctx w)
    unfolding reply_error
    reply_error_keeps code text ctx w h =
        keeps.sends ctx.conn w.next_msg _ (alloc_keeps keeps _ w h)

    recovered_keeps :
        (f : Flow UplinkCtx)
        → I (flow_world f)
        → I (flow_world (uplink_recovered encode limiter nanos f))
    recovered_keeps (running ctx w) h = h
    recovered_keeps (panicked ctx w) h = elim (Option-cases ctx.message) [
      | inl n ↦ rw (uplink_recovered, n) h
      | inr (m, e) ↦
          rw (uplink_recovered, e) (reply_error_keeps 5000 (lit "internal error") ctx w h)
    ]

    recover-IsSafe : IsSafe I (uplink_recover_stage encode limiter nanos)
    unfolding uplink_recover_stage
    recover-IsSafe next k ctx w h = recovered_keeps (next ctx w) (k ctx w h)

    uplink_validate-IsSafe : IsSafe I (uplink_validate_stage encode limiter nanos)
    unfolding uplink_validate_stage
    uplink_validate-IsSafe next k ctx w h = ground (
      arith,
      h,
      k ctx w h,
      reply_error_keeps 4001 (lit "msg_id is required") ctx w h,
      reply_error_keeps 4010 (lit "connection not active") ctx w h,
    )

    rate_limit-IsSafe : IsSafe I (rate_limit_stage encode limiter nanos)
    unfolding rate_limit_stage
    rate_limit-IsSafe next k ctx w h =
        ground (arith, h, k ctx w h, reply_error_keeps 4290 (lit "rate limit exceeded") ctx w h)

    trace-IsSafe : IsSafe I (trace_stage encode limiter nanos)
    unfolding trace_stage
    trace-IsSafe next k ctx w h = elim (Option-cases ctx.message) [
      | inl n ↦ ground (arith, n, h)
      | inr (m, e) ↦ elim (Option-cases (trace_of encode limiter nanos (w.msgs m))) [
        | inl n ↦ rw (trace_stage, e, n) h
        | inr (id, f) ↦
            rw (trace_stage, e, f)
              (k (record ctx { trace_id = id }) _ (put_msg_keeps keeps m _ w h))
      ]
    ]

    uplink_metrics-IsSafe : IsSafe I (uplink_metrics_stage encode limiter nanos)
    unfolding uplink_metrics_stage
    uplink_metrics-IsSafe next k ctx w h = ground (arith, k ctx w h)

    submitted_keeps :
        (next : UplinkCtx → World → Flow UplinkCtx) (ctx : UplinkCtx)
        (o : Outcome (Option WorkerError))
        → Preserves I next
        → I (world_of o)
        → I (flow_world (submitted encode limiter nanos next ctx o))
    submitted_keeps next ctx (panic w) k h = h
    submitted_keeps next ctx (done none w) k h = k ctx w h
    submitted_keeps next ctx (done (some e) w) k h =
        reply_error_keeps 5001 (lit "upstream unavailable: " ++ error_text e) ctx w h

    submit-IsSafe : IsSafe I (submit_stage encode limiter nanos)
    unfolding submit_stage
    submit-IsSafe next k ctx w h = elim (Option-cases ctx.message) [
      | inl n ↦ ground (arith, n, h)
      | inr (m, e) ↦
          let w' = put_msg m (annotated encode limiter nanos ctx (w.msgs m) w) w in
          rw (submit_stage, e)
            (submitted_keeps next ctx (submit_upstream ctx.session m w') k
              (keeps.submits ctx.session m w' (put_msg_keeps keeps m _ w h)))
    ]

    uplink_run_keeps :
        (s c m : ℕ) (w : World) → I w → I (flow_world (uplink_run encode limiter nanos s c m w))
    unfolding uplink_run uplink_chain
    uplink_run_keeps s c m w h =
        run_chain-Preserves I (uplink_chain encode limiter nanos)
          (
            recover-IsSafe,
            (
              uplink_validate-IsSafe,
              (rate_limit-IsSafe, (trace-IsSafe, (uplink_metrics-IsSafe, (submit-IsSafe, tt)))),
            ),
          )
          _ w h

    flow_outcome_keeps : (f : Flow UplinkCtx) → I (flow_world f) → I (world_of (flow_outcome f))
    flow_outcome_keeps (running ctx w) h = h
    flow_outcome_keeps (panicked ctx w) h = h

    handle_logout_keeps :
        (s c : ℕ) (msg : Message) (w : World) → I w → I (world_of (handle_logout s c msg w))
    unfolding handle_logout
    handle_logout_keeps s c msg w h = elim (Option-cases msg.trace) [
      | inl n ↦ rw (handle_logout, n) h
      | inr (id, e) ↦
          rw (handle_logout, e)
            (close_session_keeps keeps s _ (keeps.sends c w.next_msg _ (alloc_keeps keeps _ w h)))
    ]

    handle_keeps :
        (k : Handler) (s c m : ℕ) (w : World)
        → I w
        → I (world_of (handle encode limiter nanos k s c m w))
    unfolding handle handle_heartbeat
    handle_keeps heartbeat_handler s c m w h = keeps.sends c w.next_msg _ (alloc_keeps keeps _ w h)
    handle_keeps logout_handler s c m w h = handle_logout_keeps s c (w.msgs m) w h
    handle_keeps upstream_handler s c m w h =
        flow_outcome_keeps (uplink_run encode limiter nanos s c m w) (uplink_run_keeps s c m w h)

    -- Whatever the frame, its dispatch keeps the invariant, also where it panics.
    pub dispatch_keeps :
        (s c m : ℕ) (w : World) → I w → I (world_of (dispatch encode limiter nanos s c m w))
    unfolding dispatch
    dispatch_keeps s c m w h = elim (Option-cases (handlers (w.msgs m).kind)) [
      | inl n ↦ rw (dispatch, n) h
      | inr (k, e) ↦ rw (dispatch, e) (handle_keeps k s c m w h)
    ]
