-- ===== src/Pipeline/Downlink/Routing.antt =====
-- A job of the downlink pipeline, from its first stage to its last.
use long_gw.Base.{
  ℕ, ◌+◌, ◌≡◌, ◌⊎◌, refl, List, [], ◌∷◌, ◌++◌, Bool, true, false, ◌&&◌, none, some, Str,
  if◌then◌else◌, length, arith, Option-cases, inl, inr, lit,
}
use long_gw.Router.{Target, resolve}
use long_gw.World.{World, Delivery, offline_store}
use long_gw.Connection.{is_expired}
use long_gw.Scanner.{is_at_least_once}
use long_gw.Pipeline.{flow_world, Flow, running, panicked, run_chain}
use long_gw.Pipeline.Downlink.{
  DownlinkCtx, no_result, new_ctx, abort, recover_stage, validate_stage, validate_message,
  route_stage, filter_stage, filter_targets, exclude_id, fan_out_stage, fan_out_loop, store_offline,
  metrics_stage, build_chain, downstream_job,
}
use long_gw.Pipeline.Downlink.FanOut.{fan_out_loop-Counted}
use long_gw.Pipeline.Downlink.Everyone.{AreApart, reached, reaches, fan_out_loop-reaches}

recovered :
    (next : DownlinkCtx → World → Flow DownlinkCtx) (c : DownlinkCtx) (w : World)
    (f : Flow DownlinkCtx)
    → next c w ≡ f
    → (ctx : DownlinkCtx) × (w' : World) × (recover_stage next c w ≡ running ctx w')
unfolding recover_stage
recovered next c w (running ctx w') e = (ctx, w', ground (arith, e))
recovered next c w (panicked ctx w') e = (abort (lit "panic") ctx, w', ground (arith, e))

-- Whatever the message, the world and the store: a job of the downlink ends, and it ends without
-- a panic.
pub downstream_job-ends :
    (h : Bool) (m : ℕ) (w : World)
    → (ctx : DownlinkCtx) × (w' : World) × (downstream_job h m w ≡ running ctx w')
unfolding downstream_job build_chain run_chain
downstream_job-ends h m w = recovered _ (new_ctx m) w _ refl

-- A message with no target, or one that has expired, changes nothing: it is neither sent nor stored.
pub downstream_job-refuses :
    (h : Bool) (m : ℕ) (w : World)
    → (((w.msgs m).to ≡ none) ⊎ (is_expired w.clock (w.msgs m).expire_at ≡ true))
    → flow_world (downstream_job h m w) ≡ w
unfolding downstream_job build_chain run_chain recover_stage validate_stage validate_message new_ctx
downstream_job-refuses h m w (inl e) = ground (arith, e)
downstream_job-refuses h m w (inr e) = elim (Option-cases ((w.msgs m).to)) [
  | inl n ↦ ground (arith, n)
  | inr (key, k) ↦ ground (arith, e, k)
]

-- An unexpired message with a trace context and a delivery, to a target without a local session,
-- changes nothing but the offline store: it is kept there exactly when it asks for that, at QoS
-- 1, and there is a store.
pub downstream_job-stores :
    (h : Bool) (m : ℕ) (w : World) (key id : Str) (d : Delivery)
    → (w.msgs m).to ≡ some key
    → (w.msgs m).trace ≡ some id
    → (w.msgs m).delivery ≡ some d
    → is_expired w.clock (w.msgs m).expire_at ≡ false
    → resolve key w.router ≡ none
    → flow_world (downstream_job h m w)
      ≡ (if d.offline && is_at_least_once d.qos && h then offline_store m w else w)
unfolding downstream_job build_chain run_chain recover_stage validate_stage validate_message new_ctx
    route_stage filter_stage fan_out_stage store_offline metrics_stage
downstream_job-stores h m w key id d t i e x r = ground arith

-- An unexpired message with a trace context, whose target has local sessions of which the filter
-- keeps none, changes nothing: it is not stored either, whatever its delivery asks for.
pub downstream_job-loses :
    (h : Bool) (m : ℕ) (w : World) (key id : Str) (t : Target) (ts : List Target)
    → (w.msgs m).to ≡ some key
    → (w.msgs m).trace ≡ some id
    → is_expired w.clock (w.msgs m).expire_at ≡ false
    → resolve key w.router ≡ some (t ∷ ts)
    → filter_targets (exclude_id (w.msgs m)) w (t ∷ ts) ≡ []
    → flow_world (downstream_job h m w) ≡ w
unfolding downstream_job build_chain run_chain recover_stage validate_stage validate_message new_ctx
    route_stage filter_stage fan_out_stage fan_out_loop metrics_stage
downstream_job-loses h m w key id t ts to i x r f = ground arith

-- An unexpired message with a trace context and a delivery, to a target with local sessions: the
-- job ends without a panic, its targets are the sessions that the filter keeps, it counts each of
-- them exactly once, as sent or as dropped, and `total` is their number.
pub downstream_job-counts :
    (h : Bool) (m : ℕ) (w : World) (key id : Str) (d : Delivery) (t : Target) (ts : List Target)
    → (w.msgs m).to ≡ some key
    → (w.msgs m).trace ≡ some id
    → (w.msgs m).delivery ≡ some d
    → is_expired w.clock (w.msgs m).expire_at ≡ false
    → resolve key w.router ≡ some (t ∷ ts)
    → let kept = filter_targets (exclude_id (w.msgs m)) w (t ∷ ts) in
      (ctx : DownlinkCtx) × (w' : World) × (downstream_job h m w ≡ running ctx w')
      × (ctx.target_sessions ≡ kept)
      × (ctx.fan_out_result.total ≡ length kept)
      × (ctx.fan_out_result.sent + ctx.fan_out_result.dropped ≡ length kept)
unfolding downstream_job build_chain run_chain recover_stage validate_stage validate_message new_ctx
    route_stage filter_stage fan_out_stage metrics_stage
downstream_job-counts h m w key id d t ts to i e x r =
    let kept = filter_targets (exclude_id (w.msgs m)) w (t ∷ ts) in
    let (r', w', p, k) =
      fan_out_loop-Counted h m kept (record no_result { total = length kept }) w d e in
    (
      record (new_ctx m) { trace_id = id; target_sessions = kept; fan_out_result = r' },
      w',
      ground arith,
      refl,
      k.same_total,
      omega (arith, k.each_once),
    )

-- The job of a message that has a trace id and a delivery, has not expired, and names a target for which
-- the router has at least one session, where no two of the sessions that the filter keeps have a
-- connection in common. It ends without a panic, its targets are the sessions that the filter keeps,
-- and it counts as sent exactly those of them whose connection is active and has room, and the others
-- as dropped. The message stands last in the channel of each connection that has room, once, and every
-- other channel is as it was.
pub downstream_job-reaches :
    (h : Bool) (m c : ℕ) (w : World) (key id : Str) (d : Delivery) (t : Target) (ts : List Target)
    → (w.msgs m).to ≡ some key
    → (w.msgs m).trace ≡ some id
    → (w.msgs m).delivery ≡ some d
    → is_expired w.clock (w.msgs m).expire_at ≡ false
    → resolve key w.router ≡ some (t ∷ ts)
    → AreApart w (filter_targets (exclude_id (w.msgs m)) w (t ∷ ts))
    → let kept = filter_targets (exclude_id (w.msgs m)) w (t ∷ ts) in
      (ctx : DownlinkCtx) × (w' : World) × (downstream_job h m w ≡ running ctx w')
      × (ctx.target_sessions ≡ kept)
      × (ctx.fan_out_result.sent ≡ reached kept w)
      × (ctx.fan_out_result.dropped + reached kept w ≡ length kept)
      × ((w'.conns c).write_ch ≡ (w.conns c).write_ch ++ (if reaches c kept w then m ∷ [] else []))
unfolding downstream_job build_chain run_chain recover_stage validate_stage validate_message new_ctx
    route_stage filter_stage fan_out_stage metrics_stage
downstream_job-reaches h m c w key id d t ts to i e x r a =
    let kept = filter_targets (exclude_id (w.msgs m)) w (t ∷ ts) in
    let start = record no_result { total = length kept } in
    let (r1, w1, p1, k) = fan_out_loop-Counted h m kept start w d e in
    let (r', w', p, n, ch) = fan_out_loop-reaches h m c kept start w d e a in
    let same : r1 ≡ r' = ground (arith, p1, p) in
    (
      record (new_ctx m) { trace_id = id; target_sessions = kept; fan_out_result = r' },
      w',
      ground arith,
      refl,
      omega (arith, n),
      ground (arith, k.each_once, same, n),
      ch,
    )
