-- ===== src/Pipeline/Uplink/Submission.antt =====
-- A message on its way through the uplink pipeline to a worker pool.
use long_gw.Base.{
  ℕ, ◌<◌, ◌≡◌, ◌⊎◌, inl, inr, [], Bool, true, false, Option, none, some, Str, Bytes, lit, str_eq,
  length, arith, Bool-cases,
}
use long_gw.Connection.{is_active, is_expired, conn_submit}
use long_gw.Worker.{submit_upstream, biz_of}
use long_gw.World.{World}
use long_gw.Pipeline.{flow_ctx, flow_world, Flow, running, panicked, run_chain}
use long_gw.Pipeline.Uplink.{
  UplinkCtx, generated_trace_id, reply_error, uplink_recover_stage, uplink_validate_stage,
  rate_limit_stage, trace_stage, uplink_metrics_stage, annotated, submit_stage, uplink_chain,
  uplink_run,
}

abbrev pub is_running : Flow UplinkCtx → Bool
is_running (running ctx w) = true
is_running (panicked ctx w) = false

-- Whether the limiter, where there is one, allows a message of this user in this domain.
abbrev pub lets_through : Option (Str → Str → Bool) → Str → Str → Bool
lets_through none user biz = true
lets_through (some allow) user biz = allow user biz

module _ (encode : ℕ → Str → Bytes) (limiter : Option (Str → Str → Bool)) (nanos : ℕ) where
  -- A reply to the client touches neither the pools nor the offline store.
  reply_error-pools :
      (code : ℕ) (text : Str) (ctx : UplinkCtx) (w : World)
      → (reply_error encode limiter nanos code text ctx w).pools ≡ w.pools
  unfolding reply_error conn_submit
  reply_error-pools code text ctx w = ground arith

  -- A message that lacks an id, has expired, comes over a connection that is not active, or is
  -- over the rate limit, changes no worker pool.
  pub uplink_run-refuses :
      (s c m : ℕ) (w : World)
      → ((str_eq (w.msgs m).msg_id [] ≡ true)
          ⊎ (is_expired w.clock (w.msgs m).expire_at ≡ true)
          ⊎ (is_active (w.conns c) ≡ false)
          ⊎ ((allow : Str → Str → Bool) × (limiter ≡ some allow)
              × (allow (w.sessions s).user_id (w.msgs m).biz_code ≡ false)))
      → (flow_world (uplink_run encode limiter nanos s c m w)).pools ≡ w.pools
  unfolding uplink_run uplink_chain run_chain uplink_recover_stage uplink_validate_stage
      rate_limit_stage
  uplink_run-refuses s c m w h =
      let ctx : UplinkCtx = record {
        session = s;
        conn = c;
        message = some m;
        trace_id = [];
        aborted = none;
        received_at = w.clock;
      } in
      let p1 = reply_error-pools 4001 (lit "msg_id is required") ctx w in
      let p2 = reply_error-pools 4010 (lit "connection not active") ctx w in
      let p3 = reply_error-pools 4290 (lit "rate limit exceeded") ctx w in
      elim (Bool-cases (str_eq (w.msgs m).msg_id [])) [
        | inl a ↦ ground (arith, a, p1)
        | inr a ↦ elim (Bool-cases (is_expired w.clock (w.msgs m).expire_at)) [
          | inl b ↦ ground (arith, a, b)
          | inr b ↦ elim (Bool-cases (is_active (w.conns c))) [
            | inr d ↦ ground (arith, a, b, d, p2)
            | inl d ↦ elim h [
              | inl x ↦ ground (arith, a, x)
              | inr (inl x) ↦ ground (arith, b, x)
              | inr (inr (inl x)) ↦ ground (arith, d, x)
              | inr (inr (inr (allow, l, x))) ↦ ground (arith, a, b, d, l, x, p3)
            ]
          ]
        ]
      ]

  -- A message whose trace id is empty and whose own id is shorter than 8 bytes reaches no worker
  -- pool, however valid it is: the stage that makes its trace id panics, and the message is aborted.
  pub uplink_run-short_id :
      (s c m : ℕ) (w : World)
      → str_eq (w.msgs m).msg_id [] ≡ false
      → is_expired w.clock (w.msgs m).expire_at ≡ false
      → is_active (w.conns c) ≡ true
      → lets_through limiter (w.sessions s).user_id (w.msgs m).biz_code ≡ true
      → (w.msgs m).trace ≡ some []
      → length (w.msgs m).msg_id < 8
      → let r = uplink_run encode limiter nanos s c m w in
        ((flow_ctx r).aborted ≡ some (lit "panic")) × ((flow_world r).pools ≡ w.pools)
  unfolding uplink_run uplink_chain run_chain uplink_recover_stage uplink_validate_stage
      rate_limit_stage trace_stage generated_trace_id str_eq
  uplink_run-short_id s c m w a b ac d e f =
      let ctx : UplinkCtx = record {
        session = s;
        conn = c;
        message = some m;
        trace_id = [];
        aborted = none;
        received_at = w.clock;
      } in
      (ground arith, ground (arith, reply_error-pools 5000 (lit "internal error") ctx w))

  -- A message that passes every check, for a session without a worker manager: the stage that hands
  -- it over panics, so the message is aborted and reaches no worker pool.
  pub uplink_run-no_worker :
      (s c m : ℕ) (w : World) (id : Str)
      → str_eq (w.msgs m).msg_id [] ≡ false
      → is_expired w.clock (w.msgs m).expire_at ≡ false
      → is_active (w.conns c) ≡ true
      → lets_through limiter (w.sessions s).user_id (w.msgs m).biz_code ≡ true
      → (w.msgs m).trace ≡ some id
      → str_eq id [] ≡ false
      → str_eq (biz_of (w.msgs m).biz_code (w.sessions s).biz_code) [] ≡ false
      → (w.sessions s).deps.has_worker ≡ false
      → let r = uplink_run encode limiter nanos s c m w in
        ((flow_ctx r).aborted ≡ some (lit "panic")) × ((flow_world r).pools ≡ w.pools)
  unfolding uplink_run uplink_chain run_chain uplink_recover_stage uplink_validate_stage
      rate_limit_stage trace_stage uplink_metrics_stage submit_stage submit_upstream annotated
      reply_error conn_submit
  uplink_run-no_worker s c m w id a b ac d e f g h = (ground arith, ground arith)

  -- Whatever the message and the world: the pipeline ends, and it ends without a panic.
  pub uplink_run-ends :
      (s c m : ℕ) (w : World) → is_running (uplink_run encode limiter nanos s c m w) ≡ true
  unfolding uplink_run uplink_chain run_chain uplink_recover_stage uplink_validate_stage
      rate_limit_stage trace_stage uplink_metrics_stage submit_stage
  uplink_run-ends s c m w = ground arith
