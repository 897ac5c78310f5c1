-- ===== src/Pipeline/Uplink.antt =====
-- The uplink pipeline, gateway/internal/pipeline/uplink/stages.go.
pub mod Submission
use long_gw.Base.{
  ℕ, ◌+◌, List, [], ◌∷◌, ◌++◌, Bool, true, false, Option, none, some, Str, Bytes, lit, str_eq, ltb,
  if◌then◌else◌, length, take,
}
use long_gw.Base.Dict.{insert}
use long_gw.Connection.{is_active, is_expired, conn_submit}
use long_gw.Worker.{
  WorkerError, empty_biz_code, unknown_biz_code, pool_full, submit_upstream, alloc,
}
use long_gw.World.{World, Message, error_frame, unspecified, put_msg, itoa, Outcome, done, panic}
use long_gw.Pipeline.{Flow, running, panicked, Stage, run_chain, afterwards}

-- `UplinkCtx`: pointers to the session, the connection and the message; `aborted` holds the reason,
-- `received_at` is in milliseconds.
pub record UplinkCtx : Type 0 where
  pub session : ℕ
  pub conn : ℕ
  pub message : Option ℕ
  pub trace_id : Str
  pub aborted : Option Str
  pub received_at : ℕ

-- The texts of the errors that `SubmitUpstream` returns.
abbrev pub error_text : WorkerError → Str
error_text empty_biz_code = lit "session: empty biz_code"
error_text unknown_biz_code = lit "ErrUnknownBizCode"
error_text pool_full = lit "worker: pool channel full"

abbrev pub uplink_abort : Str → UplinkCtx → UplinkCtx
uplink_abort reason ctx = record ctx { aborted = some reason }

-- The id in `TraceStage` for a message without one; the slice of a short id panics.
unfoldable pub generated_trace_id : ℕ → Str → Option Str
generated_trace_id nanos msg_id =
    if ltb (length msg_id) 8
    then none
    else some (lit "gw-" ++ itoa nanos ++ lit "-" ++ take 8 msg_id)

-- What the stages use: `encode` is the protobuf form of an error payload, `limiter` what
-- `RateLimiter.Allow` answers for a user and a domain, where there is a limiter, `nanos` the
-- clock's nanoseconds.
module _ (encode : ℕ → Str → Bytes) (limiter : Option (Str → Str → Bool)) (nanos : ℕ) where
  -- The frame of `ReplyError`.
  abbrev pub error_message : ℕ → Str → UplinkCtx → World → Message
  error_message code text ctx w = record {
    msg_id = [];
    kind = error_frame;
    biz_code = [];
    seq_id = 0;
    expire_at = 0;
    to = none;
    from = none;
    delivery = some (record {
      qos = unspecified;
      offline = false;
      ack_id = elim ctx.message [ none ↦ none | some m ↦ some (w.msgs m).msg_id ];
    });
    trace = some ctx.trace_id;
    headers = [];
    body = encode code text;
  }

  -- `ReplyError` sends a new message on the connection, and drops what the channel does not take.
  unfoldable pub reply_error : ℕ → Str → UplinkCtx → World → World
  reply_error code text ctx w =
      (conn_submit ctx.conn w.next_msg (alloc (error_message code text ctx w) w)).1

  -- The deferred function of `RecoverStage`: on a panic it reads the message's id first, which
  -- panics again without a message.
  abbrev pub uplink_recovered : Flow UplinkCtx → Flow UplinkCtx
  uplink_recovered (running ctx w) = running ctx w
  uplink_recovered (panicked ctx w) = elim ctx.message [
    | none ↦ panicked ctx w
    | some m ↦
        running (uplink_abort (lit "panic") ctx) (reply_error 5000 (lit "internal error") ctx w)
  ]

  unfoldable pub uplink_recover_stage : Stage UplinkCtx
  uplink_recover_stage next ctx w = uplink_recovered (next ctx w)

  unfoldable pub uplink_validate_stage : Stage UplinkCtx
  uplink_validate_stage next ctx w = elim ctx.message [
    | none ↦ running (uplink_abort (lit "nil message") ctx) w
    | some m ↦
        if str_eq (w.msgs m).msg_id []
        then running (uplink_abort (lit "missing msg_id") ctx)
            (reply_error 4001 (lit "msg_id is required") ctx w)
        else if is_expired w.clock (w.msgs m).expire_at
        then running (uplink_abort (lit "expired") ctx) w
        else if is_active (w.conns ctx.conn)
        then next ctx w
        else running (uplink_abort (lit "not active") ctx)
            (reply_error 4010 (lit "connection not active") ctx w)
  ]

  -- Whether the limiter lets the message through.
  abbrev pub allows : UplinkCtx → Message → World → Bool
  allows ctx msg w = elim limiter [
    | none ↦ true
    | some allow ↦ allow (w.sessions ctx.session).user_id msg.biz_code
  ]

  unfoldable pub rate_limit_stage : Stage UplinkCtx
  rate_limit_stage next ctx w = elim ctx.message [
    | none ↦ elim limiter [ none ↦ next ctx w | some allow ↦ panicked ctx w ]
    | some m ↦
        if allows ctx (w.msgs m) w
        then next ctx w
        else running (uplink_abort (lit "rate limited") ctx)
            (reply_error 4290 (lit "rate limit exceeded") ctx w)
  ]

  -- The trace id of a message: its own, or a generated one; `none` is a panic.
  abbrev pub trace_of : Message → Option Str
  trace_of msg = elim msg.trace [
    | none ↦ none
    | some id ↦ if str_eq id [] then generated_trace_id nanos msg.msg_id else some id
  ]

  -- The id is written into the message as well.
  unfoldable pub trace_stage : Stage UplinkCtx
  trace_stage next ctx w = elim ctx.message [
    | none ↦ panicked ctx w
    | some m ↦ elim (trace_of (w.msgs m)) [
      | none ↦ panicked ctx w
      | some id ↦
          next (record ctx { trace_id = id }) (put_msg m (record (w.msgs m) { trace = some id }) w)
    ]
  ]

  -- `MetricsStage` logs once the stages behind it are through, which reads the message.
  unfoldable pub uplink_metrics_stage : Stage UplinkCtx
  uplink_metrics_stage next ctx w =
      afterwards (next ctx w)
        λ ctx' w'. elim ctx'.message [ none ↦ panicked ctx' w' | some m ↦ running ctx' w' ]

  -- The metadata that `SubmitStage` writes into the message.
  unfoldable pub annotated : UplinkCtx → Message → World → Message
  annotated ctx msg w = record msg {
    headers = insert (lit "x-trace-id") ctx.trace_id (
        insert (lit "x-gw-recv-ts") (itoa ctx.received_at) (
          insert (lit "x-device-type") (w.conns ctx.conn).device_type
            (insert (lit "x-conn-id") (w.conns ctx.conn).conn_id msg.headers)));
    from = elim msg.from [
      | none ↦ some (msg.biz_code ++ lit ":" ++ (w.conns ctx.conn).conn_user)
      | some key ↦ some key
    ];
  }

  -- What follows the session's answer.
  abbrev pub submitted :
      (UplinkCtx → World → Flow UplinkCtx)
      → UplinkCtx
      → Outcome (Option WorkerError)
      → Flow UplinkCtx
  submitted next ctx (panic w) = panicked ctx w
  submitted next ctx (done none w) = next ctx w
  submitted next ctx (done (some e) w) =
      running (uplink_abort (lit "submit failed") ctx)
        (reply_error 5001 (lit "upstream unavailable: " ++ error_text e) ctx w)

  unfoldable pub submit_stage : Stage UplinkCtx
  submit_stage next ctx w = elim ctx.message [
    | none ↦ panicked ctx w
    | some m ↦
        submitted next ctx
          (submit_upstream ctx.session m (put_msg m (annotated ctx (w.msgs m) w) w))
  ]

  -- `BuildChain`
  unfoldable pub uplink_chain : List (Stage UplinkCtx)
  uplink_chain =
      uplink_recover_stage ∷ uplink_validate_stage ∷ rate_limit_stage ∷ trace_stage
      ∷ uplink_metrics_stage ∷ submit_stage ∷ []

  -- `ChainAdapter.Run`
  unfoldable pub uplink_run : ℕ → ℕ → ℕ → World → Flow UplinkCtx
  uplink_run s c m w =
      run_chain uplink_chain
        (record {
          session = s;
          conn = c;
          message = some m;
          trace_id = [];
          aborted = none;
          received_at = w.clock;
        })
        w
