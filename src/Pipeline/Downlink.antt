-- ===== src/Pipeline/Downlink.antt =====
-- The downlink pipeline, gateway/internal/pipeline/downlink/stages.go.
pub mod Routing
pub mod FanOut
pub mod Everyone
use long_gw.Base.{
  ℕ, ◌+◌, ◌≡◌, List, [], ◌∷◌, ◌++◌, Bool, true, false, not, ◌&&◌, ◌||◌, Option, none, some, Str,
  lit, str_eq, ltb, leb, if◌then◌else◌, length,
}
use long_gw.Base.Dict.{Dict, lookup}
use long_gw.Router.{Target, resolve}
use long_gw.Connection.{is_expired}
use long_gw.Scanner.{is_at_least_once}
use long_gw.Session.{submit, is_session_active}
use long_gw.World.{World, Message, Delivery, Session, Outcome, done, panic, and_then, offline_store}
use long_gw.Worker.{take_downstream}
use long_gw.Pipeline.{flow_world, Flow, running, panicked, Stage, run_chain, afterwards}

pub record FanOutResult : Type 0 where
  pub total : ℕ
  pub sent : ℕ
  pub dropped : ℕ
  pub offline : ℕ

-- `DownlinkCtx`; `aborted` holds the reason.
pub record DownlinkCtx : Type 0 where
  pub message : Option ℕ
  pub trace_id : Str
  pub aborted : Option Str
  pub target_sessions : List Target
  pub fan_out_result : FanOutResult

abbrev pub no_result : FanOutResult
no_result = record { total = 0; sent = 0; dropped = 0; offline = 0 }

-- The context that `downstreamWorker` of pool.go starts from.
unfoldable pub new_ctx : ℕ → DownlinkCtx
new_ctx m = record {
  message = some m;
  trace_id = [];
  aborted = none;
  target_sessions = [];
  fan_out_result = no_result;
}

abbrev pub abort : Str → DownlinkCtx → DownlinkCtx
abort reason ctx = record ctx { aborted = some reason }

unfoldable pub recover_stage : Stage DownlinkCtx
recover_stage next ctx w = elim (next ctx w) [
  | running ctx' w' ↦ running ctx' w'
  | panicked ctx' w' ↦ running (abort (lit "panic") ctx') w'
]

-- The checks of one message; with no trace context the read of its id panics.
unfoldable pub validate_message :
    (DownlinkCtx → World → Flow DownlinkCtx) → DownlinkCtx → Message → World → Flow DownlinkCtx
validate_message next ctx msg w = elim msg.to [
  | none ↦ running (abort (lit "empty To") ctx) w
  | some key ↦
      if is_expired w.clock msg.expire_at
      then running (abort (lit "expired") ctx) w
      else elim msg.trace [
        | none ↦ panicked ctx w
        | some id ↦ next (record ctx { trace_id = id }) w
      ]
]

unfoldable pub validate_stage : Stage DownlinkCtx
validate_stage next ctx w = elim ctx.message [
  | none ↦ running (abort (lit "nil message") ctx) w
  | some m ↦ validate_message next ctx (w.msgs m) w
]

-- What `RouteStage` puts into the context for the router's answer.
abbrev pub routed : Option (List Target) → DownlinkCtx → DownlinkCtx
routed none ctx = record ctx {
  fan_out_result = record (ctx.fan_out_result) { offline = 1 };
  target_sessions = [];
}
routed (some sessions) ctx = record ctx { target_sessions = sessions }

unfoldable pub route_stage : Stage DownlinkCtx
route_stage next ctx w = elim ctx.message [
  | none ↦ panicked ctx w
  | some m ↦ elim (w.msgs m).to [
    | none ↦ panicked ctx w
    | some key ↦ next (routed (resolve key w.router) ctx) w
  ]
]

-- `msg.Headers["x-exclude-conn"]`, empty where it is missing.
abbrev pub exclude_id : Message → Str
exclude_id msg = elim (lookup (lit "x-exclude-conn") msg.headers) [ none ↦ [] | some id ↦ id ]

abbrev pub wanted : Str → World → Target → Bool
wanted excluded w t =
    is_session_active (w.sessions t.ref)
    && not (not (str_eq excluded []) && str_eq (w.sessions t.ref).session_id excluded)

unfoldable pub filter_targets : Str → World → List Target → List Target
filter_targets excluded w [] = []
filter_targets excluded w (t ∷ ts) =
    if wanted excluded w t then t ∷ filter_targets excluded w ts else filter_targets excluded w ts

unfoldable pub filter_stage : Stage DownlinkCtx
filter_stage next ctx w = elim ctx.target_sessions [
  | [] ↦ next ctx w
  | t ∷ ts ↦ elim ctx.message [
    | none ↦ panicked ctx w
    | some m ↦
        next (record ctx { target_sessions = filter_targets (exclude_id (w.msgs m)) w (t ∷ ts) }) w
  ]
]

abbrev pub wants_offline : Message → Bool
wants_offline msg = elim msg.delivery [ none ↦ false | some d ↦ d.offline ]

-- A session that did not take the message: it is counted, and the first three are stored.
unfoldable pub drop_one : Bool → ℕ → FanOutResult → World → FanOutResult × World
drop_one has_store m r w =
    let r' = record r { dropped = r.dropped + 1 } in
    (r', if wants_offline (w.msgs m) && has_store && leb r'.dropped 3 then offline_store m w else w)

unfoldable pub fan_out_loop : Bool → ℕ → List Target → FanOutResult → World → Outcome FanOutResult
fan_out_loop has_store m [] r w = done r w
fan_out_loop has_store m (t ∷ ts) r w = and_then (submit t.ref m w) λ ok w'. elim ok [
  | true ↦ fan_out_loop has_store m ts (record r { sent = r.sent + 1 }) w'
  | false ↦ let (r', w'') = drop_one has_store m r w' in fan_out_loop has_store m ts r' w''
]

-- `Outcome` of the loop: its result goes into the context; a panic leaves the context as it was.
abbrev pub with_result :
    (DownlinkCtx → World → Flow DownlinkCtx) → DownlinkCtx → Outcome FanOutResult → Flow DownlinkCtx
with_result next ctx (done r w) = next (record ctx { fan_out_result = r }) w
with_result next ctx (panic w) = panicked ctx w

-- No local session: stored where it asks for that, at QoS 1. With no delivery the read panics.
unfoldable pub store_offline :
    Bool → (DownlinkCtx → World → Flow DownlinkCtx) → DownlinkCtx → ℕ → World → Flow DownlinkCtx
store_offline has_store next ctx m w = elim (w.msgs m).delivery [
  | none ↦ panicked ctx w
  | some d ↦
      next ctx (if d.offline && is_at_least_once d.qos && has_store then offline_store m w else w)
]

unfoldable pub fan_out_stage : Bool → Stage DownlinkCtx
fan_out_stage has_store next ctx w = elim ctx.message [
  | none ↦ panicked ctx w
  | some m ↦
      if ltb 0 ctx.fan_out_result.offline
      then store_offline has_store next ctx m w
      else with_result next ctx (
          fan_out_loop has_store m ctx.target_sessions
            (record no_result { total = length ctx.target_sessions }) w)
]

-- `MetricsStage` logs what it finds once the stages behind it are through.
unfoldable pub metrics_stage : Stage DownlinkCtx
metrics_stage next ctx w = afterwards (next ctx w) λ ctx' w'. running ctx' w'

-- `BuildChain`
unfoldable pub build_chain : Bool → List (Stage DownlinkCtx)
build_chain has_store =
    recover_stage
    ∷ validate_stage
    ∷ route_stage
    ∷ filter_stage
    ∷ fan_out_stage has_store
    ∷ metrics_stage
    ∷ []

-- One job of `downstreamWorker`.
unfoldable pub downstream_job : Bool → ℕ → World → Flow DownlinkCtx
downstream_job has_store m w = run_chain (build_chain has_store) (new_ctx m) w

-- One turn of `downstreamWorker` of a domain's pool; a job never panics (Routing).
unfoldable pub downstream_turn : Bool → Str → World → World
downstream_turn has_store biz w =
    let (w', taken) = take_downstream biz w in
    elim taken [ none ↦ w' | some m ↦ flow_world (downstream_job has_store m w') ]
