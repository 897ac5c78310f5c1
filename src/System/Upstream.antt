-- ===== src/System/Upstream.antt =====
-- The way of a business frame from a connection to the worker that sends it: access/handler,
-- pipeline/uplink/stages.go, session/session.go and worker/pool.go of gateway/internal, one after the other.
use long_gw.Base.{ℕ, Bool, Option, none, some, Str, Bytes}
use long_gw.World.{World}
use long_gw.Pipeline.Uplink.{UplinkCtx}

module _ (encode : ℕ → Str → Bytes) (limiter : Option (Str → Str → Bool)) (nanos : ℕ) where
  -- The context in which a frame is handed over.
  abbrev handed : ℕ → ℕ → ℕ → Str → World → UplinkCtx
  handed s c m id w = record {
    session = s;
    conn = c;
    message = some m;
    trace_id = id;
    aborted = none;
    received_at = w.clock;
  }
