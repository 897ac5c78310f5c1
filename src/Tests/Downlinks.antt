-- ===== src/Tests/Downlinks.antt =====
-- The downlink pipeline on the small gateway.
use long_gw.Tests.Data.{qos1, session_of, all_sessions, target, router_with, online}
use long_gw.Base.{
  ◌+◌, ◌≡◌, refl, [], ◌∷◌, ◌++◌, true, some, if◌then◌else◌, length, lit, ◌==◌, str_eq,
}
use long_gw.Router.{Target, resolve, targets}
use long_gw.World.{World}
use long_gw.Connection.{is_expired}
use long_gw.Pipeline.{running}
use long_gw.Pipeline.Downlink.{DownlinkCtx, filter_targets, exclude_id, downstream_job}
use long_gw.Pipeline.Downlink.Everyone.{reached, reaches}
use long_gw.Pipeline.Downlink.Routing.{downstream_job-reaches}
use long_gw.Base.Dict.{lookup, values}

-- A second device of the user, on connection 1.
abbrev second : Target
second = record { ref = 1; session_id = lit "s2"; user_id = lit "u1"; device_id = lit "d2" }

abbrev two_phones : World
two_phones = record online {
  router = record (router_with 0) {
    user_conns = (lit "u1", (lit "d1", target 0) ∷ (lit "d2", second) ∷ []) ∷ [];
  };
  sessions = λ s. if s == 1 then session_of (some 1) 0 else all_sessions s;
}

downstream_job-reaches_example :
    let kept =
      filter_targets (exclude_id (two_phones.msgs 0)) two_phones ((target 0) ∷ (second ∷ [])) in
    (ctx : DownlinkCtx) × (w' : World) × (downstream_job true 0 two_phones ≡ running ctx w')
    × (ctx.target_sessions ≡ kept)
    × (ctx.fan_out_result.sent ≡ reached kept two_phones)
    × (ctx.fan_out_result.dropped + reached kept two_phones ≡ length kept)
    × ((w'.conns 1).write_ch
        ≡ (two_phones.conns 1).write_ch ++ (if reaches 1 kept two_phones then 0 ∷ [] else []))
unfolding str_eq lookup resolve is_expired targets values filter_targets
downstream_job-reaches_example =
    downstream_job-reaches true 0 1 two_phones (lit "u1") (lit "t1") qos1 (target 0) (second ∷ [])
      refl refl refl refl refl (((refl, tt), (tt, tt)))
