-- ===== src/Tests/Retries.antt =====
-- ACK timeouts and reconnects on the small gateway.
use long_gw.Tests.Data.{waiting, target, online, offline_only, registry_of}
use long_gw.Base.{◌≡◌, some, arith, refl, lit, str_eq}
use long_gw.Base.Dict.{lookup}
use long_gw.World.{world_of}
use long_gw.SessionRegistry.{handle_ack_timeout, attach_and_register}
use long_gw.SessionRegistry.Retry.{handle_ack_timeout-resets_count}
use long_gw.Session.Close.{IsGone}
use long_gw.SessionRegistry.Reconnect.{reconnect_closes}

handle_ack_timeout-resets_count_example :
    lookup
      (lit "message1")
      ((world_of (handle_ack_timeout (registry_of 0) (lit "s1") (lit "message1") online)).sessions
        0).pending_acks
    ≡ some (record { msg = (waiting 0).msg; retry_count = 0; last_retry_at = online.clock })
unfolding str_eq lookup
handle_ack_timeout-resets_count_example =
    handle_ack_timeout-resets_count (registry_of 0) online (lit "s1") (lit "message1") 0 (waiting 0)
      (record { known = refl; pending = refl; own_id = refl; qos1 = refl }) refl (omega arith) refl

reconnect_closes_example :
    IsGone 1
      (offline_only.sessions 1).user_id
      (offline_only.sessions 1).device_id
      (attach_and_register 1 2 offline_only).1
unfolding str_eq lookup
reconnect_closes_example = reconnect_closes 1 2 offline_only (target 1) refl refl refl refl
