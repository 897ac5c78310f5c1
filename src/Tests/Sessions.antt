-- ===== src/Tests/Sessions.antt =====
-- Sessions on the small gateway.
use long_gw.Tests.Data.{qos1, online}
use long_gw.Base.{◌≡◌, [], ◌∷◌, ◌++◌, true, ◌&&◌, none, some, if◌then◌else◌, refl, inl, lit}
use long_gw.Base.Dict.{lookup}
use long_gw.World.{done, world_of, active}
use long_gw.Connection.{next_seq}
use long_gw.Scanner.{wants_ack}
use long_gw.Session.{submit, attach_conn, close_session, target_of, detach_conn}
use long_gw.Session.Submit.{deliverable, submit_total, submit-delivered}
use long_gw.Router.Index.{view}
use long_gw.Session.Close.{IsGone, close_session-IsGone}
use long_gw.Session.Subscriptions.{reattach_restores_rooms}

submit_total_example :
    submit 0 0 online ≡ done (deliverable 0 online) (world_of (submit 0 0 online))
submit_total_example = submit_total 0 0 online qos1 refl

submit-delivered_example :
    let after = world_of (submit 0 0 online) in
    (submit 0 0 online ≡ done true after)
    × ((after.conns 0).write_ch ≡ (online.conns 0).write_ch ++ (0 ∷ []))
    × ((after.sessions 0).last_delivered_seq ≡ next_seq (online.conns 0))
    × (after.stored ≡ online.stored)
    × (lookup (online.msgs 0).msg_id (after.sessions 0).pending_acks ≡ (
        if (online.sessions 0).deps.has_acker && wants_ack (online.msgs 0)
        then some (record { msg = 0; retry_count = 0; last_retry_at = online.clock })
        else lookup (online.msgs 0).msg_id (online.sessions 0).pending_acks))
submit-delivered_example = submit-delivered 0 0 0 online refl refl

close_session-IsGone_example :
    let gone = close_session 0 online in
    let back = (attach_conn 0 2 gone).1 in
    IsGone 0 (online.sessions 0).user_id (online.sessions 0).device_id gone
    × (close_session 0 gone ≡ gone)
    × ((back.sessions 0).state ≡ active)
    × ((back.sessions 0).conn ≡ some 2)
    × (close_session 0 back ≡ back)
close_session-IsGone_example = close_session-IsGone 0 2 online refl

reattach_restores_rooms_example :
    let away = detach_conn 0 online in
    (view away.router.rooms (lit "r1") (online.sessions 0).session_id ≡ none)
    × ((away.sessions 0).sub_rooms ≡ (online.sessions 0).sub_rooms)
    × (view (attach_conn 0 2 away).1.router.rooms (lit "r1") (online.sessions 0).session_id
        ≡ some (target_of 0 online))
reattach_restores_rooms_example = reattach_restores_rooms 0 0 2 online (lit "r1") refl (inl refl)
