-- ===== src/Worker/Failures.antt =====
-- How the client hears of a message that is not sent upstream: `upstreamWorker` of
-- gateway/internal/worker/pool.go with the session's `Submit`.
use long_gw.Base.{
  ℕ, ◌≡◌, refl, ◌∙◌, ap, List, [], ◌∷◌, ◌++◌, Bool, false, not, ◌&&◌, Option, none, some, Str,
  Bytes, is_some, if◌then◌else◌, arith, str_eq_refl, Bool-cases, Option-cases, inl, inr,
}
use long_gw.Base.Dict.{lookup, lookup-insert}
use long_gw.World.{World, Message, Pool, UpstreamJob, Delivery, unspecified, done, world_of}
use long_gw.Connection.{is_expired, conn_submit}
use long_gw.Scanner.{track}
use long_gw.Session.{submit, handle_undelivered, record_delivered}
use long_gw.Session.Submit.{deliverable, submit_total}
use long_gw.Worker.{put_pool, take_upstream, alloc, failure_frame, upstream_job, upstream_turn}

-- The frame that a failed job makes.
abbrev pub frame_of : (Message → Option Str) → (Str → Bytes) → ℕ → Message → Message → Message
frame_of send encode now msg old =
    if is_expired now msg.expire_at then record old { seq_id = 0 } else elim (send msg) [
      | none ↦ record old { seq_id = 0 }
      | some e ↦ failure_frame msg (encode e)
    ]

abbrev pub fails : (Message → Option Str) → ℕ → Message → Bool
fails send now msg = not (is_expired now msg.expire_at) && is_some (send msg)

-- A frame that wants no ACK and no store, to a session with a connection.
submit-frame :
    (s m c : ℕ) (w : World) (d : Delivery)
    → (w.msgs m).delivery ≡ some d
    → d.offline ≡ false
    → (w.sessions s).conn ≡ some c
    → let after = world_of (submit s m w) in
      (after.pools ≡ w.pools)
      × (after.stored ≡ w.stored)
      × ((after.conns c).write_ch
          ≡ (if deliverable s w then (w.conns c).write_ch ++ (m ∷ []) else (w.conns c).write_ch))
      × (record (after.msgs m) { seq_id = 0 } ≡ record (w.msgs m) { seq_id = 0 })
unfolding submit handle_undelivered conn_submit record_delivered track
submit-frame s m c w d e o cn = ground (arith, e, o, cn)

upstream_job-replies :
    (send : Message → Option Str) (encode : Str → Bytes) (job : UpstreamJob) (c : ℕ) (w : World)
    → (w.sessions job.job_session).conn ≡ some c
    → let msg = w.msgs job.job_msg in
      let answer = upstream_job send encode job w in
      let after = world_of answer in
      (answer ≡ done tt after)
      × (after.pools ≡ w.pools)
      × (after.stored ≡ w.stored)
      × ((after.conns c).write_ch ≡ (
          if fails send w.clock msg && deliverable job.job_session w
          then (w.conns c).write_ch ++ (w.next_msg ∷ [])
          else (w.conns c).write_ch))
      × (record (after.msgs w.next_msg) { seq_id = 0 }
          ≡ frame_of send encode w.clock msg (w.msgs w.next_msg))
unfolding upstream_job
upstream_job-replies send encode job c w cn =
    let msg = w.msgs job.job_msg in
    elim (Bool-cases (is_expired w.clock msg.expire_at)) [
      | inl x ↦ ground (arith, x)
      | inr x ↦ elim (Option-cases (send msg)) [
        | inl n ↦ ground (arith, x, n)
        | inr (e, n) ↦
            let frame = failure_frame msg (encode e) in
            let w1 = alloc frame w in
            let f =
              submit-frame job.job_session w.next_msg c w1
                (record { qos = unspecified; offline = false; ack_id = some msg.msg_id })
                (ground arith) refl cn in
            let t =
              submit_total job.job_session w.next_msg w1
                (record { qos = unspecified; offline = false; ack_id = some msg.msg_id })
                (ground arith) in
            (
              ground (arith, x, n, t),
              ground (arith, x, n, f.0),
              ground (arith, x, n, f.1),
              ground (arith, x, n, f.2),
              ground (arith, x, n, f.3),
            )
      ]
    ]

-- A turn of a worker that finds a job, of a session with a connection. It never panics and it takes the
-- job off its pool. Exactly where the message has not expired and the sender refuses it, and the session
-- can deliver, the connection is given one message more: the error frame for the message's id with the
-- sender's error. Nothing is stored, also where the frame is not delivered.
pub upstream_turn-replies :
    (send : Message → Option Str) (encode : Str → Bytes) (biz : Str) (p : Pool) (job : UpstreamJob)
    (rest : List UpstreamJob) (c : ℕ) (w : World)
    → lookup biz w.pools ≡ some p
    → p.upstream_ch ≡ job ∷ rest
    → (w.sessions job.job_session).conn ≡ some c
    → let msg = w.msgs job.job_msg in
      let answer = upstream_turn send encode biz w in
      let after = world_of answer in
      (answer ≡ done tt after)
      × (lookup biz after.pools ≡ some (record p { upstream_ch = rest }))
      × (after.stored ≡ w.stored)
      × ((after.conns c).write_ch ≡ (
          if fails send w.clock msg && deliverable job.job_session w
          then (w.conns c).write_ch ++ (w.next_msg ∷ [])
          else (w.conns c).write_ch))
      × (record (after.msgs w.next_msg) { seq_id = 0 }
          ≡ frame_of send encode w.clock msg (w.msgs w.next_msg))
unfolding upstream_turn take_upstream
upstream_turn-replies send encode biz p job rest c w e q cn =
    let w1 = put_pool biz (record p { upstream_ch = rest }) w in
    let turn : upstream_turn send encode biz w ≡ upstream_job send encode job w1 =
      ground (arith, e, q) in
    let r = upstream_job-replies send encode job c w1 cn in
    rw turn (
      r.0,
      ap (lookup biz) r.1
          ∙ ground (
            arith,
            str_eq_refl biz,
            lookup-insert biz biz (record p { upstream_ch = rest }) w.pools,
          ),
      r.2,
      r.3,
      r.4,
    )
