-- ===== src/System/Delivery.antt =====
-- The way of a message from the brokers to a client's connection: utils/kafka/consumer.go, worker/pool.go,
-- pipeline/downlink/stages.go, session/session.go and access/connruntime/writer.go of gateway/internal, one
-- after the other.
use long_gw.Base.{
  ℕ, zero, suc, ◌≡◌, refl, ◌∙◌, List, [], ◌∷◌, ◌++◌, Bool, true, false, ◌&&◌, some, Str,
  str_eq_refl, if◌then◌else◌, length, arith,
}
use long_gw.Base.Dict.{lookup, lookup-insert}
use long_gw.Router.{Target, resolve}
use long_gw.World.{World, Message, Pool, world_of, done}
use long_gw.Connection.{is_expired, next_seq, write_next, conn_submit}
use long_gw.Scanner.{wants_ack, track}
use long_gw.Session.{submit, record_delivered, handle_undelivered}
use long_gw.Session.Submit.{deliverable, submit-delivered}
use long_gw.Pipeline.{flow_world, run_chain}
use long_gw.Pipeline.Downlink.{
  wanted, new_ctx, recover_stage, validate_stage, validate_message, route_stage, filter_stage,
  filter_targets, exclude_id, fan_out_stage, fan_out_loop, metrics_stage, build_chain,
  downstream_job, downstream_turn,
}
use long_gw.Worker.{manager_submit_downstream, pool_submit_downstream, take_downstream}
use long_gw.Worker.Brokers.{decoded, manager_consumer_round}

-- The job of a message whose one session takes it is that session's `Submit`.
downstream_job-submits :
    (h : Bool) (m : ℕ) (w : World) (key id : Str) (t : Target)
    → (w.msgs m).to ≡ some key
    → (w.msgs m).trace ≡ some id
    → is_expired w.clock (w.msgs m).expire_at ≡ false
    → resolve key w.router ≡ some (t ∷ [])
    → filter_targets (exclude_id (w.msgs m)) w (t ∷ []) ≡ t ∷ []
    → submit t.ref m w ≡ done true (world_of (submit t.ref m w))
    → flow_world (downstream_job h m w) ≡ world_of (submit t.ref m w)
unfolding downstream_job build_chain run_chain recover_stage validate_stage validate_message new_ctx
    route_stage filter_stage fan_out_stage fan_out_loop metrics_stage
downstream_job-submits h m w key id t to i x r f s = ground (arith, to, i, x, r, f, s)

-- What a round of the consumer and the taking of a worker leave as it was.
abbrev SameClients : World → World → Type 0
SameClients w w' =
    (w'.conns ≡ w.conns)
    × (w'.sessions ≡ w.sessions)
    × (w'.router ≡ w.router)
    × (w'.clock ≡ w.clock)
    × (w'.stored ≡ w.stored)

-- A message that is fetched for an idle pool is the next one that its workers take.
round-take :
    (msg : Message) (p : Pool) (w : World)
    → lookup msg.biz_code w.pools ≡ some p
    → p.downstream_ch ≡ []
    → let (w1, committed) = manager_consumer_round (decoded msg) w in
      let (w2, taken) = take_downstream msg.biz_code w1 in
      (committed ≡ true) × (taken ≡ some w.next_msg) × (w2.msgs w.next_msg ≡ msg) × SameClients w w2
unfolding manager_consumer_round manager_submit_downstream pool_submit_downstream take_downstream
round-take msg p w e q = ground (
  arith,
  e,
  q,
  str_eq_refl msg.biz_code,
  lookup-insert msg.biz_code msg.biz_code (record p { downstream_ch = w.next_msg ∷ [] }) w.pools,
)

-- A delivered message has its number, and is otherwise as it was.
submit-stamps :
    (s m c : ℕ) (w : World)
    → (w.sessions s).conn ≡ some c
    → deliverable s w ≡ true
    → (world_of (submit s m w)).msgs m ≡ record (w.msgs m) { seq_id = next_seq (w.conns c) }
unfolding submit handle_undelivered conn_submit record_delivered track
submit-stamps s m c w e h = ground (arith, e, h)

-- Turns of the writing loop of a connection.
abbrev pub write_turns : ℕ → ℕ → World → World
write_turns c zero w = w
write_turns c (suc n) w = write_turns c n (write_next c w).0

write_next-pops :
    (c x : ℕ) (queue : List ℕ) (w : World)
    → (w.conns c).write_ch ≡ x ∷ queue
    → (((write_next c w).0.conns c).write_ch ≡ queue) × ((write_next c w).0.msgs ≡ w.msgs)
unfolding write_next
write_next-pops c x queue w e = (ground (arith, e), ground (arith, e))

-- After as many turns as there are messages before it, a message is written.
write_turns-writes :
    (c m : ℕ) (queue : List ℕ) (w : World)
    → (w.conns c).write_ch ≡ queue ++ (m ∷ [])
    → (write_next c (write_turns c (length queue) w)).1 ≡ some (w.msgs m)
write_turns-writes c m [] w e = unfold write_next in ground (arith, e)
write_turns-writes c m (x ∷ queue) w e =
    let (q, same) = write_next-pops c x (queue ++ (m ∷ [])) w e in
    write_turns-writes c m queue (write_next c w).0 q ∙ rw same refl

-- What the job of such a message leaves.
job-delivers :
    (h : Bool) (m : ℕ) (key id : Str) (t : Target) (c : ℕ) (w : World)
    → (w.msgs m).to ≡ some key
    → (w.msgs m).trace ≡ some id
    → is_expired w.clock (w.msgs m).expire_at ≡ false
    → resolve key w.router ≡ some (t ∷ [])
    → wanted (exclude_id (w.msgs m)) w t ≡ true
    → (w.sessions t.ref).conn ≡ some c
    → deliverable t.ref w ≡ true
    → let after = flow_world (downstream_job h m w) in
      ((after.conns c).write_ch ≡ (w.conns c).write_ch ++ (m ∷ []))
      × (after.msgs m ≡ record (w.msgs m) { seq_id = next_seq (w.conns c) })
      × (after.stored ≡ w.stored)
      × (lookup (w.msgs m).msg_id (after.sessions t.ref).pending_acks ≡ (
          if (w.sessions t.ref).deps.has_acker && wants_ack (w.msgs m)
          then some (record { msg = m; retry_count = 0; last_retry_at = w.clock })
          else lookup (w.msgs m).msg_id (w.sessions t.ref).pending_acks))
job-delivers h m key id t c w to tc x r f cn y =
    let d = submit-delivered t.ref m c w cn y in
    let kept : filter_targets (exclude_id (w.msgs m)) w (t ∷ []) ≡ t ∷ [] =
      unfold filter_targets in ground (arith, f) in
    rw (downstream_job-submits h m w key id t to tc x r kept d.0)
      (d.1, submit-stamps t.ref m c w cn y, d.3, d.4)

-- A turn of an idle pool's worker, once a message is fetched, is the message's job.
turn-job :
    (h : Bool) (biz : Str) (m : ℕ) (w : World)
    → (take_downstream biz w).1 ≡ some m
    → downstream_turn h biz w ≡ flow_world (downstream_job h m (take_downstream biz w).0)
unfolding downstream_turn
turn-job h biz m w e = ground (arith, e)

-- A message is fetched for an idle pool, unexpired and with a trace context, to a target with one
-- session, which the filter keeps and whose connection is active and has room. A round of the consumer
-- asks for its commit, a turn of the pool's worker submits it, and the connection writes it after the messages
-- that were queued there: as it was fetched, but for the connection's next sequence number. Nothing is
-- stored, and where it wants an ACK and there is a scanner it is pending, with no retry yet.
pub fetched-written :
    (has_store : Bool) (msg : Message) (p : Pool) (key id : Str) (t : Target) (c : ℕ) (w : World)
    → lookup msg.biz_code w.pools ≡ some p
    → p.downstream_ch ≡ []
    → msg.to ≡ some key
    → msg.trace ≡ some id
    → is_expired w.clock msg.expire_at ≡ false
    → resolve key w.router ≡ some (t ∷ [])
    → wanted (exclude_id msg) w t ≡ true
    → (w.sessions t.ref).conn ≡ some c
    → deliverable t.ref w ≡ true
    → let (w1, committed) = manager_consumer_round (decoded msg) w in
      let w2 = downstream_turn has_store msg.biz_code w1 in
      let turns = length (w.conns c).write_ch in
      (committed ≡ true)
      × ((write_next c (write_turns c turns w2)).1
          ≡ some (record msg { seq_id = next_seq (w.conns c) }))
      × (w2.stored ≡ w.stored)
      × (lookup msg.msg_id (w2.sessions t.ref).pending_acks ≡ (
          if (w.sessions t.ref).deps.has_acker && wants_ack msg
          then some (record { msg = w.next_msg; retry_count = 0; last_retry_at = w.clock })
          else lookup msg.msg_id (w.sessions t.ref).pending_acks))
fetched-written h msg p key id t c w e q to tc x r f cn y =
    let biz = msg.biz_code in
    let m = w.next_msg in
    let w1 = (manager_consumer_round (decoded msg) w).0 in
    let w1' = (take_downstream biz w1).0 in
    let (ok, taken, it, same) = round-take msg p w e q in
    let (conns, sessions, router, clock, stored) = same in
    let turn = turn-job h biz m w1 taken in
    let d =
      job-delivers h m key id t c w1' (ground (arith, it, to)) (ground (arith, it, tc))
        (ground (arith, it, clock, x)) (ground (arith, router, r)) (ground (arith, it, sessions, f))
        (ground (arith, sessions, cn)) (ground (arith, sessions, conns, y)) in
    (
      ok,
      write_turns-writes c m (w.conns c).write_ch (downstream_turn h biz w1)
            (ground (arith, turn, d.0, conns))
          ∙ ground (arith, turn, d.1, it, conns),
      rw turn (d.2 ∙ stored),
      ground (arith, turn, d.3, it, sessions, clock),
    )
