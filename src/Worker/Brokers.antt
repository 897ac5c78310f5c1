-- ===== src/Worker/Brokers.antt =====
-- The message brokers at the worker pools: the sender of worker/upstream/kafka_sender.go, and the two
-- consumers, utils/kafka/consumer.go and worker/downstream/consumer.go of gateway/internal. Kafka and
-- protobuf are outside.
use long_gw.Base.{
  ℕ, ◌≡◌, List, [], ◌∷◌, ◌++◌, Bool, true, false, none, some, Str, Bytes, str_eq_refl, ltb,
  if◌then◌else◌, length, arith, Option-cases, inl, inr,
}
use long_gw.Base.Dict.{lookup, lookup-insert}
use long_gw.World.{World, Message}
use long_gw.Worker.{alloc, manager_submit_downstream, pool_submit_downstream, channel_cap}

-- `Send` of the sender: the key and the value of the record that it writes. The value is the form
-- `event_bytes` of an `UpstreamEvent` with a payload, which nothing fills.
unfoldable pub kafka_record : (Bytes → Bytes) → Message → Str × Bytes
kafka_record event_bytes msg = let payload : Bytes = [] in (msg.msg_id, event_bytes payload)

-- What a consumer fetches: an error, a value that is no message, or a message.
pub data Fetched : Type 0 where
  fetch_fails undecodable : Fetched
  decoded : Message → Fetched

-- A round of the consumer of utils/kafka: whether it asks for the commit of what it fetched. An error of
-- the commit is only logged.
unfoldable pub manager_consumer_round : Fetched → World → World × Bool
manager_consumer_round fetch_fails w = (w, false)
manager_consumer_round undecodable w = (w, true)
manager_consumer_round (decoded msg) w =
    manager_submit_downstream msg.biz_code w.next_msg (alloc msg w)

-- A round of `consumeTopic` of worker/downstream, which does not look at what the pool answers.
unfoldable pub topic_consumer_round : Fetched → World → World × Bool
topic_consumer_round fetch_fails w = (w, false)
topic_consumer_round undecodable w = (w, true)
topic_consumer_round (decoded msg) w =
    ((manager_submit_downstream msg.biz_code w.next_msg (alloc msg w)).0, true)

-- The messages that wait for the downstream workers of a domain, none where there is no pool.
abbrev pub waiting_down : Str → World → List ℕ
waiting_down biz w = elim (lookup biz w.pools) [ none ↦ [] | some p ↦ p.downstream_ch ]

abbrev pub takes_down : Str → World → Bool
takes_down biz w = elim (lookup biz w.pools) [
  | none ↦ false
  | some p ↦ ltb (length p.downstream_ch) channel_cap
]

-- A message that is fetched: both consumers put it behind the others of its domain's pool where there
-- is one with room, and else change no channel of its domain. The consumer of utils/kafka asks for
-- its commit exactly in the first case, the consumer of worker/downstream in both, so that it does so
-- for a message that the pool refuses.
pub consumer_rounds-commit :
    (msg : Message) (w : World)
    → let biz = msg.biz_code in
      let (w', committed) = manager_consumer_round (decoded msg) w in
      let (w'', gone) = topic_consumer_round (decoded msg) w in
      (committed ≡ takes_down biz w)
      × (waiting_down biz w' ≡ (
          if takes_down biz w then waiting_down biz w ++ (w.next_msg ∷ []) else waiting_down biz w))
      × (gone ≡ true)
      × (w'' ≡ w')
unfolding manager_consumer_round topic_consumer_round manager_submit_downstream
    pool_submit_downstream
consumer_rounds-commit msg w = elim (Option-cases (lookup msg.biz_code w.pools)) [
  | inl n ↦ ground (arith, n)
  | inr (p, e) ↦ ground (
    arith,
    e,
    str_eq_refl msg.biz_code,
    lookup-insert msg.biz_code msg.biz_code p w.pools,
    lookup-insert msg.biz_code msg.biz_code
        (record p { downstream_ch = p.downstream_ch ++ (w.next_msg ∷ []) }) w.pools,
  )
]

-- Two messages with one id are the same record upstream, whatever their bodies, senders and headers.
pub kafka_record-drops_body :
    (event_bytes : Bytes → Bytes) (m n : Message)
    → m.msg_id ≡ n.msg_id
    → kafka_record event_bytes m ≡ kafka_record event_bytes n
unfolding kafka_record
kafka_record-drops_body event_bytes m n e = ground (arith, e)
