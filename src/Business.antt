-- ===== src/Business.antt =====
-- The business server, business/internal: `Server` of server.go, `Sender` of sender.go
-- and `Consumer` of consumer.go. Kafka, gin,
-- protobuf and the clock are outside.
pub mod Pushes
pub mod Replies
use long_gw.Base.{
  ℕ, ◌+◌, ◌/◌, List, [], ◌∷◌, ◌++◌, Bool, true, false, not, is_some, length, Option, none, some,
  Str, Bytes, lit, str_eq, if◌then◌else◌,
}
use long_gw.Base.Dict.{Dict, lookup}
use long_gw.World.{itoa}

-- `TopicPair` of the configuration.
pub record TopicPair : Type 0 where
  pub upstream_topic : Str
  pub downstream_topic : Str

-- `PushRequest`; the enums of the protocol are numbers.
pub record PushRequest : Type 0 where
  pub conn_id : Str
  pub user_id : Str
  pub device_id : Str
  pub business_type : ℕ
  pub target_type : ℕ
  pub payload : Bytes

-- `UpstreamKafkaMessage`, without the fields that are logged only.
pub record UpstreamMessage : Type 0 where
  pub correlation_id : Str
  pub conn_id : Str
  pub user_id : Str
  pub device_id : Str
  pub business_type : ℕ

-- `DownstreamKafkaMessage`
pub record DownstreamMessage : Type 0 where
  pub correlation_id : Str
  pub conn_id : Str
  pub user_id : Str
  pub device_id : Str
  pub target_type : ℕ
  pub payload : Bytes
  pub timestamp : ℕ
  pub business_type : ℕ

-- A record that a writer is given: its topic, key and value.
pub record KafkaRecord : Type 0 where
  pub topic : Str
  pub key : Str
  pub value : Bytes

-- `proto.Marshal`: its error, or the bytes.
pub data Marshalled : Type 0 where
  unmarshallable : Str → Marshalled
  marshalled : Bytes → Marshalled

-- The server and its sender: `topics` is `BusinessTopics` of the configuration, `writers` the keys of
-- `writerMap`, `queued` the records that the writers queued. `attempts` counts the writes, `readings` the
-- readings of the clock.
pub record Server : Type 0 where
  pub topics : Dict TopicPair
  pub writers : List Str
  pub queued : List KafkaRecord
  pub attempts : ℕ
  pub readings : ℕ

-- `getUpstreamTopics`, in the order in which the map is iterated.
unfoldable pub get_upstream_topics : Dict TopicPair → List Str
get_upstream_topics [] = []
get_upstream_topics ((k, tp) ∷ topics) = tp.upstream_topic ∷ get_upstream_topics topics

unfoldable pub has_writer : Str → List Str → Bool
has_writer topic [] = false
has_writer topic (w ∷ ws) = if str_eq w topic then true else has_writer topic ws

-- `getWriter`
unfoldable pub get_writer : Str → Server → Server
get_writer topic st =
    if has_writer topic st.writers then st else record st { writers = st.writers ++ (topic ∷ []) }

-- What `WriteMessages` answers to the n-th write: an error with which nothing is queued, or none. The
-- writers are asynchronous: what the brokers answer to a queued record nobody reads.
abbrev pub Writer : Type 0
Writer = ℕ → KafkaRecord → Option Str

-- An HTTP answer of `handlePushMessage`: a body that does not bind, a type without a topic, an error
-- of the sender, or the id of the message.
pub data PushAnswer : Type 0 where
  bad_request unsupported_type push_failed : PushAnswer
  pushed : Str → PushAnswer

-- What `FetchMessage` and `Unmarshal` of the consumer give: an error, a value that is no message, or an
-- upstream message.
pub data FetchedRecord : Type 0 where
  fetch_failed poison : FetchedRecord
  fetched : UpstreamMessage → FetchedRecord

-- An entry of the results of `handleBatchPush`: the index, and the error if any.
pub record BatchResult : Type 0 where
  pub index : ℕ
  pub error : Option Str

-- The name of a business type, the number of the type of an ACK, protobuf, the writers, and the clock in
-- nanoseconds.
module _ (name_of : ℕ → Str) (message_ack : ℕ) (marshal : DownstreamMessage → Marshalled)
    (writer : Writer) (clock : ℕ → ℕ) where
  -- `WriteMessages` of the topic's writer.
  unfoldable pub write_message : KafkaRecord → Server → Server × Option Str
  write_message r st =
      let tried = record st { attempts = st.attempts + 1 } in
      elim (writer st.attempts r) [
        | some e ↦ (tried, some e)
        | none ↦ (record tried { queued = st.queued ++ (r ∷ []) }, none)
      ]

  -- `Send`
  unfoldable pub send : Str → DownstreamMessage → Server → Server × Option Str
  send topic msg st = elim (marshal msg) [
    | unmarshallable e ↦ (st, some e)
    | marshalled value ↦
        write_message (record { topic = topic; key = msg.conn_id; value = value })
          (get_writer topic st)
  ]

  -- `getDownstreamTopic`
  unfoldable pub get_downstream_topic : ℕ → Server → Str
  get_downstream_topic biz_type st = elim (lookup (name_of biz_type) st.topics) [
    | none ↦ []
    | some tp ↦ tp.downstream_topic
  ]

  -- The payload of a reply. The correlation id goes in as it is.
  abbrev pub reply_payload : Str → ℕ → Bytes
  reply_payload correlation_id millis =
      lit "{\"ack\":\"ok\",\"original_correlation_id\":\""
      ++ (correlation_id ++ (lit "\",\"reply_time\":" ++ (itoa millis ++ lit "}")))

  -- The reply to an upstream message, from three readings of the clock.
  abbrev pub reply_to : UpstreamMessage → Server → DownstreamMessage
  reply_to msg st = record {
    correlation_id = itoa (clock (st.readings + 1));
    conn_id = msg.conn_id;
    user_id = msg.user_id;
    device_id = msg.device_id;
    target_type = message_ack;
    payload = reply_payload msg.correlation_id (clock st.readings / 1000000);
    timestamp = clock (st.readings + 2) / 1000000;
    business_type = msg.business_type;
  }

  -- `handleUpstreamMessage`
  unfoldable pub handle_upstream_message : UpstreamMessage → Server → Server × Option Str
  handle_upstream_message msg st =
      let read = record st { readings = st.readings + 3 } in
      let topic = get_downstream_topic msg.business_type st in
      if str_eq topic [] then (read, none) else send topic (reply_to msg st) read

  -- The message of a push, from two readings of the clock.
  abbrev pub message_of : PushRequest → Server → DownstreamMessage
  message_of req st = record {
    correlation_id = itoa (clock st.readings);
    conn_id = req.conn_id;
    user_id = req.user_id;
    device_id = req.device_id;
    target_type = req.target_type;
    payload = req.payload;
    timestamp = clock (st.readings + 1) / 1000000;
    business_type = req.business_type;
  }

  abbrev pub push_answer : Str → Server × Option Str → Server × PushAnswer
  push_answer id (st, some e) = (st, push_failed)
  push_answer id (st, none) = (st, pushed id)

  -- `handlePushMessage` of what the body binds to, if it does.
  unfoldable pub handle_push : Option PushRequest → Server → Server × PushAnswer
  handle_push none st = (st, bad_request)
  handle_push (some req) st =
      let topic = get_downstream_topic req.business_type st in
      let msg = message_of req st in
      if str_eq topic []
      then (st, unsupported_type)
      else push_answer msg.correlation_id
          (send topic msg (record st { readings = st.readings + 2 }))

  -- A round of the loop of `handleBatchPush`.
  unfoldable pub batch_round : PushRequest → Server → Server × Option Str
  batch_round req st =
      let topic = get_downstream_topic req.business_type st in
      if str_eq topic []
      then (st, some (lit "unsupported business type"))
      else send topic (message_of req st) (record st { readings = st.readings + 2 })

  unfoldable pub batch_loop : ℕ → List PushRequest → Server → Server × List BatchResult
  batch_loop i [] st = (st, [])
  batch_loop i (req ∷ reqs) st =
      let (st', e) = batch_round req st in
      let (st'', results) = batch_loop (i + 1) reqs st' in
      (st'', record { index = i; error = e } ∷ results)

  -- `handleBatchPush` of what the body binds to: the total and the results.
  unfoldable pub handle_batch :
      Option (List PushRequest) → Server → Server × Option (ℕ × List BatchResult)
  handle_batch none st = (st, none)
  handle_batch (some reqs) st =
      let (st', results) = batch_loop 0 reqs st in (st', some (length reqs, results))

  -- A round of the loop of `Start` of consumer.go: whether it commits what it fetched.
  unfoldable pub consumer_round : FetchedRecord → Server → Server × Bool
  consumer_round fetch_failed st = (st, false)
  consumer_round poison st = (st, true)
  consumer_round (fetched msg) st =
      let (st', e) = handle_upstream_message msg st in (st', not (is_some e))
