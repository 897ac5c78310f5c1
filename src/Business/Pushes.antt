-- ===== src/Business/Pushes.antt =====
-- Pushing messages through the business server, one by one and in a batch.
use long_gw.Base.{
  ℕ, ◌+◌, ◌≡◌, refl, List, [], ◌∷◌, ◌++◌, Bool, true, false, not, none, some, Option, Str, Bytes,
  is_some, arith, if◌then◌else◌,
}
use mathlib.Core.List.{append-nil}
use long_gw.Business.{
  PushRequest, DownstreamMessage, KafkaRecord, Marshalled, unmarshallable, marshalled, Server,
  Writer, PushAnswer, bad_request, unsupported_type, push_failed, pushed, BatchResult,
  get_downstream_topic, get_writer, write_message, send, message_of, handle_push,
}

abbrev pub is_pushed : PushAnswer → Bool
is_pushed (pushed id) = true
is_pushed bad_request = false
is_pushed unsupported_type = false
is_pushed push_failed = false

abbrev pub bytes_of : Marshalled → Bytes
bytes_of (unmarshallable e) = []
bytes_of (marshalled value) = value

-- The results of a batch are those of single pushes: the same indexes, and an error exactly where the
-- push is refused.
abbrev pub Agree : ℕ → List BatchResult → List PushAnswer → Type 0
Agree i [] [] = Unit {0}
Agree i [] (a ∷ answers) = ⊥
Agree i (r ∷ results) [] = ⊥
Agree i (r ∷ results) (a ∷ answers) =
    (r.index ≡ i) × (is_some r.error ≡ not (is_pushed a)) × Agree (i + 1) results answers

abbrev pub pushed_count : List PushAnswer → ℕ
pushed_count [] = 0
pushed_count (a ∷ answers) = (if is_pushed a then 1 else 0) + pushed_count answers

module _ (name_of : ℕ → Str) (message_ack : ℕ) (marshal : DownstreamMessage → Marshalled)
    (writer : Writer) (clock : ℕ → ℕ) where
  -- Single pushes, one after the other.
  abbrev pub push_all : List PushRequest → Server → Server × List PushAnswer
  push_all [] st = (st, [])
  push_all (req ∷ reqs) st =
      let (st', a) = handle_push name_of message_ack marshal writer clock (some req) st in
      let (st'', answers) = push_all reqs st' in (st'', a ∷ answers)

  abbrev pub queued_by : Str → DownstreamMessage → Option Str → List KafkaRecord
  queued_by topic msg (some e) = []
  queued_by topic msg none =
      record { topic = topic; key = msg.conn_id; value = bytes_of (marshal msg) } ∷ []

  write_message-queues :
      (r : KafkaRecord) (st : Server)
      → let (st', e) = write_message name_of message_ack marshal writer clock r st in
        (st'.queued ≡ st.queued ++ (elim e [ some x ↦ [] | none ↦ r ∷ [] ]))
        × (st'.topics ≡ st.topics)
  unfolding write_message
  write_message-queues r st = ground (arith, append-nil st.queued)

  get_writer-frame :
      (topic : Str) (st : Server)
      → ((get_writer topic st).queued ≡ st.queued) × ((get_writer topic st).topics ≡ st.topics)
  unfolding get_writer
  get_writer-frame topic st = ground arith

  -- What a call of the sender adds to the queues of the writers.
  pub send-queues :
      (topic : Str) (msg : DownstreamMessage) (st : Server)
      → let (st', e) = send name_of message_ack marshal writer clock topic msg st in
        (st'.queued ≡ st.queued ++ queued_by topic msg e) × (st'.topics ≡ st.topics)
  unfolding send
  send-queues topic msg st = sends (marshal msg) refl
    where
      sends :
          (b : Marshalled)
          → marshal msg ≡ b
          → let (st', e) = send name_of message_ack marshal writer clock topic msg st in
            (st'.queued ≡ st.queued ++ queued_by topic msg e) × (st'.topics ≡ st.topics)
      sends (unmarshallable x) q = ground (arith, q, append-nil st.queued)
      sends (marshalled v) q =
          let r : KafkaRecord = record { topic = topic; key = msg.conn_id; value = v } in
          let w = write_message-queues r (get_writer topic st) in
          let f = get_writer-frame topic st in ground (arith, q, w, f)

  -- What a push adds to the queues: one record where it is answered with an id, none otherwise.
  abbrev pub added : PushRequest → Server → PushAnswer → List KafkaRecord
  added req st (pushed id) =
      record {
        topic = get_downstream_topic name_of message_ack marshal writer clock req.business_type st;
        key = req.conn_id;
        value = bytes_of (marshal (message_of name_of message_ack marshal writer clock req st));
      }
      ∷ []
  added req st _ = []

  -- A push adds one record to the queues of the writers where it is answered with an id, and none
  -- otherwise: under the downstream topic of its business type, keyed by its connection, with the
  -- marshalled message. Whatever is answered, what was queued stays, and no topic is lost.
  pub handle_push-queues :
      (req : PushRequest) (st : Server)
      → let (st', a) = handle_push name_of message_ack marshal writer clock (some req) st in
        (st'.queued ≡ st.queued ++ added req st a) × (st'.topics ≡ st.topics)
  unfolding handle_push
  handle_push-queues req st =
      let topic =
        get_downstream_topic name_of message_ack marshal writer clock req.business_type st in
      let msg = message_of name_of message_ack marshal writer clock req st in
      let read = record st { readings = st.readings + 2 } in
      ground (arith, append-nil st.queued, send-queues topic msg read)
