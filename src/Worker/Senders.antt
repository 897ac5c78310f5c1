-- ===== src/Worker/Senders.antt =====
-- The senders of a worker pool, kafka_sender.go and grpc_sender.go of gateway/internal/worker/upstream.
-- Kafka, gRPC and protobuf are outside.
use long_gw.Base.{
  ℕ, ◌+◌, ◌≡◌, refl, List, [], ◌∷◌, ◌++◌, Bool, true, false, Option, none, some, Str, Bytes, str_eq,
  map, if◌then◌else◌, arith,
}
use long_gw.World.{Message}
use long_gw.Worker.Brokers.{kafka_record}

-- `KafkaSender`: its topic, the topics that have a writer, and what the writers were given.
pub record KafkaSender : Type 0 where
  pub topic : Str
  pub writer_map : List Str
  pub given : List (Str × Str × Bytes)

-- `getWriter`
abbrev pub is_writer : Str → List Str → Bool
is_writer topic [] = false
is_writer topic (w ∷ ws) = if str_eq w topic then true else is_writer topic ws

unfoldable pub sender_writer : KafkaSender → KafkaSender
sender_writer s =
    if is_writer s.topic s.writer_map
    then s
    else record s { writer_map = s.writer_map ++ (s.topic ∷ []) }

-- `GrpcSender`: whether it has a connection.
pub record GrpcSender : Type 0 where
  pub has_conn : Bool

-- `getConn`, as the dialing answers: whether there is a connection.
unfoldable pub get_grpc_conn : Bool → GrpcSender → GrpcSender × Bool
get_grpc_conn dials s =
    if s.has_conn
    then (s, true)
    else if dials
    then (record s { has_conn = true }, true)
    else (s, false)

-- `Send` of the gRPC sender, which takes no message: whether there was no error.
unfoldable pub grpc_send : Bool → GrpcSender → GrpcSender × Bool
grpc_send dials s = get_grpc_conn dials s

-- The form of an event with a payload, the error of marshalling it, if there is one, and what the writer
-- answers to the n-th record.
module _ (event_bytes : Bytes → Bytes) (marshal_error : Option Str) (writes : ℕ → Option Str) where
  -- `Send`, the n-th.
  unfoldable pub kafka_send : ℕ → Message → KafkaSender → KafkaSender × Option Str
  kafka_send n msg s = elim marshal_error [
    | some e ↦ (s, some e)
    | none ↦ (
      record (sender_writer s) {
        given =
            (sender_writer s).given
            ++ ((s.topic, (kafka_record event_bytes msg).0, (kafka_record event_bytes msg).1) ∷ []);
      },
      writes n,
    )
  ]

  -- Messages that are sent one after the other, with their errors.
  abbrev pub send_each : ℕ → List Message → KafkaSender → KafkaSender × List (Option Str)
  send_each n [] s = (s, [])
  send_each n (m ∷ ms) s =
      let (s', e) = kafka_send n m s in let (s'', es) = send_each (n + 1) ms s' in (s'', e ∷ es)

  kafka_send-same_id :
      (n : ℕ) (a b : Message) (s : KafkaSender)
      → a.msg_id ≡ b.msg_id
      → kafka_send n a s ≡ kafka_send n b s
  unfolding kafka_send kafka_record
  kafka_send-same_id n a b s e = ground (arith, e)

  -- What the Kafka sender gives to its writers, and what it answers, depends on the ids of the messages and
  -- on nothing else of them: two sequences of messages with the same ids are sent alike, whatever their
  -- bodies, senders, targets and headers.
  pub send_each-same_ids :
      (n : ℕ) (ms ns : List Message) (s : KafkaSender)
      → map (λ (m : Message). m.msg_id) ms ≡ map (λ (m : Message). m.msg_id) ns
      → send_each n ms s ≡ send_each n ns s
  send_each-same_ids n [] [] s e = refl
  send_each-same_ids n [] (b ∷ ns) s e = absurd (cc)
  send_each-same_ids n (a ∷ ms) [] s e = absurd (cc)
  send_each-same_ids n (a ∷ ms) (b ∷ ns) s e =
      let id : a.msg_id ≡ b.msg_id = cc in
      let rest : map (λ (m : Message). m.msg_id) ms ≡ map (λ (m : Message). m.msg_id) ns = cc in
      let first = kafka_send-same_id n a b s id in
      rw first (ground (arith, send_each-same_ids (n + 1) ms ns (kafka_send n b s).0 rest))
