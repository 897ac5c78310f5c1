-- ===== src/Business/Replies.antt =====
-- What the business server does with an upstream message.
use long_gw.Base.{
  ℕ, ◌+◌, ◌≡◌, [], ◌∷◌, ◌++◌, Bool, false, not, ◌||◌, Str, str_eq, is_some, arith, if◌then◌else◌,
}
use mathlib.Core.List.{append-nil}
use long_gw.Business.{
  UpstreamMessage, DownstreamMessage, KafkaRecord, Marshalled, unmarshallable, marshalled, Server,
  Writer, fetched, get_downstream_topic, send, write_message, get_writer, reply_to,
  handle_upstream_message, consumer_round,
}
use long_gw.Business.Pushes.{bytes_of, send-queues}

module _ (name_of : ℕ → Str) (message_ack : ℕ) (marshal : DownstreamMessage → Marshalled)
    (writer : Writer) (clock : ℕ → ℕ) where
  -- The record of the reply to a message.
  abbrev pub reply_record : UpstreamMessage → Server → KafkaRecord
  reply_record msg st = record {
    topic = get_downstream_topic name_of message_ack marshal writer clock msg.business_type st;
    key = msg.conn_id;
    value = bytes_of (marshal (reply_to name_of message_ack marshal writer clock msg st));
  }

  -- Whether the reply marshals and its writer queues it.
  abbrev pub takes_reply : UpstreamMessage → Server → Bool
  takes_reply msg st = elim (marshal (reply_to name_of message_ack marshal writer clock msg st)) [
    | unmarshallable e ↦ false
    | marshalled value ↦ not (is_some (writer st.attempts (reply_record msg st)))
  ]

  send-takes :
      (msg : UpstreamMessage) (st : Server)
      → let topic =
          get_downstream_topic name_of message_ack marshal writer clock msg.business_type st in
        not (
          is_some
            (send name_of message_ack marshal writer clock topic
              (reply_to name_of message_ack marshal writer clock msg st)
              (record st { readings = st.readings + 3 })).1)
        ≡ takes_reply msg st
  unfolding send write_message get_writer
  send-takes msg st = ground arith

  -- An upstream message that the consumer fetches. Where its business type has no downstream topic it is
  -- committed without a reply. Otherwise it is committed exactly where the reply marshals and the
  -- asynchronous writer queues it, whatever the brokers make of it later, and then the reply is the last
  -- record queued: under that topic, keyed by the connection of the message, with the marshalled reply
  -- for its user and device.
  pub consumer_round-replies :
      (msg : UpstreamMessage) (st : Server)
      → let topic =
          get_downstream_topic name_of message_ack marshal writer clock msg.business_type st in
        let (st', committed) =
          consumer_round name_of message_ack marshal writer clock (fetched msg) st in
        (committed ≡ (str_eq topic [] || takes_reply msg st))
        × (st'.queued ≡ (
            if str_eq topic []
            then st.queued
            else if takes_reply msg st
            then st.queued ++ (reply_record msg st ∷ [])
            else st.queued))
        × (st'.topics ≡ st.topics)
  unfolding consumer_round handle_upstream_message
  consumer_round-replies msg st =
      let topic =
        get_downstream_topic name_of message_ack marshal writer clock msg.business_type st in
      let reply = reply_to name_of message_ack marshal writer clock msg st in
      let read = record st { readings = st.readings + 3 } in
      ground (
        arith,
        append-nil st.queued,
        send-queues name_of message_ack marshal writer clock topic reply read,
        send-takes msg st,
      )
