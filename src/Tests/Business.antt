-- ===== src/Tests/Business.antt =====
-- The business server with one topic.
use long_gw.Tests.Data.{tiny}
use long_gw.Base.{ℕ, ◌≡◌, [], ◌∷◌, ◌++◌, none, some, Str, if◌then◌else◌, ◌||◌, str_eq, ◌==◌, lit}
use long_gw.Business.{
  PushRequest, DownstreamMessage, Marshalled, marshalled, Server, Writer, get_downstream_topic,
  UpstreamMessage, fetched, consumer_round,
}
use long_gw.Business.Replies.{reply_record, takes_reply, consumer_round-replies}

abbrev short_name : ℕ → Str
short_name n = if n == 1 then lit "im" else lit "live"

abbrev payload_only : DownstreamMessage → Marshalled
payload_only m = marshalled m.payload

-- The second write fails.
abbrev busy : Writer
busy n r = if n == 1 then some (lit "timeout") else none

abbrev ticks : ℕ → ℕ
ticks n = n

abbrev one_topic : Server
one_topic = record {
  topics = (lit "im", record { upstream_topic = lit "up"; downstream_topic = lit "down" }) ∷ [];
  writers = [];
  queued = [];
  attempts = 0;
  readings = 0;
}

abbrev push_to : Str → PushRequest
push_to conn_id = record {
  conn_id = conn_id;
  user_id = lit "u1";
  device_id = lit "d1";
  business_type = 1;
  target_type = 2;
  payload = tiny;
}

abbrev upstream : UpstreamMessage
upstream = record {
  correlation_id = lit "7";
  conn_id = lit "c1";
  user_id = lit "u1";
  device_id = lit "d1";
  business_type = 1;
}

consumer_round-replies_example :
    let topic =
      get_downstream_topic short_name 9 payload_only busy ticks upstream.business_type one_topic in
    let (st', committed) =
      consumer_round short_name 9 payload_only busy ticks (fetched upstream) one_topic in
    (committed
      ≡ (str_eq topic [] || (takes_reply short_name 9 payload_only busy ticks) upstream one_topic))
    × (st'.queued ≡ (
        if str_eq topic []
        then one_topic.queued
        else if (takes_reply short_name 9 payload_only busy ticks) upstream one_topic
        then one_topic.queued
          ++ ((reply_record short_name 9 payload_only busy ticks) upstream one_topic ∷ [])
        else one_topic.queued))
    × (st'.topics ≡ one_topic.topics)
consumer_round-replies_example =
    consumer_round-replies short_name 9 payload_only busy ticks upstream one_topic
