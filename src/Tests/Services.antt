-- ===== src/Tests/Services.antt =====
-- Calls of what is around the gateway, with its state in memory.
use long_gw.Tests.Data.{tiny, messages, online, nobody, registry_of}
use long_gw.Base.{
  ℕ, ◌+◌, ◌≡◌, refl, Bool, true, false, ◌||◌, Option, none, some, Str, str_eq, ltb, if◌then◌else◌,
  arith, List, [], ◌∷◌, All, ◌<◌, ◌++◌, Bytes, ◌/◌, lit,
}
use long_gw.Router.Distributed.{get_node_by_user_id, get_node_by_device_id}
use long_gw.Router.Distributed.Leases.{
  route_after, names_user, names_device, dist_step, dist_step-routes, registers,
}
use long_gw.World.{Message}
use long_gw.App.{no_message}
use long_gw.Storage.{OfflineMessageModel, zero_model, fetch, delete, count}
use long_gw.Storage.Lost.{store_all, fetched, store_all-is_lost}
use long_gw.Base.Dict.{lookup}
use long_gw.Worker.Brokers.{decoded, waiting_down}
use long_gw.Worker.Offsets.{consume, consume-loses_refused}
use long_gw.Worker.Senders.{KafkaSender, send_each, send_each-same_ids}
use long_gw.Auth.{token_life, verify}
use long_gw.Sdk.Login.{ask_service, generate_token-verified, service_error, obtained}
use long_gw.SessionRegistry.{get_or_create}
use long_gw.SessionRegistry.Ids.{compute_session_id, get_or_create-shares_id}
use long_gw.Tests.Memory.{memory_redis, memory_db, memory_offsets}

abbrev other_domain : Message
other_domain = record (messages 0) { biz_code = lit "live" }

abbrev every_commit : ℕ → Bool
every_commit n = true

-- A message that waits for the user, as another program may have written it.
abbrev one_row : List OfflineMessageModel
one_row =
    record zero_model {
      id = 1;
      user_id = lit "u1";
      msg_id = lit "message1";
      payload = tiny;
      seq_id = 5;
    }
    ∷ []

-- The first message with nothing in it but its id.
abbrev without_body : Message
without_body = record (messages 0) { body = []; from = none; headers = [] }

abbrev plain_event : Bytes → Bytes
plain_event b = b

abbrev all_written : ℕ → Option Str
all_written n = none

abbrev kafka : KafkaSender
kafka = record { topic = lit "im_up"; writer_map = []; given = [] }

abbrev hash : Bytes → Str
hash b = b

dist_step-routes_example :
    let (s', ok) =
      (dist_step memory_redis (lit "here")) (registers (lit "u1") (lit "d1")) none 5 [] in
    (ok ≡ true)
    × (get_node_by_user_id memory_redis (lit "here") 10 (lit "u1") s'
        ≡ route_after
            (registers (lit "u1") (lit "d1"))
            (lit "here")
            5
            10
            (names_user (registers (lit "u1") (lit "d1")) (lit "u1"))
            (get_node_by_user_id memory_redis (lit "here") 5 (lit "u1") [])
            (get_node_by_user_id memory_redis (lit "here") 10 (lit "u1") []))
    × (get_node_by_device_id memory_redis (lit "here") 10 (lit "u1") s'
        ≡ route_after
            (registers (lit "u1") (lit "d1"))
            (lit "here")
            5
            10
            (names_device (registers (lit "u1") (lit "d1")) (lit "u1"))
            (get_node_by_device_id memory_redis (lit "here") 5 (lit "u1") [])
            (get_node_by_device_id memory_redis (lit "here") 10 (lit "u1") []))
dist_step-routes_example =
    dist_step-routes memory_redis (lit "here") (registers (lit "u1") (lit "d1")) 5 10 [] (lit "u1")
      (omega arith)

store_all-is_lost_example :
    let t' = (store_all memory_db) (messages 0 ∷ (messages 1 ∷ [])) one_row in
    (fetch memory_db true (lit "u1") 3 t' ≡ fetch memory_db true (lit "u1") 3 one_row)
    × All (λ m. m ≡ no_message) ((fetched memory_db) (lit "u1") 3 t')
    × (delete memory_db true (lit "message1") t' ≡ (t', false))
    × (count memory_db true (lit "u1") t' ≡ count memory_db true (lit "u1") one_row)
unfolding str_eq
store_all-is_lost_example =
    store_all-is_lost memory_db (messages 0 ∷ (messages 1 ∷ [])) (lit "u1") (lit "message1") 3
      one_row refl

consume-loses_refused_example :
    let (w', o') =
      (consume memory_offsets every_commit) 4
        (decoded other_domain ∷ decoded (messages 0) ∷ [])
        online
        0 in
    (waiting_down other_domain.biz_code w' ≡ waiting_down other_domain.biz_code online)
    × ((memory_offsets.resumes_at) o' ≡ 4 + 2)
    × (4
        < (memory_offsets.resumes_at)
            ((consume memory_offsets every_commit) 4
              (decoded other_domain ∷ decoded (messages 0) ∷ (decoded (messages 1) ∷ []))
              online
              0).1)
unfolding str_eq lookup
consume-loses_refused_example =
    consume-loses_refused memory_offsets every_commit 4 other_domain (messages 0)
      (decoded (messages 1) ∷ []) online 0 refl refl refl

send_each-same_ids_example :
    (send_each plain_event none all_written) 0 (messages 0 ∷ (messages 1 ∷ [])) kafka
    ≡ (send_each plain_event none all_written) 0 (without_body ∷ (messages 1 ∷ [])) kafka
send_each-same_ids_example =
    send_each-same_ids plain_event none all_written 0 (messages 0 ∷ (messages 1 ∷ []))
      (without_body ∷ (messages 1 ∷ [])) kafka refl

generate_token-verified_example :
    let (m', result) = ask_service 0 (some (lit "token")) (lit "u1") (lit "d1") (lit "app") [] in
    let refused = str_eq (lit "d1") [] || str_eq (lit "u1") [] in
    (result ≡ (
      if refused
      then service_error
      else obtained (
          some (record {
            token = (lit "token");
            gateway = lit "127.0.0.1:8089";
            protocol = lit "tcp";
            heartbeat = 30;
            expire_at = (0 + token_life) / 1000;
          }))))
    × (verify 5 m' (lit "token") ≡ (
        if refused
        then verify 5 [] (lit "token")
        else if str_eq (lit "token") (lit "token")
        then if ltb (0 + token_life) 5 then none else some ((lit "u1"), (lit "d1"))
        else verify 5 [] (lit "token")))
unfolding str_eq
generate_token-verified_example =
    generate_token-verified 0 5 (lit "token") (lit "u1") (lit "d1") (lit "app") (lit "token") []
      refl

get_or_create-shares_id_example :
    let create = get_or_create (compute_session_id hash) in
    let (g1, w1, s1, new1) =
      create
        ((lit "a") ++ (lit ":" ++ (lit "b")))
        (lit "c")
        (lit "app")
        (lit "phone")
        (lit "im")
        (registry_of 0)
        nobody in
    let (g2, w2, s2, new2) =
      create
        (lit "a")
        ((lit "b") ++ (lit ":" ++ (lit "c")))
        (lit "app")
        (lit "phone")
        (lit "im")
        g1
        w1 in
    (new2 ≡ true)
    × (s2 ≡ s1 + 1)
    × ((w2.sessions s2).session_id ≡ (w2.sessions s1).session_id)
    × (lookup (w2.sessions s1).session_id g2.by_id ≡ some s2)
unfolding str_eq lookup
get_or_create-shares_id_example =
    get_or_create-shares_id hash (lit "a") (lit "b") (lit "c") (lit "app") (lit "phone") (lit "im")
      (registry_of 0) nobody refl refl
