-- ===== src/Tests/Gateways.antt =====
-- A gateway that starts, and a phone that logs in.
use long_gw.Tests.Data.{tiny, message, online, plain_error, joined}
use long_gw.Base.{
  ℕ, ◌≡◌, refl, [], ◌∷◌, true, false, not, ◌&&◌, none, some, Str, str_eq, arith, is_some, Bytes,
  ◌++◌, lit,
}
use long_gw.Base.Dict.{lookup, Dict, insert}
use long_gw.World.{World, Message, active, done, handshake}
use long_gw.Factory.{Gateway, Outside, AuthInfo, do_handshake, create_and_run, serving}
use long_gw.Worker.{add_pool}
use long_gw.System.Sound.{Sound}
use long_gw.System.Idle.{Idle}
use long_gw.App.{
  Config, Backends, new_redis, new_db, new_service_context, register_worker_pools, empty_world,
  new_gateway_server, panics, run, new_registry,
}
use long_gw.App.Start.{can_start, is_serving, is_panic, run-serves}
use long_gw.System.{connects, perform, here, then_event}
use long_gw.System.Runs.{reachable-Sound, reachable-Idle}
use long_gw.Connection.{is_active, write_next, conn_submit}
use long_gw.Router.{new_local_router}
use long_gw.Session.{target_of}
use long_gw.Factory.Serving.{first_world, create_and_run-serves}
use long_gw.Auth.{TokenInfo, verify, handle_validate, handle_token, clean_expired_tokens}
use long_gw.Factory.Tokens.{IsIssued, do_handshake-IsIssued}
use long_gw.Auth.Tokens.{clean_expired_tokens-unseen}
use long_gw.Connection.Loops.{Loops, fails}
use long_gw.Factory.Turns.{
  run_is_over, take_turns, without_reading, take_turns-waits, reads, sends, meanwhile,
}

abbrev plain_failure : Str → Bytes
plain_failure text = text

abbrev backends : Backends
backends = record { answers_ping = λ addr. true; opens = λ dsn. true }

abbrev config : Config
config = record { redis_addr = []; dsn = lit "db"; workers = (lit "im", lit "kafka") ∷ [] }

abbrev booted : Gateway
booted = record {
  registry = new_registry;
  conns = [];
  world = (register_worker_pools ((lit "im", lit "kafka") ∷ []) (empty_world 0)).0;
}

-- The one token that was issued.
abbrev tokens : Dict TokenInfo
tokens = (handle_token 0 (some (lit "token")) (lit "u1") (lit "d1") (lit "app") []).0

abbrev hello : Message
hello = message handshake none

abbrev untraced : Message
untraced = record (message handshake none) { trace = none }

abbrev phone_with : Message → Outside
phone_with msg = record {
  deadline_set = true;
  raw = some tiny;
  decode_frame = λ b. some msg;
  parse_request =
      λ b. some (record { token = lit "token"; app_id = lit "app"; device_type = lit "phone" });
  verify = verify 5 tokens;
  new_id = lit "c1";
  answer_payload = λ id n. [];
  can_write = λ m. true;
}

abbrev phone : Outside
phone = phone_with hello

-- It sends no trace context.
abbrev careless_phone : Outside
careless_phone = phone_with untraced

abbrev identity : AuthInfo
identity = record {
  user_id = lit "u1";
  device_id = lit "d1";
  app_id = lit "app";
  device_type = lit "phone";
  biz_code = lit "im";
  conn_id = lit "c1";
}

abbrev logged_in : Gateway
logged_in = perform joined plain_error none plain_failure (connects phone 0) booted

-- Another goroutine submits message 0 to the connection.
abbrev conn_submits : ℕ → World → World
conn_submits m w = (conn_submit 0 m w).1

abbrev both_loops : Loops
both_loops = record {
  reading = true;
  writing = true;
  cancelled = false;
  last_ping_at = 0;
  last_recv_seq = 0;
}

run-serves_example :
    (is_serving (run (some config) true backends 0) ≡ (can_start backends config && true))
    × (is_panic (run (some config) true backends 0) ≡ not (can_start backends config))
    × (run none true backends 0 ≡ panics)
run-serves_example = run-serves backends config 0 true

reachable-Sound_example : Sound logged_in.world
unfolding new_gateway_server new_service_context new_redis new_db register_worker_pools str_eq
reachable-Sound_example =
    reachable-Sound joined plain_error none plain_failure backends config 0 booted logged_in refl
      (then_event booted booted (connects phone 0) (here booted))

reachable-Idle_example : Idle logged_in.world
unfolding new_gateway_server new_service_context new_redis new_db register_worker_pools str_eq
reachable-Idle_example =
    reachable-Idle joined plain_error none plain_failure backends config 0 booted logged_in refl
      (then_event booted booted (connects phone 0) (here booted))

create_and_run-serves_example :
    let (answer, after) = create_and_run joined phone 0 booted in
    let s = booted.registry.fresh in
    ((n : ℕ) × (answer ≡ serving s n))
    × ((after.world.sessions s).state ≡ active)
    × ((after.world.sessions s).conn ≡ some 0)
    × (is_active (after.world.conns 0) ≡ true)
    × (lookup identity.conn_id after.conns ≡ some 0)
    × (lookup identity.device_id after.world.router.device_conn
        ≡ some (target_of s (first_world joined identity 0 booted)))
unfolding do_handshake verify handle_validate handle_token lookup insert str_eq
    register_worker_pools add_pool new_local_router
create_and_run-serves_example =
    create_and_run-serves joined phone 0 booted identity hello (lit "t1") refl refl ((λ m. refl))
      refl refl refl

do_handshake-IsIssued_example : IsIssued 5 tokens identity.user_id identity.device_id
unfolding do_handshake verify handle_validate handle_token lookup insert str_eq
do_handshake-IsIssued_example = do_handshake-IsIssued 5 tokens phone identity hello refl refl

clean_expired_tokens-unseen_example :
    verify 9 (clean_expired_tokens 5 tokens) (lit "token") ≡ verify 9 tokens (lit "token")
unfolding handle_token lookup insert str_eq
clean_expired_tokens-unseen_example =
    clean_expired_tokens-unseen 5 9 (lit "token") tokens ((refl, tt)) (omega arith)

take_turns-waits_example :
    let l' : Loops = record both_loops { reading = false } in
    let w' =
      (without_reading plain_error none 0 0)
        (sends false true ∷ (meanwhile (conn_submits 0) ∷ []))
        online in
    let (w'', m) = write_next 0 w' in
    ((take_turns plain_error none 0 0)
        (reads 5 5 fails ∷ (sends false true ∷ (meanwhile (conn_submits 0) ∷ [])))
        both_loops
        online
      ≡ done l' w')
    × (run_is_over l' ≡ false)
    × ((take_turns plain_error none 0 0)
          (reads 5 5 fails
            ∷ ((sends false true ∷ (meanwhile (conn_submits 0) ∷ [])) ++ (sends false false ∷ [])))
          both_loops
          online
        ≡ done (record l' { writing = not (is_some m) }) w'')
    × (run_is_over (record l' { writing = not (is_some m) }) ≡ is_some m)
take_turns-waits_example =
    take_turns-waits plain_error none 0 0 (sends false true ∷ (meanwhile (conn_submits 0) ∷ [])) 5 5
      false both_loops online refl refl refl refl
