-- ===== src/Router/Distributed.antt =====
-- The routes between gateways, gateway/internal/router/distributed.go: which gateway a user and a
-- device are connected to. Redis is outside.
pub mod Leases
use long_gw.Base.{
  ℕ, ◌+◌, ◌≤◌, ◌≡◌, List, [], ◌∷◌, ◌++◌, Bool, true, false, ◌&&◌, Option, none, some, Str, lit,
  str_eq, ltb, is_some, take, if◌then◌else◌,
}

-- What the router uses of Redis. A string is read at a time; it is set with a time to live, and
-- `EXPIRE` gives a new one to a key that is there.
pub record Redis : Type 1 where
  pub Store : Type 0
  pub get : ℕ → Str → Store → Option Str
  pub set : ℕ → Str → Str → ℕ → Store → Store
  pub expire : ℕ → Str → ℕ → Store → Store
  pub del : Str → Store → Store
  pub sadd : Str → Str → Store → Store
  pub get-set :
      (now later : ℕ) (k v : Str) (ttl : ℕ) (j : Str) (s : Store)
      → now ≤ later
      → get later j (set now k v ttl s)
        ≡ (if str_eq k j then if ltb later (now + ttl) then some v else none else get later j s)
  pub get-expire :
      (now later : ℕ) (k : Str) (ttl : ℕ) (j : Str) (s : Store)
      → now ≤ later
      → get later j (expire now k ttl s) ≡ (
          if str_eq k j && is_some (get now j s)
          then if ltb later (now + ttl) then get now j s else none
          else get later j s)
  pub get-del :
      (now : ℕ) (k j : Str) (s : Store)
      → get now j (del k s) ≡ (if str_eq k j then none else get now j s)
  pub get-sadd :
      (now : ℕ) (k v j : Str) (s : Store)
      → str_eq k j ≡ false
      → get now j (sadd k v s) ≡ get now j s

-- The keys of consts.go, and `RedisKeyExpireTime` in milliseconds.
abbrev pub user_key : Str → Str
user_key user_id = lit "gateway:user:" ++ user_id

abbrev pub device_key : Str → Str
device_key device_id = lit "gateway:device:" ++ device_id

abbrev pub nodes_key : Str
nodes_key = lit "gateway:nodes"

abbrev pub redis_key_expire_time : ℕ
redis_key_expire_time = 120000

module _ (redis : Redis) (gateway_addr : Str) where
  open redis use {Store, get, set, expire, del, sadd}

  abbrev pub run_commands : List (Store → Store) → Store → Store
  run_commands [] s = s
  run_commands (c ∷ cs) s = run_commands cs (c s)

  -- `pipe.Exec`: where the connection breaks, after some of the commands have run, it answers an error.
  unfoldable pub exec : Option ℕ → List (Store → Store) → Store → Store × Bool
  exec none cs s = (run_commands cs s, true)
  exec (some n) cs s = (run_commands (take n cs) s, false)

  -- `RegisterUser`: the store, and whether there was no error.
  unfoldable pub register_user : Option ℕ → ℕ → Str → Str → Store → Store × Bool
  register_user broken now user_id device_id = exec broken (
      set now (user_key user_id) gateway_addr redis_key_expire_time
      ∷ set now (device_key device_id) gateway_addr redis_key_expire_time
      ∷ sadd nodes_key gateway_addr
      ∷ [])

  -- `Refresh`
  unfoldable pub refresh : Option ℕ → ℕ → Str → Str → Store → Store × Bool
  refresh broken now user_id device_id = exec broken (
      expire now (user_key user_id) redis_key_expire_time
      ∷ expire now (device_key device_id) redis_key_expire_time
      ∷ [])

  -- `UnregisterUser`
  unfoldable pub unregister_user : Option ℕ → Str → Str → Store → Store × Bool
  unregister_user broken user_id device_id =
      exec broken (del (user_key user_id) ∷ del (device_key device_id) ∷ [])

  -- `GetNodeByUserID` and `GetNodeByDeviceID`
  unfoldable pub get_node_by_user_id : ℕ → Str → Store → Option Str
  get_node_by_user_id now user_id = get now (user_key user_id)

  unfoldable pub get_node_by_device_id : ℕ → Str → Store → Option Str
  get_node_by_device_id now device_id = get now (device_key device_id)
