-- ===== src/Router/Distributed/Leases.antt =====
-- What each call of the distributed router does to the routes of all users and devices.
use long_gw.Base.{
  ℕ, ◌+◌, ◌≤◌, ◌≡◌, refl, Bool, true, false, ◌&&◌, ◌||◌, ◌∙◌, Option, none, some, Str, str_eq,
  str_eq_refl, ltb, is_some, if◌then◌else◌, arith,
}
use long_gw.Router.Distributed.{
  Redis, user_key, device_key, nodes_key, redis_key_expire_time, exec, register_user, refresh,
  unregister_user, get_node_by_user_id, get_node_by_device_id,
}

pub data DistCall : Type 0 where
  registers refreshes unregisters : Str → Str → DistCall

-- The route of a name, read at a later time, after a call that names `named`, from the routes that were
-- there at both times.
abbrev pub route_after : DistCall → Str → ℕ → ℕ → Bool → Option Str → Option Str → Option Str
route_after (registers u d) addr now later named here there =
    if named then if ltb later (now + redis_key_expire_time) then some addr else none else there
route_after (refreshes u d) addr now later named here there =
    if named && is_some here
    then if ltb later (now + redis_key_expire_time) then here else none
    else there
route_after (unregisters u d) addr now later named here there = if named then none else there

abbrev pub names_user : DistCall → Str → Bool
names_user (registers u d) x = str_eq u x
names_user (refreshes u d) x = str_eq u x
names_user (unregisters u d) x = str_eq u x

abbrev pub names_device : DistCall → Str → Bool
names_device (registers u d) x = str_eq d x
names_device (refreshes u d) x = str_eq d x
names_device (unregisters u d) x = str_eq d x

-- No key is another's: a user's, a device's and the set of gateways.
keys-apart :
    (a b : Str)
    → (str_eq (user_key a) (user_key b) ≡ str_eq a b)
      × (str_eq (device_key a) (device_key b) ≡ str_eq a b)
      × (str_eq (user_key a) (device_key b) ≡ false)
      × (str_eq (device_key a) (user_key b) ≡ false)
      × (str_eq nodes_key (user_key b) ≡ false)
      × (str_eq nodes_key (device_key b) ≡ false)
unfolding str_eq
keys-apart a b = (refl, refl, refl, refl, refl, refl)

module _ (redis : Redis) (gateway_addr : Str) where
  open redis use {Store, get, get-set, get-expire, get-del, get-sadd, set, expire, del, sadd}

  unfoldable pub dist_step : DistCall → Option ℕ → ℕ → Store → Store × Bool
  dist_step (registers u d) broken now = register_user redis gateway_addr broken now u d
  dist_step (refreshes u d) broken now = refresh redis gateway_addr broken now u d
  dist_step (unregisters u d) broken now = unregister_user redis gateway_addr broken u d

  set_both :
      (now later : ℕ) (u d j : Str) (s : Store)
      → now ≤ later
      → get later j (
          set now
            (device_key d)
            gateway_addr
            redis_key_expire_time
            (set now (user_key u) gateway_addr redis_key_expire_time s))
        ≡ (if str_eq (user_key u) j || str_eq (device_key d) j
            then if ltb later (now + redis_key_expire_time) then some gateway_addr else none
            else get later j s)
  set_both now later u d j s h =
      let s1 = set now (user_key u) gateway_addr redis_key_expire_time s in
      ground (
        arith,
        get-set now later (device_key d) gateway_addr redis_key_expire_time j s1 h,
        get-set now later (user_key u) gateway_addr redis_key_expire_time j s h,
      )

  expire_both :
      (now later : ℕ) (u d j : Str) (s : Store)
      → now ≤ later
      → str_eq (user_key u) j && str_eq (device_key d) j ≡ false
      → get later j (
          expire now
            (device_key d)
            redis_key_expire_time
            (expire now (user_key u) redis_key_expire_time s))
        ≡ (if (str_eq (user_key u) j || str_eq (device_key d) j) && is_some (get now j s)
            then if ltb later (now + redis_key_expire_time) then get now j s else none
            else get later j s)
  expire_both now later u d j s h one =
      let s1 = expire now (user_key u) redis_key_expire_time s in
      ground (
        arith,
        one,
        get-expire now later (device_key d) redis_key_expire_time j s1 h,
        get-expire now later (user_key u) redis_key_expire_time j s h,
        get-expire now now (user_key u) redis_key_expire_time j s (omega arith),
      )

  del_both :
      (later : ℕ) (u d j : Str) (s : Store)
      → get later j (del (device_key d) (del (user_key u) s))
        ≡ (if str_eq (user_key u) j || str_eq (device_key d) j then none else get later j s)
  del_both later u d j s =
      ground
        (arith, get-del later (device_key d) j (del (user_key u) s), get-del later (user_key u) j s)

  -- Where Redis answers: registering gives the user and the device this gateway until their time to live
  -- is over, refreshing gives the routes that they have a new time to live, unregistering takes both
  -- routes away, and no call moves the route of another user or device.
  pub dist_step-routes :
      (c : DistCall) (now later : ℕ) (s : Store) (x : Str)
      → now ≤ later
      → let (s', ok) = dist_step c none now s in
        (ok ≡ true)
        × (get_node_by_user_id redis gateway_addr later x s'
            ≡ route_after c gateway_addr now later
                (names_user c x)
                (get_node_by_user_id redis gateway_addr now x s)
                (get_node_by_user_id redis gateway_addr later x s))
        × (get_node_by_device_id redis gateway_addr later x s'
            ≡ route_after c gateway_addr now later
                (names_device c x)
                (get_node_by_device_id redis gateway_addr now x s)
                (get_node_by_device_id redis gateway_addr later x s))
  unfolding dist_step register_user refresh unregister_user exec get_node_by_user_id
      get_node_by_device_id
  dist_step-routes (registers u d) now later s x h =
      let s' =
        set now (device_key d) gateway_addr redis_key_expire_time
          (set now (user_key u) gateway_addr redis_key_expire_time s) in
      let ku = keys-apart u x in
      let kd = keys-apart d x in
      (
        refl,
        get-sadd later nodes_key gateway_addr (user_key x) s' ku.4
            ∙ (set_both now later u d (user_key x) s h ∙ ground (arith, ku, kd)),
        get-sadd later nodes_key gateway_addr (device_key x) s' ku.5
            ∙ (set_both now later u d (device_key x) s h ∙ ground (arith, ku, kd)),
      )
  dist_step-routes (refreshes u d) now later s x h =
      let ku = keys-apart u x in
      let kd = keys-apart d x in
      (
        refl,
        expire_both now later u d (user_key x) s h (ground (arith, ku, kd))
            ∙ ground (arith, ku, kd),
        expire_both now later u d (device_key x) s h (ground (arith, ku, kd))
            ∙ ground (arith, ku, kd),
      )
  dist_step-routes (unregisters u d) now later s x h =
      let ku = keys-apart u x in
      let kd = keys-apart d x in
      (
        refl,
        del_both later u d (user_key x) s ∙ ground (arith, ku, kd),
        del_both later u d (device_key x) s ∙ ground (arith, ku, kd),
      )

  -- Two devices of a user log in on this gateway, and the second one's connection closes: the route of
  -- the user is gone, while the route of the first device, which is still connected, stays until its
  -- time to live is over, since nothing refreshes it.
  pub unregisters-forgets_user :
      (t1 t2 later : ℕ) (user phone tablet : Str) (s : Store)
      → t1 ≤ t2
      → t2 ≤ later
      → str_eq tablet phone ≡ false
      → let s1 = (dist_step (registers user phone) none t1 s).0 in
        let s2 = (dist_step (registers user tablet) none t2 s1).0 in
        let s3 = (dist_step (unregisters user tablet) none later s2).0 in
        (get_node_by_user_id redis gateway_addr later user s3 ≡ none)
        × (get_node_by_device_id redis gateway_addr later phone s3
            ≡ (if ltb later (t1 + redis_key_expire_time) then some gateway_addr else none))
  unregisters-forgets_user t1 t2 later user phone tablet s a b apart =
      let s1 = (dist_step (registers user phone) none t1 s).0 in
      let s2 = (dist_step (registers user tablet) none t2 s1).0 in
      let f = dist_step-routes (registers user phone) t1 later s phone (omega arith) in
      let g = dist_step-routes (registers user tablet) t2 later s1 phone b in
      let u = dist_step-routes (unregisters user tablet) later later s2 user (omega arith) in
      let d = dist_step-routes (unregisters user tablet) later later s2 phone (omega arith) in
      (
        ground (arith, u.1, str_eq_refl user),
        ground (arith, d.2, g.2, f.2, apart, str_eq_refl phone),
      )
