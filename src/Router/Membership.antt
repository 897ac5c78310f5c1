-- ===== src/Router/Membership.antt =====
-- The local router as a set of memberships: what every operation of local.go does to them.
use long_gw.Base.{
  ◌≡◌, ap, List, [], ◌∷◌, ◌&&◌, Option, none, some, Str, str_eq, str_eq_iff, if◌then◌else◌, arith,
  fun_ext, ◌∙◌,
}
use long_gw.Base.Dict.{Dict, lookup, delete, lookup-insert, lookup-delete}
use long_gw.Router.{
  Target, Index, LocalRouter, add_member, drop_member, purge_member, new_local_router,
  register_session, unregister_session, join_room, leave_room, subscribe, unsubscribe,
  unregister_all,
}
use long_gw.Router.Index.{
  view, view-add_member, view-drop_member, view-purge_member, IsUnique, IsUnique-add_member,
  IsUnique-drop_member, IsUnique-purge_member,
}

-- What the router promises: for each user and device, room and session, topic and session, at most
-- one session, and for each device the last session registered on it.
pub record Membership : Type 0 where
  pub user : Str → Str → Option Target
  pub device : Str → Option Target
  pub room : Str → Str → Option Target
  pub topic : Str → Str → Option Target

abbrev pub membership : LocalRouter → Membership
membership r = record {
  user = view r.user_conns;
  device = λ d. lookup d r.device_conn;
  room = view r.rooms;
  topic = view r.topics;
}

pub data Call : Type 0 where
  registers unregisters_all : Target → Call
  unregisters : Str → Str → Call
  joins leaves subscribes unsubscribes : Str → Target → Call

-- The calls as the gateway makes them: a session registers under its own user and device.
unfoldable pub step : Call → LocalRouter → LocalRouter
step (registers t) r = (register_session t.user_id t.device_id t r).0
step (unregisters_all t) r = unregister_all t r
step (unregisters u d) r = unregister_session u d r
step (joins k t) r = join_room k t r
step (leaves k t) r = leave_room k t r
step (subscribes k t) r = subscribe k t r
step (unsubscribes k t) r = unsubscribe k t r

abbrev pub put : Str → Str → Option Target → (Str → Str → Option Target) → Str → Str → Option Target
put k id v f k' id' = if str_eq k k' && str_eq id id' then v else f k' id'

-- The same calls on memberships: one entry is set or cleared, or all of one session's in rooms and
-- topics.
abbrev pub spec_step : Call → Membership → Membership
spec_step (registers t) s = record s {
  user = put t.user_id t.device_id (some t) s.user;
  device = λ d. if str_eq t.device_id d then some t else s.device d;
}
spec_step (unregisters_all t) s = record s {
  room = λ k id. if str_eq t.session_id id then none else s.room k id;
  topic = λ k id. if str_eq t.session_id id then none else s.topic k id;
}
spec_step (unregisters u d) s = record s {
  user = put u d none s.user;
  device = λ e. if str_eq d e then none else s.device e;
}
spec_step (joins k t) s = record s { room = put k t.session_id (some t) s.room }
spec_step (leaves k t) s = record s { room = put k t.session_id none s.room }
spec_step (subscribes k t) s = record s { topic = put k t.session_id (some t) s.topic }
spec_step (unsubscribes k t) s = record s { topic = put k t.session_id none s.topic }

add_member-put :
    (k id : Str) (t : Target) (idx : Index)
    → view (add_member k id t idx) ≡ put k id (some t) (view idx)
add_member-put k id t idx = fun_ext λ k'. fun_ext λ id'. view-add_member k id t idx k' id'

drop_member-put :
    (k id : Str) (idx : Index) → view (drop_member k id idx) ≡ put k id none (view idx)
drop_member-put k id idx = fun_ext λ k'. fun_ext λ id'. view-drop_member k id idx k' id'

purge_member-view :
    (id : Str) (idx : Index)
    → view (purge_member id idx) ≡ λ k' id'. if str_eq id id' then none else view idx k' id'
purge_member-view id idx = fun_ext λ k'. fun_ext λ id'. view-purge_member id idx k' id'

-- Each call of the router changes the memberships, by user, device, room and topic, as its
-- specification says, and nothing else.
pub step-spec_step :
    (c : Call) (r : LocalRouter) → membership (step c r) ≡ spec_step c (membership r)
unfolding step register_session unregister_session join_room leave_room subscribe unsubscribe
    unregister_all
step-spec_step (registers t) r = λ i. record {
  user = add_member-put t.user_id t.device_id t r.user_conns i;
  device = λ d. lookup-insert t.device_id d t r.device_conn i;
  room = view r.rooms;
  topic = view r.topics;
}
step-spec_step (unregisters_all t) r = λ i. record {
  user = view r.user_conns;
  device = λ d. lookup d r.device_conn;
  room = purge_member-view t.session_id r.rooms i;
  topic = purge_member-view t.session_id r.topics i;
}
step-spec_step (unregisters u d) r = λ i. record {
  user = drop_member-put u d r.user_conns i;
  device = λ e. lookup-delete d e r.device_conn i;
  room = view r.rooms;
  topic = view r.topics;
}
step-spec_step (joins k t) r =
    ap (λ f. record (membership r) { room = f }) (add_member-put k t.session_id t r.rooms)
step-spec_step (leaves k t) r =
    ap (λ f. record (membership r) { room = f }) (drop_member-put k t.session_id r.rooms)
step-spec_step (subscribes k t) r =
    ap (λ f. record (membership r) { topic = f }) (add_member-put k t.session_id t r.topics)
step-spec_step (unsubscribes k t) r =
    ap (λ f. record (membership r) { topic = f }) (drop_member-put k t.session_id r.topics)

-- The maps of the router hold each key once, which Go's maps do by themselves.
pub record IsWellFormed (r : LocalRouter) : Type 0 where
  pub users : IsUnique r.user_conns
  pub in_rooms : IsUnique r.rooms
  pub in_topics : IsUnique r.topics

pub step-IsWellFormed : (c : Call) (r : LocalRouter) → IsWellFormed r → IsWellFormed (step c r)
unfolding step register_session unregister_session join_room leave_room subscribe unsubscribe
    unregister_all
step-IsWellFormed (registers t) r w = record {
  users = IsUnique-add_member t.user_id t.device_id t r.user_conns w.users;
  in_rooms = w.in_rooms;
  in_topics = w.in_topics;
}
step-IsWellFormed (unregisters_all t) r w = record {
  users = w.users;
  in_rooms = IsUnique-purge_member t.session_id r.rooms w.in_rooms;
  in_topics = IsUnique-purge_member t.session_id r.topics w.in_topics;
}
step-IsWellFormed (unregisters u d) r w = record {
  users = IsUnique-drop_member u d r.user_conns w.users;
  in_rooms = w.in_rooms;
  in_topics = w.in_topics;
}
step-IsWellFormed (joins k t) r w = record {
  users = w.users;
  in_rooms = IsUnique-add_member k t.session_id t r.rooms w.in_rooms;
  in_topics = w.in_topics;
}
step-IsWellFormed (leaves k t) r w = record {
  users = w.users;
  in_rooms = IsUnique-drop_member k t.session_id r.rooms w.in_rooms;
  in_topics = w.in_topics;
}
step-IsWellFormed (subscribes k t) r w = record {
  users = w.users;
  in_rooms = w.in_rooms;
  in_topics = IsUnique-add_member k t.session_id t r.topics w.in_topics;
}
step-IsWellFormed (unsubscribes k t) r w = record {
  users = w.users;
  in_rooms = w.in_rooms;
  in_topics = IsUnique-drop_member k t.session_id r.topics w.in_topics;
}

unfoldable pub run : List Call → LocalRouter → LocalRouter
run [] r = r
run (c ∷ cs) r = run cs (step c r)

run-IsWellFormed : (cs : List Call) (r : LocalRouter) → IsWellFormed r → IsWellFormed (run cs r)
unfolding run
run-IsWellFormed [] r w = w
run-IsWellFormed (c ∷ cs) r w = run-IsWellFormed cs (step c r) (step-IsWellFormed c r w)

-- After any calls on a new router its maps hold each key once.
pub run-new-IsWellFormed : (cs : List Call) → IsWellFormed (run cs new_local_router)
unfolding new_local_router
run-new-IsWellFormed cs =
    run-IsWellFormed cs _ (record { users = tt; in_rooms = tt; in_topics = tt })

lookup-purge_member :
    (k id : Str) (idx : Index) (m : Dict Target)
    → lookup k idx ≡ some m
    → lookup k (purge_member id idx) ≡ some (delete id m)
unfolding lookup purge_member
lookup-purge_member k id [] m h = absurd (cc)
lookup-purge_member k id ((j, n) ∷ idx) m h = ground (arith, lookup-purge_member k id idx m)

-- A room whose last member goes is deleted by `LeaveRoom` and stays behind, empty, after
-- `UnregisterAll`.
pub unregister_all-leaves_empty :
    (k : Str) (t : Target) (r : LocalRouter) (m : Dict Target)
    → lookup k r.rooms ≡ some m
    → delete t.session_id m ≡ []
    → (lookup k (leave_room k t r).rooms ≡ none) × (lookup k (unregister_all t r).rooms ≡ some [])
unfolding leave_room unregister_all drop_member
unregister_all-leaves_empty k t r m h e = (
  ground (arith, lookup-delete k k r.rooms, str_eq_iff k k),
  lookup-purge_member k t.session_id r.rooms m h ∙ ap some e,
)
