-- ===== src/Router.antt =====
-- The local router, gateway/internal/router/local.go: who a message for a key goes to.
pub mod Index
pub mod Membership
pub mod Resolve
pub mod Distributed
use long_gw.Base.{
  ℕ, ◌≡◌, List, [], ◌∷◌, ◌++◌, Bool, true, false, ◌&&◌, Option, none, some, Str, str_eq,
  if◌then◌else◌,
}
use long_gw.Base.Dict.{Dict, lookup, insert, delete, values}

-- A `SessionTarget`: a pointer to a session, with the identity that the session keeps for life.
pub record Target : Type 0 where
  pub ref : ℕ
  pub session_id : Str
  pub user_id : Str
  pub device_id : Str

-- A map of maps: key → (member → session).
abbrev pub Index : Type 0
Index = Dict (Dict Target)

pub record LocalRouter : Type 0 where
  pub user_conns : Index
  pub device_conn : Dict Target
  pub rooms : Index
  pub topics : Index

unfoldable pub new_local_router : LocalRouter
new_local_router = record { user_conns = []; device_conn = []; rooms = []; topics = [] }

-- `m[k]` of a nil or missing inner map reads as empty.
abbrev pub inner : Str → Index → Dict Target
inner k idx = elim (lookup k idx) [ none ↦ [] | some m ↦ m ]

-- `if m[k] == nil { m[k] = make(...) }; m[k][id] = sess`
unfoldable pub add_member : Str → Str → Target → Index → Index
add_member k id t idx = insert k (insert id t (inner k idx)) idx

abbrev pub is_empty {ℓ} : {A : Type ℓ} → List A → Bool
is_empty [] = true
is_empty (x ∷ xs) = false

-- `if m, ok := idx[k]; ok { delete(m, id); if len(m) == 0 { delete(idx, k) } }`
unfoldable pub drop_member : Str → Str → Index → Index
drop_member k id idx = elim (lookup k idx) [
  | none ↦ idx
  | some m ↦ if is_empty (delete id m) then delete k idx else insert k (delete id m) idx
]

-- `for _, v := range idx { for id := range v { if id == sid { delete(v, id) } } }`
unfoldable pub purge_member : Str → Index → Index
purge_member id [] = []
purge_member id ((k, m) ∷ idx) = (k, delete id m) ∷ purge_member id idx

-- The session to kick is the old one of the device, if its id is the same.
unfoldable pub register_session : Str → Str → Target → LocalRouter → LocalRouter × Option Target
register_session user_id device_id sess r = (
  record r {
    device_conn = insert sess.device_id sess r.device_conn;
    user_conns = add_member user_id sess.device_id sess r.user_conns;
  },
  elim (lookup sess.device_id r.device_conn) [
    | none ↦ none
    | some old ↦ if str_eq old.session_id sess.session_id then some old else none
  ],
)

unfoldable pub unregister_session : Str → Str → LocalRouter → LocalRouter
unregister_session user_id device_id r = record r {
  device_conn = delete device_id r.device_conn;
  user_conns = drop_member user_id device_id r.user_conns;
}

unfoldable pub join_room : Str → Target → LocalRouter → LocalRouter
join_room room_id sess r = record r { rooms = add_member room_id sess.session_id sess r.rooms }

unfoldable pub leave_room : Str → Target → LocalRouter → LocalRouter
leave_room room_id sess r = record r { rooms = drop_member room_id sess.session_id r.rooms }

unfoldable pub subscribe : Str → Target → LocalRouter → LocalRouter
subscribe topic sess r = record r { topics = add_member topic sess.session_id sess r.topics }

unfoldable pub unsubscribe : Str → Target → LocalRouter → LocalRouter
unsubscribe topic sess r = record r { topics = drop_member topic sess.session_id r.topics }

unfoldable pub unregister_all : Target → LocalRouter → LocalRouter
unregister_all sess r = record r {
  rooms = purge_member sess.session_id r.rooms;
  topics = purge_member sess.session_id r.topics;
}

-- The sessions that the three indexes hold under the key; `none` where there is none.
unfoldable pub targets : Str → LocalRouter → List Target
targets to r =
    values (inner to r.user_conns) ++ (values (inner to r.rooms) ++ values (inner to r.topics))

unfoldable pub resolve : Str → LocalRouter → Option (List Target)
unfolding targets
resolve to r = if is_empty (targets to r) then none else some (targets to r)
