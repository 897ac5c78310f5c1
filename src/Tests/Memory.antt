-- ===== src/Tests/Memory.antt =====
-- Redis, a database and a consumer group in memory.
use long_gw.Base.{
  ℕ, ◌+◌, ◌==◌, ◌≡◌, refl, List, [], ◌∷◌, Bool, true, false, not, ◌&&◌, Option, none, some, Str,
  str_eq, str_eq_iff, ltb, is_some, length, arith, if◌then◌else◌, Bool-cases, Option-cases, inl,
  inr,
}
use long_gw.Base.Dict.{Dict, lookup, insert, delete, lookup-insert, lookup-delete}
use long_gw.Router.Distributed.{Redis}
use long_gw.Storage.{Db, OfflineMessageModel}
use long_gw.Worker.Offsets.{GroupOffsets}

-- A key has its value and when it expires; the set of gateways is not kept.
abbrev pub read_at : ℕ → Str → Dict (Str × ℕ) → Option Str
read_at now k s = elim (lookup k s) [
  | none ↦ none
  | some (v, deadline) ↦ if ltb now deadline then some v else none
]

abbrev pub expire_at : ℕ → Str → ℕ → Dict (Str × ℕ) → Dict (Str × ℕ)
expire_at now k ttl s = elim (lookup k s) [
  | none ↦ s
  | some (v, deadline) ↦ if ltb now deadline then insert k (v, now + ttl) s else s
]

pub read_at-insert :
    (now later : ℕ) (k v : Str) (ttl : ℕ) (j : Str) (s : Dict (Str × ℕ))
    → read_at later j (insert k (v, now + ttl) s)
      ≡ (if str_eq k j then if ltb later (now + ttl) then some v else none else read_at later j s)
read_at-insert now later k v ttl j s = ground (arith, lookup-insert k j (v, now + ttl) s)

pub read_at-expire_at :
    (now later : ℕ) (k : Str) (ttl : ℕ) (j : Str) (s : Dict (Str × ℕ))
    → read_at later j (expire_at now k ttl s) ≡ (
        if str_eq k j && is_some (read_at now j s)
        then if ltb later (now + ttl) then read_at now j s else none
        else read_at later j s)
read_at-expire_at now later k ttl j s = elim (Option-cases (lookup k s)) [
  | inl n ↦ ground (arith, n, str_eq_iff k j)
  | inr ((v, d), n) ↦ elim (Bool-cases (ltb now d)) [
    | inl l ↦ ground (arith, n, l, str_eq_iff k j, lookup-insert k j (v, now + ttl) s)
    | inr l ↦ ground (arith, n, l, str_eq_iff k j)
  ]
]

pub read_at-delete :
    (now : ℕ) (k j : Str) (s : Dict (Str × ℕ))
    → read_at now j (delete k s) ≡ (if str_eq k j then none else read_at now j s)
read_at-delete now k j s = ground (arith, lookup-delete k j s)

abbrev pub memory_redis : Redis
memory_redis = record {
  Store = Dict (Str × ℕ);
  get = read_at;
  set = λ now k v ttl s. insert k (v, now + ttl) s;
  expire = expire_at;
  del = λ k s. delete k s;
  sadd = λ k v s. s;
  get-set = λ now later k v ttl j s h. read_at-insert now later k v ttl j s;
  get-expire = λ now later k ttl j s h. read_at-expire_at now later k ttl j s;
  get-del = read_at-delete;
  get-sadd = λ now k v j s h. refl;
}

-- The rows of a table, the newest first.
abbrev pub find_rows : Str → ℕ → List OfflineMessageModel → List OfflineMessageModel
find_rows user_id after [] = []
find_rows user_id after (r ∷ rows) =
    let rest = find_rows user_id after rows in
    if str_eq r.user_id user_id && ltb after r.seq_id then r ∷ rest else rest

abbrev pub count_rows : Str → List OfflineMessageModel → ℕ
count_rows user_id [] = 0
count_rows user_id (r ∷ rows) =
    count_rows user_id rows
    + (if str_eq r.user_id user_id && not (is_some r.delivered_at) then 1 else 0)

abbrev pub drop_row : ℕ → List OfflineMessageModel → List OfflineMessageModel
drop_row key [] = []
drop_row key (r ∷ rows) = let rest = drop_row key rows in if r.id == key then rest else r ∷ rest

abbrev pub mark_rows : Str → ℕ → List OfflineMessageModel → List OfflineMessageModel
mark_rows msg_id now [] = []
mark_rows msg_id now (r ∷ rows) =
    let rest = mark_rows msg_id now rows in
    if str_eq r.msg_id msg_id then record r { delivered_at = some now } ∷ rest else r ∷ rest

-- The payload column is NOT NULL; a payload of no bytes stands for none.
abbrev pub create_row :
    OfflineMessageModel → List OfflineMessageModel → List OfflineMessageModel × Bool
create_row r rows =
    if length r.payload == 0
    then (rows, false)
    else (record r { id = length rows + 1 } ∷ rows, true)

abbrev pub delete_row :
    OfflineMessageModel → List OfflineMessageModel → List OfflineMessageModel × Bool
delete_row r rows = if r.id == 0 then (rows, false) else (drop_row r.id rows, true)

pub find_rows-create_row :
    (row : OfflineMessageModel) (user_id : Str) (after : ℕ) (t : List OfflineMessageModel)
    → str_eq row.user_id user_id && ltb after row.seq_id ≡ false
    → find_rows user_id after (create_row row t).0 ≡ find_rows user_id after t
find_rows-create_row row u a t h = ground (arith, h)

pub count_rows-create_row :
    (row : OfflineMessageModel) (user_id : Str) (t : List OfflineMessageModel)
    → str_eq row.user_id user_id ≡ false
    → count_rows user_id (create_row row t).0 ≡ count_rows user_id t
count_rows-create_row row u t h = ground (arith, h)

pub delete_row-without_key :
    (row : OfflineMessageModel) (t : List OfflineMessageModel)
    → row.id ≡ 0
    → delete_row row t ≡ (t, false)
delete_row-without_key row t h = ground (arith, h)

abbrev pub memory_db : Db
memory_db = record {
  Tables = List OfflineMessageModel;
  create = create_row;
  find = find_rows;
  delete_model = delete_row;
  update_delivered = mark_rows;
  count_undelivered = count_rows;
  find-create_other = find_rows-create_row;
  count-create_other = count_rows-create_row;
  delete_without_key = delete_row-without_key;
}

abbrev pub memory_offsets : GroupOffsets
memory_offsets = record {
  Offsets = ℕ;
  commit = λ n o. n + 1;
  resumes_at = λ o. o;
  resumes_at-commit = λ n o. refl;
}
