-- ===== src/Storage.antt =====
-- The offline store, gateway/internal/worker/storage/mysql.go with model/offline_message.go. GORM and
-- MySQL are outside.
pub mod Lost
use long_gw.Base.{
  ℕ, ◌+◌, ◌≡◌, List, [], Bool, true, false, not, ◌&&◌, Option, none, some, Str, Bytes, str_eq, ltb,
  is_some, map, if◌then◌else◌,
}
use long_gw.World.{Message}
use long_gw.App.{no_message}

-- `OfflineMessageModel`
pub record OfflineMessageModel : Type 0 where
  pub id : ℕ
  pub msg_id : Str
  pub user_id : Str
  pub device_id : Str
  pub from_user_id : Str
  pub msg_type : ℕ
  pub room_type : ℕ
  pub payload : Bytes
  pub seq_id : ℕ
  pub created_at : ℕ
  pub delivered_at : Option ℕ

-- `&model.OfflineMessageModel{}`
abbrev pub zero_model : OfflineMessageModel
zero_model = record {
  id = 0;
  msg_id = [];
  user_id = [];
  device_id = [];
  from_user_id = [];
  msg_type = 0;
  room_type = 0;
  payload = [];
  seq_id = 0;
  created_at = 0;
  delivered_at = none;
}

-- What the store uses of the database: `Create`, which may refuse a row, as MySQL does where a column that
-- is NOT NULL is given no value; `Find` of a user's rows above a sequence number, in its
-- order; `Delete` of a model, which names its row by the primary key and is refused without one;
-- `Update` of a delivery time; and `Count` of a user's rows that are not delivered.
pub record Db : Type 1 where
  pub Tables : Type 0
  pub create : OfflineMessageModel → Tables → Tables × Bool
  pub find : Str → ℕ → Tables → List OfflineMessageModel
  pub delete_model : OfflineMessageModel → Tables → Tables × Bool
  pub update_delivered : Str → ℕ → Tables → Tables
  pub count_undelivered : Str → Tables → ℕ
  pub find-create_other :
      (row : OfflineMessageModel) (user_id : Str) (after : ℕ) (t : Tables)
      → str_eq row.user_id user_id && ltb after row.seq_id ≡ false
      → find user_id after (create row t).0 ≡ find user_id after t
  pub count-create_other :
      (row : OfflineMessageModel) (user_id : Str) (t : Tables)
      → str_eq row.user_id user_id ≡ false
      → count_undelivered user_id (create row t).0 ≡ count_undelivered user_id t
  pub delete_without_key :
      (row : OfflineMessageModel) (t : Tables) → row.id ≡ 0 → delete_model row t ≡ (t, false)

-- Each call is told whether the database answers it.
module _ (db : Db) where
  open db use {Tables, create, find, delete_model, update_delivered, count_undelivered}

  -- `Store`: the tables, and whether there was no error. The model is created as it is.
  unfoldable pub store : Bool → Message → Tables → Tables × Bool
  store answers msg t = if answers then create zero_model t else (t, false)

  -- `Fetch`: an error, or as many messages as there are rows.
  unfoldable pub fetch : Bool → Str → ℕ → Tables → Option (List Message)
  fetch answers user_id after_seq t =
      if answers then some (map (λ m. no_message) (find user_id after_seq t)) else none

  -- `Delete`
  unfoldable pub delete : Bool → Str → Tables → Tables × Bool
  delete answers msg_id t =
      if answers then delete_model (record zero_model { msg_id = msg_id }) t else (t, false)

  -- `MarkDelivered`
  unfoldable pub mark_delivered : Bool → Str → ℕ → Tables → Tables × Bool
  mark_delivered answers msg_id now t =
      if answers then (update_delivered msg_id now t, true) else (t, false)

  -- `Count`
  unfoldable pub count : Bool → Str → Tables → Option ℕ
  count answers user_id t = if answers then some (count_undelivered user_id t) else none
