-- ===== src/Storage/Lost.antt =====
-- What the offline store makes of the messages that it is given.
use long_gw.Base.{
  ℕ, ◌≡◌, ◌∙◌, ap, refl, List, [], ◌∷◌, true, false, none, some, Str, str_eq, map, arith, All,
}
use long_gw.World.{Message}
use long_gw.App.{no_message}
use long_gw.Storage.{Db, OfflineMessageModel, zero_model, store, fetch, delete, count}

All-no_message :
    (rows : List OfflineMessageModel) → All (λ m. m ≡ no_message) (map (λ r. no_message) rows)
All-no_message [] = tt
All-no_message (r ∷ rows) = (refl, All-no_message rows)

module _ (db : Db) where
  open db use {Tables, create, find, find-create_other, count-create_other, delete_without_key}

  abbrev pub store_all : List Message → Tables → Tables
  store_all [] t = t
  store_all (m ∷ ms) t = store_all ms (store db true m t).0

  -- What `Fetch` answers, if it does.
  abbrev pub fetched : Str → ℕ → Tables → List Message
  fetched user_id after_seq t = elim (fetch db true user_id after_seq t) [
    | none ↦ []
    | some ms ↦ ms
  ]

  -- However many messages are stored, and whether the database takes their rows or refuses them, a user
  -- with an id is given no more by `Fetch` than before, whatever
  -- it is given is an empty message, the messages that wait for it are as many as before, and `Delete` of
  -- any message is refused and leaves all rows.
  pub store_all-is_lost :
      (ms : List Message) (user_id msg_id : Str) (after_seq : ℕ) (t : Tables)
      → str_eq [] user_id ≡ false
      → let t' = store_all ms t in
        (fetch db true user_id after_seq t' ≡ fetch db true user_id after_seq t)
        × All (λ m. m ≡ no_message) (fetched user_id after_seq t')
        × (delete db true msg_id t' ≡ (t', false))
        × (count db true user_id t' ≡ count db true user_id t)
  unfolding store fetch delete count
  store_all-is_lost [] user_id msg_id after_seq t h =
      (refl, All-no_message (find user_id after_seq t), delete_without_key _ t refl, refl)
  store_all-is_lost (m ∷ ms) user_id msg_id after_seq t h =
      let ih = store_all-is_lost ms user_id msg_id after_seq (create zero_model t).0 h in
      (
        ih.0
            ∙ ap (λ (rows : List OfflineMessageModel). some (map (λ r. no_message) rows))
                (find-create_other zero_model user_id after_seq t (ground (arith, h))),
        ih.1,
        ih.2,
        ih.3 ∙ ap some (count-create_other zero_model user_id t h),
      )
