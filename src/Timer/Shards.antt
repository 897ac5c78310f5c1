-- ===== src/Timer/Shards.antt =====
-- The sharded scheduler of shard.go: a key has one wheel, and a call for it touches no other.
use long_gw.Base.{
  ℕ, zero, suc, ◌<◌, ◌≡◌, refl, ap, ◌∙◌, List, [], ◌∷◌, true, false, some, Str, str_eq, str_eq_iff,
  ltb, ◌==◌, ◌&&◌, if◌then◌else◌, All, length, get_elem?, set, arith, Bool-cases, Option-cases, inl,
  inr, subst,
}
use long_gw.Timer.{
  Task, Item, Wheel, schedule, cancel, new_wheel, hash_key, shard, sharded_schedule, sharded_cancel,
}
use long_gw.Timer.Tracked.{IsTracked, live}
use long_gw.Timer.Live.{item_of, cancel-live, schedule-live, new_wheel-IsTracked}

-- The hash of a key is the index of a wheel, where there is one.
pub hash_key-lt : (key : Str) (n : ℕ) → 0 < n → hash_key key n < n
unfolding hash_key
hash_key-lt key n h = ground arith

length-set {ℓ} : {A : Type ℓ} (xs : List A) (i : ℕ) (v : A) → length (set xs i v) ≡ length xs
length-set [] i v = refl
length-set (x ∷ xs) zero v = refl
length-set (x ∷ xs) (suc i) v = omega (arith, length-set xs i v)

get_elem?-set {ℓ} :
    {A : Type ℓ} (xs : List A) (i j : ℕ) (v : A)
    → get_elem? (set xs i v) j ≡ (if i == j && ltb i (length xs) then some v else get_elem? xs j)
get_elem?-set [] i j v = ground arith
get_elem?-set (x ∷ xs) zero zero v = ground arith
get_elem?-set (x ∷ xs) zero (suc j) v = ground arith
get_elem?-set (x ∷ xs) (suc i) zero v = ground arith
get_elem?-set (x ∷ xs) (suc i) (suc j) v = ground (arith, get_elem?-set xs i j v)

All-set {ℓ κ} :
    {A : Type ℓ} (P : A → Type κ) (xs : List A) (i : ℕ) (v : A)
    → All P xs
    → P v
    → All P (set xs i v)
All-set P [] i v h p = h
All-set P (x ∷ xs) zero v h p = (p, h.1)
All-set P (x ∷ xs) (suc i) v h p = (h.0, All-set P xs i v h.1 p)

All-get_elem? {ℓ κ} :
    {A : Type ℓ} (P : A → Type κ) (xs : List A) (i : ℕ) (v : A)
    → All P xs
    → get_elem? xs i ≡ some v
    → P v
All-get_elem? P [] i v h e = cc
All-get_elem? P (x ∷ xs) zero v h e = let q : x ≡ v = cc in subst P q h.0
All-get_elem? P (x ∷ xs) (suc i) v h e = All-get_elem? P xs i v h.1 e

module _ {P : Type 0} where
  -- Every wheel of the scheduler is consistent.
  abbrev pub AreTracked : List (Wheel P) → Type 0
  AreTracked shards = All (λ w. IsTracked w) shards

  -- The live items of a key, in the wheel that the key has.
  abbrev pub live_in : Str → List (Wheel P) → List (Item P)
  live_in k shards = live k (shard k shards).queue

  shard-IsTracked :
      (k : Str) (shards : List (Wheel P)) → AreTracked shards → IsTracked (shard k shards)
  unfolding shard
  shard-IsTracked k shards t = elim (Option-cases (get_elem? shards (hash_key k (length shards)))) [
    | inl e ↦ rw (shard, e) (new_wheel-IsTracked P)
    | inr (w, e) ↦ rw (shard, e) (All-get_elem? (λ w. IsTracked w) shards _ w t e)
  ]

  -- A key's wheel after a write to the wheel of `k`.
  shard-set :
      (k j : Str) (v : Wheel P) (shards : List (Wheel P))
      → 0 < length shards
      → shard j (set shards (hash_key k (length shards)) v)
        ≡ (if hash_key k (length shards) == hash_key j (length shards) then v else shard j shards)
  unfolding shard
  shard-set k j v shards h =
      let n = length shards in
      ground (
        arith,
        length-set shards (hash_key k n) v,
        get_elem?-set shards (hash_key k n) (hash_key j n) v,
        hash_key-lt k n h,
      )

  live_in-nil : (k : Str) → live_in k [] ≡ []
  unfolding shard new_wheel
  live_in-nil k = refl

  shard-same :
      (k j : Str) (shards : List (Wheel P))
      → (hash_key k (length shards) == hash_key j (length shards)) ≡ true
      → shard k shards ≡ shard j shards
  unfolding shard
  shard-same k j shards q = ground arith

  -- A key with another wheel is another key.
  elsewhere :
      (k j : Str) (items : List (Item P)) (shards : List (Wheel P))
      → (hash_key k (length shards) == hash_key j (length shards)) ≡ false
      → live_in j shards ≡ (if str_eq k j then items else live_in j shards)
  elsewhere k j items shards q = ground (arith, str_eq_iff k j)

  -- A write to the wheel of `k` that changes the live items of `k` only.
  live_in-set :
      (k j : Str) (v : Wheel P) (items : List (Item P)) (shards : List (Wheel P))
      → 0 < length shards
      → live j v.queue ≡ (if str_eq k j then items else live j (shard k shards).queue)
      → live_in j (set shards (hash_key k (length shards)) v)
        ≡ (if str_eq k j then items else live_in j shards)
  live_in-set k j v items shards h e =
      let n = length shards in
      elim (Bool-cases (hash_key k n == hash_key j n)) [
        | inl q ↦
            rw (shard-set k j v shards h, q)
              (e
                ∙ ap (λ (w : Wheel P). if str_eq k j then items else live j w.queue)
                    (shard-same k j shards q))
        | inr q ↦ rw (shard-set k j v shards h, q) (elsewhere k j items shards q)
      ]

  -- Cancelling a key that is not empty, in a consistent scheduler, leaves no live item of it in its
  -- wheel, keeps the live items of every other key in theirs, and keeps the scheduler consistent.
  pub sharded_cancel-live :
      (key j : Str) (shards : List (Wheel P))
      → AreTracked shards
      → str_eq key [] ≡ false
      → let after = (sharded_cancel key shards).0 in
        AreTracked after × (live_in j after ≡ (if str_eq key j then [] else live_in j shards))
  unfolding sharded_cancel
  sharded_cancel-live key j [] t n = ground (arith, live_in-nil j)
  sharded_cancel-live key j (w ∷ ws) t n =
      let shards = w ∷ ws in
      let v = (cancel key (shard key shards)).0 in
      let r = cancel-live key j (shard key shards) (shard-IsTracked key shards t) n in
      (
        All-set (λ w. IsTracked w) shards (hash_key key (length shards)) v t r.0,
        live_in-set key j v [] shards (omega arith) r.2,
      )

  -- Scheduling a task with a key that is not empty and a handler, in a consistent scheduler with at least one wheel
  -- makes it the one live item of its key, keeps the live items of every other key, and keeps the
  -- scheduler consistent.
  pub sharded_schedule-live :
      (now : ℕ) (task : Task P) (j : Str) (shards : List (Wheel P))
      → AreTracked shards
      → 0 < length shards
      → str_eq task.key [] ≡ false
      → task.has_handler ≡ true
      → let after = (sharded_schedule now task shards).0 in
        AreTracked after
        × (live_in j after ≡ (
            if str_eq task.key j
            then item_of now task (shard task.key shards) ∷ []
            else live_in j shards))
  unfolding sharded_schedule
  sharded_schedule-live now task j shards t h n b =
      let w = shard task.key shards in
      let v = (schedule now task w).0 in
      let r = schedule-live now task j w (shard-IsTracked task.key shards t) n b in
      (
        All-set (λ w. IsTracked w) shards (hash_key task.key (length shards)) v t r.0,
        live_in-set task.key j v (item_of now task w ∷ []) shards h r.1,
      )

  -- Scheduling keeps any consistent scheduler consistent, also one without wheels.
  pub sharded_schedule-AreTracked :
      (now : ℕ) (task : Task P) (shards : List (Wheel P))
      → AreTracked shards
      → str_eq task.key [] ≡ false
      → task.has_handler ≡ true
      → AreTracked (sharded_schedule now task shards).0
  unfolding sharded_schedule
  sharded_schedule-AreTracked now task [] t n b = tt
  sharded_schedule-AreTracked now task (w ∷ ws) t n b =
      (sharded_schedule-live now task task.key (w ∷ ws) t (omega arith) n b).0

  -- A write of a consistent wheel keeps the scheduler consistent.
  pub AreTracked-set :
      (i : ℕ) (v : Wheel P) (shards : List (Wheel P))
      → AreTracked shards
      → IsTracked v
      → AreTracked (set shards i v)
  AreTracked-set i v shards t h = All-set (λ w. IsTracked w) shards i v t h

  pub AreTracked-get :
      (i : ℕ) (v : Wheel P) (shards : List (Wheel P))
      → AreTracked shards
      → get_elem? shards i ≡ some v
      → IsTracked v
  AreTracked-get i v shards t e = All-get_elem? (λ w. IsTracked w) shards i v t e
