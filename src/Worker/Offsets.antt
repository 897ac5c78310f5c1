-- ===== src/Worker/Offsets.antt =====
-- From where a consumer that commits some of its messages resumes: the loop of `Start` of
-- gateway/internal/utils/kafka/consumer.go over one partition. The consumer group is outside.
use long_gw.Base.{
  ℕ, ◌+◌, ◌<◌, ◌≡◌, ◌∙◌, List, [], ◌∷◌, ◌++◌, Bool, true, false, ◌&&◌, Str, str_eq, str_eq_iff,
  if◌then◌else◌, arith, Option-cases, inl, inr,
}
use long_gw.Base.Dict.{lookup, lookup-insert}
use long_gw.World.{World, Message}
use long_gw.Worker.{manager_submit_downstream, pool_submit_downstream}
use long_gw.Worker.Brokers.{
  Fetched, fetch_fails, decoded, manager_consumer_round, waiting_down, takes_down,
  consumer_rounds-commit,
}

-- What the brokers keep of a group in a partition: a commit says where the group resumes after a restart,
-- behind the message that is committed, also where that is before an earlier commit.
pub record GroupOffsets : Type 1 where
  pub Offsets : Type 0
  pub commit : ℕ → Offsets → Offsets
  pub resumes_at : Offsets → ℕ
  pub resumes_at-commit : (n : ℕ) (o : Offsets) → resumes_at (commit n o) ≡ n + 1

-- A message that its pool refuses changes no pool.
refused-pools :
    (msg : Message) (w : World) (k : Str)
    → takes_down msg.biz_code w ≡ false
    → lookup k (manager_consumer_round (decoded msg) w).0.pools ≡ lookup k w.pools
unfolding manager_consumer_round manager_submit_downstream pool_submit_downstream
refused-pools msg w k h = elim (Option-cases (lookup msg.biz_code w.pools)) [
  | inl n ↦ ground (arith, n)
  | inr (p, e) ↦
      ground (arith, e, h, str_eq_iff msg.biz_code k, lookup-insert msg.biz_code k p w.pools)
]

-- A message for another domain leaves a domain's pool alone.
other-pools :
    (msg : Message) (w : World) (k : Str)
    → str_eq msg.biz_code k ≡ false
    → lookup k (manager_consumer_round (decoded msg) w).0.pools ≡ lookup k w.pools
unfolding manager_consumer_round manager_submit_downstream pool_submit_downstream
other-pools msg w k h = elim (Option-cases (lookup msg.biz_code w.pools)) [
  | inl n ↦ ground (arith, n)
  | inr (p, e) ↦ ground (
    arith,
    e,
    h,
    lookup-insert msg.biz_code k p w.pools,
    lookup-insert msg.biz_code k (record p { downstream_ch = p.downstream_ch ++ (w.next_msg ∷ []) })
        w.pools,
  )
]

-- A message that is refused, and one behind it that is not.
refused_then_taken :
    (a b : Message) (w : World)
    → takes_down a.biz_code w ≡ false
    → takes_down b.biz_code w ≡ true
    → let w' = (manager_consumer_round (decoded a) w).0 in
      let (w'', committed) = manager_consumer_round (decoded b) w' in
      (committed ≡ true) × (waiting_down a.biz_code w'' ≡ waiting_down a.biz_code w)
refused_then_taken a b w h k =
    let w' = (manager_consumer_round (decoded a) w).0 in
    let apart : str_eq b.biz_code a.biz_code ≡ false =
      ground (arith, h, k, str_eq_iff b.biz_code a.biz_code) in
    (
      (consumer_rounds-commit b w').0 ∙ ground (arith, refused-pools a w b.biz_code h, k),
      ground (arith, other-pools b w' a.biz_code apart, refused-pools a w a.biz_code h),
    )

-- Whether a round takes a message from the partition.
abbrev pub is_fetched : Fetched → Bool
is_fetched fetch_fails = false
is_fetched _ = true

-- The offsets in the partition, and for each whether its commit succeeds; an error is logged only.
module _ (g : GroupOffsets) (commits : ℕ → Bool) where
  open g use {Offsets, commit, resumes_at, resumes_at-commit}

  -- `CommitMessages` of the message at an offset, where the round asks for it.
  abbrev pub commit_message : Bool → ℕ → Offsets → Offsets
  commit_message asks n o = if asks && commits n then commit n o else o

  -- What the loop does from the offset `n` on; a fetch that fails leaves the offset as it is.
  unfoldable pub consume : ℕ → List Fetched → World → Offsets → World × Offsets
  consume n [] w o = (w, o)
  consume n (f ∷ fs) w o =
      let (w', asks) = manager_consumer_round f w in
      consume (if is_fetched f then n + 1 else n) fs w' (commit_message asks n o)

  -- Once the group resumes behind an offset that the loop has passed, it does so for good.
  pub consume-stays_behind :
      (n k : ℕ) (fs : List Fetched) (w : World) (o : Offsets)
      → k < n
      → k < resumes_at o
      → k < resumes_at (consume n fs w o).1
  unfolding consume
  consume-stays_behind n k [] w o l h = h
  consume-stays_behind n k (f ∷ fs) w o l h =
      consume-stays_behind (if is_fetched f then n + 1 else n) k fs _ _ (ground (arith, l))
        (ground (arith, l, h, resumes_at-commit n o))

  -- A message that the pool of its domain refuses, and behind it one of a domain that has room, whose
  -- commit succeeds: the first is in no channel of its domain, and the group resumes behind it, whatever
  -- is fetched after them and whichever of the later commits succeed.
  pub consume-loses_refused :
      (n : ℕ) (a b : Message) (after : List Fetched) (w : World) (o : Offsets)
      → takes_down a.biz_code w ≡ false
      → takes_down b.biz_code w ≡ true
      → commits (n + 1) ≡ true
      → let (w', o') = consume n (decoded a ∷ decoded b ∷ []) w o in
        (waiting_down a.biz_code w' ≡ waiting_down a.biz_code w)
        × (resumes_at o' ≡ n + 2)
        × (n < resumes_at (consume n (decoded a ∷ decoded b ∷ after) w o).1)
  unfolding consume
  consume-loses_refused n a b after w o h k c =
      let r = refused_then_taken a b w h k in
      let o1 = commit_message (manager_consumer_round (decoded a) w).1 n o in
      let behind : resumes_at (commit_message true (n + 1) o1) ≡ n + 2 =
        ground (arith, c, resumes_at-commit (n + 1) o1) in
      (
        r.1,
        rw r.0 behind,
        consume-stays_behind (n + 1 + 1) n after _ _ (omega arith) (rw r.0 (omega (arith, behind))),
      )
