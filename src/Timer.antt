-- ===== src/Timer.antt =====
-- The timer, gateway/internal/timer: wheel.go and its sharding, shard.go. Times are numbers, and 0 is
-- Go's zero time. container/heap is taken by its contract: the queue is kept in the order in which
-- `heap.Pop` gives it, the earliest first, so `queue[0]` is the head; among equal due times, where
-- the contract leaves it open, the order is that of scheduling. Each task that was pushed carries its
-- address, which is how the map of tasks refers to it.
pub mod Queue
pub mod Tracked
pub mod Live
pub mod Shards
pub mod Turns
use Prim.Native.Nat.{bit_xor}
use long_gw.Base.{
  ℕ, ◌+◌, ◌*◌, ◌%◌, ◌^◌, List, [], ◌∷◌, Bool, true, false, not, ◌||◌, Option, none, some, Str,
  str_eq, ltb, leb, ◌==◌, if◌then◌else◌, length, get_elem?, set,
}
use long_gw.Base.Dict.{Dict, lookup, insert, delete}

pub data TaskType : Type 0 where
  heartbeat ack_timeout retry session_suspend drain_kick : TaskType

pub record Task (P : Type 0) : Type 0 where
  pub key : Str
  pub kind : TaskType
  pub due_at : ℕ
  pub payload : P
  pub has_handler : Bool

-- `wheelTask`, with its address.
pub record Item (P : Type 0) : Type 0 where
  pub task : Task P
  pub id : ℕ
  pub cancelled : Bool

pub record Wheel (P : Type 0) : Type 0 where
  pub tasks : Dict ℕ
  pub queue : List (Item P)
  pub next_id : ℕ
  pub scheduled : ℕ
  pub executed : ℕ
  pub cancels : ℕ
  pub wake : Bool

-- What a turn of `popDue` leaves: the tasks popped, and what stays.
pub record Popped (P : Type 0) : Type 0 where
  pub ready : List (Item P)
  pub rest : List (Item P)
  pub tasks : Dict ℕ

pub data ScheduleError : Type 0 where
  empty_key nil_handler : ScheduleError

module _ {P : Type 0} where
  unfoldable pub new_wheel : Wheel P
  new_wheel = record {
    tasks = [];
    queue = [];
    next_id = 0;
    scheduled = 0;
    executed = 0;
    cancels = 0;
    wake = false;
  }

  -- `Less`: earlier due times first.
  abbrev pub less : Item P → Item P → Bool
  less a b = ltb a.task.due_at b.task.due_at

  -- `heap.Push`
  unfoldable pub heap_push : Item P → List (Item P) → List (Item P)
  heap_push x [] = x ∷ []
  heap_push x (y ∷ q) = if less x y then x ∷ y ∷ q else y ∷ heap_push x q

  -- `current.cancelled = true` through the pointer.
  unfoldable pub mark : ℕ → List (Item P) → List (Item P)
  mark id [] = []
  mark id (x ∷ q) = (if x.id == id then record x { cancelled = true } else x) ∷ mark id q

  abbrev pub mark_current : Option ℕ → List (Item P) → List (Item P)
  mark_current none q = q
  mark_current (some id) q = mark id q

  -- `schedule` at the time `now`: the new wheel, or its error, which leaves the wheel as it was.
  unfoldable pub schedule : ℕ → Task P → Wheel P → Wheel P × Option ScheduleError
  schedule now task w =
      if str_eq task.key []
      then (w, some empty_key)
      else if not task.has_handler
      then (w, some nil_handler)
      else let due = if task.due_at == 0 then now else task.due_at in
        let item : Item P = record {
          task = record task { due_at = due };
          id = w.next_id;
          cancelled = false;
        } in
        (
          record w {
            tasks = insert task.key w.next_id w.tasks;
            queue = heap_push item (mark_current (lookup task.key w.tasks) w.queue);
            next_id = w.next_id + 1;
            scheduled = w.scheduled + 1;
            wake = true;
          },
          none,
        )

  unfoldable pub cancel : Str → Wheel P → Wheel P × Bool
  cancel key w = if str_eq key [] then (w, false) else elim (lookup key w.tasks) [
    | none ↦ (w, false)
    | some id ↦ (
      record w {
        queue = mark id w.queue;
        tasks = delete key w.tasks;
        cancels = w.cancels + 1;
        wake = true;
      },
      true,
    )
  ]

  -- `nextTask`: cancelled tasks at the head are popped.
  unfoldable pub drop_cancelled : List (Item P) → List (Item P)
  drop_cancelled [] = []
  drop_cancelled (x ∷ q) = if x.cancelled then drop_cancelled q else x ∷ q

  unfoldable pub next_task : Wheel P → Wheel P × Option (Item P)
  next_task w =
      let q = drop_cancelled w.queue in
      (record w { queue = q }, elim q [ [] ↦ none | x ∷ rest ↦ some x ])

  -- `if current, ok := w.tasks[item.Key]; ok && current == item { delete(w.tasks, item.Key) }`
  abbrev pub forget : Item P → Dict ℕ → Dict ℕ
  forget x tasks = elim (lookup x.task.key tasks) [
    | none ↦ tasks
    | some id ↦ if id == x.id then delete x.task.key tasks else tasks
  ]

  -- The loop of `popDue`.
  unfoldable pub pop_loop : ℕ → List (Item P) → Dict ℕ → Popped P
  pop_loop now [] tasks = record { ready = []; rest = []; tasks = tasks }
  pop_loop now (x ∷ q) tasks =
      let skip = pop_loop now q tasks in
      let more = pop_loop now q (forget x tasks) in
      if x.cancelled
      then skip
      else if ltb now x.task.due_at
      then record { ready = []; rest = x ∷ q; tasks = tasks }
      else record { ready = x ∷ more.ready; rest = more.rest; tasks = more.tasks }

  unfoldable pub pop_due : ℕ → Wheel P → Wheel P × List (Item P)
  pop_due now w =
      let p = pop_loop now w.queue w.tasks in
      (record w { queue = p.rest; tasks = p.tasks }, p.ready)

  -- The tasks of `ready` whose handlers `run` calls, in order.
  unfoldable pub runnable : List (Item P) → List (Task P)
  runnable [] = []
  runnable (x ∷ q) =
      if x.cancelled || not x.task.has_handler then runnable q else x.task ∷ runnable q

  -- One turn of `run` whose timer has fired at `now`: the wheel, and the handlers to call in order.
  unfoldable pub run_turn : ℕ → Wheel P → Wheel P × List (Task P)
  run_turn now w =
      let (w', ready) = pop_due now w in
      let due = runnable ready in (record w' { executed = w'.executed + length due }, due)

-- FNV-1a over 32 bits, hash/fnv.
unfoldable pub fnv32a : ℕ → Str → ℕ
fnv32a h [] = h
fnv32a h (b ∷ bs) = fnv32a (bit_xor h b * 16777619 % 2 ^ 32) bs

unfoldable pub hash_key : Str → ℕ → ℕ
hash_key key shard_count = if leb shard_count 1 then 0 else fnv32a 2166136261 key % shard_count

-- A sharded scheduler is its wheels. With no wheel a call goes to one that is thrown away.
module _ {P : Type 0} where
  unfoldable pub shard : Str → List (Wheel P) → Wheel P
  shard key shards = elim (get_elem? shards (hash_key key (length shards))) [
    | none ↦ new_wheel
    | some w ↦ w
  ]

  unfoldable pub sharded_schedule :
      ℕ → Task P → List (Wheel P) → List (Wheel P) × Option ScheduleError
  sharded_schedule now task shards =
      let (w, e) = schedule now task (shard task.key shards) in
      (set shards (hash_key task.key (length shards)) w, e)

  unfoldable pub sharded_cancel : Str → List (Wheel P) → List (Wheel P) × Bool
  sharded_cancel key shards =
      let (w, found) = cancel key (shard key shards) in
      (set shards (hash_key key (length shards)) w, found)
