-- ===== src/Timer/Queue.antt =====
-- The order of the wheel's queue, and what a turn takes from it.
use long_gw.Base.{
  ℕ, ◌≤◌, ◌<◌, ◌≡◌, refl, List, [], ◌∷◌, Bool, false, not, ◌&&◌, Option, none, some, Str, ltb, leb,
  ◌==◌, if◌then◌else◌, All, keep, arith, Option-cases, inl, inr,
}
use long_gw.Base.Dict.{Dict, lookup}
use long_gw.Timer.{
  Task, Item, Wheel, forget, heap_push, mark, mark_current, schedule, cancel, pop_loop, pop_due,
}

module _ {P : Type 0} where
  -- No item of the queue is due before `t`.
  abbrev pub IsAfter : ℕ → List (Item P) → Type 0
  IsAfter t q = All (λ x. t ≤ x.task.due_at) q

  -- The queue is in the order of the due times.
  abbrev pub IsOrdered : List (Item P) → Type 0
  IsOrdered [] = Unit
  IsOrdered (x ∷ q) = IsAfter x.task.due_at q × IsOrdered q

  IsAfter-heap_push :
      (t : ℕ) (x : Item P) (q : List (Item P))
      → t ≤ x.task.due_at
      → IsAfter t q
      → IsAfter t (heap_push x q)
  unfolding heap_push
  IsAfter-heap_push t x [] h a = (h, tt)
  IsAfter-heap_push t x (y ∷ q) h a = ground (arith, IsAfter-heap_push t x q h)

  IsAfter-weaken : (s t : ℕ) (q : List (Item P)) → s ≤ t → IsAfter t q → IsAfter s q
  IsAfter-weaken s t [] h a = tt
  IsAfter-weaken s t (x ∷ q) h a = (omega (arith, a.0), IsAfter-weaken s t q h a.1)

  pub IsOrdered-heap_push :
      (x : Item P) (q : List (Item P)) → IsOrdered q → IsOrdered (heap_push x q)
  unfolding heap_push
  IsOrdered-heap_push x [] o = (tt, tt)
  IsOrdered-heap_push x (y ∷ q) o = ground (
    arith,
    IsOrdered-heap_push x q,
    IsAfter-weaken x.task.due_at y.task.due_at q,
    IsAfter-heap_push y.task.due_at x q,
  )

  IsAfter-mark : (t id : ℕ) (q : List (Item P)) → IsAfter t q → IsAfter t (mark id q)
  unfolding mark
  IsAfter-mark t id [] a = tt
  IsAfter-mark t id (x ∷ q) a = ground (arith, IsAfter-mark t id q)

  pub IsOrdered-mark : (id : ℕ) (q : List (Item P)) → IsOrdered q → IsOrdered (mark id q)
  unfolding mark
  IsOrdered-mark id [] o = tt
  IsOrdered-mark id (x ∷ q) o = ground (arith, IsOrdered-mark id q, IsAfter-mark x.task.due_at id q)

  IsOrdered-mark_current :
      (i : Option ℕ) (q : List (Item P)) → IsOrdered q → IsOrdered (mark_current i q)
  IsOrdered-mark_current none q o = o
  IsOrdered-mark_current (some id) q o = IsOrdered-mark id q o

  pop_loop-IsOrdered :
      (now : ℕ) (q : List (Item P)) (ts : Dict ℕ) → IsOrdered q → IsOrdered (pop_loop now q ts).rest
  unfolding pop_loop
  pop_loop-IsOrdered now [] ts o = tt
  pop_loop-IsOrdered now (x ∷ q) ts o =
      ground (arith, pop_loop-IsOrdered now q ts o.1, pop_loop-IsOrdered now q (forget x ts) o.1)

  scheduled-IsOrdered :
      (now : ℕ) (task : Task P) (w : Wheel P)
      → IsOrdered w.queue
      → IsOrdered (schedule now task w).0.queue
  unfolding schedule
  scheduled-IsOrdered now task w o =
      let due = if task.due_at == 0 then now else task.due_at in
      let item : Item P = record {
        task = record task { due_at = due };
        id = w.next_id;
        cancelled = false;
      } in
      let marked = mark_current (lookup task.key w.tasks) w.queue in
      ground (
        arith,
        IsOrdered-heap_push item marked,
        IsOrdered-mark_current (lookup task.key w.tasks) w.queue o,
      )

  cancelled-IsOrdered :
      (key : Str) (w : Wheel P) → IsOrdered w.queue → IsOrdered (cancel key w).0.queue
  unfolding cancel
  cancelled-IsOrdered key w o = elim (Option-cases (lookup key w.tasks)) [
    | inl n ↦ ground (arith, n)
    | inr (id, e) ↦ ground (arith, e, IsOrdered-mark id w.queue o)
  ]

  -- Where the queue is in the order of the due times, scheduling, cancelling and popping keep
  -- it so.
  pub wheel-IsOrdered :
      (now : ℕ) (task : Task P) (key : Str) (w : Wheel P)
      → IsOrdered w.queue
      → IsOrdered (schedule now task w).0.queue
        × IsOrdered (cancel key w).0.queue
        × IsOrdered (pop_due now w).0.queue
  unfolding pop_due
  wheel-IsOrdered now task key w o = (
    scheduled-IsOrdered now task w o,
    cancelled-IsOrdered key w o,
    pop_loop-IsOrdered now w.queue w.tasks o,
  )

  -- A live item that is due at `now`.
  abbrev pub is_due : ℕ → Item P → Bool
  is_due now x = not x.cancelled && leb x.task.due_at now

  -- A live item that is not due at `now`.
  abbrev pub is_later : ℕ → Item P → Bool
  is_later now x = not x.cancelled && ltb now x.task.due_at

  keep-none :
      (now t : ℕ) (q : List (Item P))
      → now < t
      → IsAfter t q
      → (keep (is_due now) q ≡ []) × (keep (λ x. not x.cancelled) q ≡ keep (is_later now) q)
  keep-none now t [] h a = (refl, refl)
  keep-none now t (x ∷ q) h a = ground (arith, keep-none now t q h a.1, a.0)

  pop_loop-exact :
      (now : ℕ) (q : List (Item P)) (ts : Dict ℕ)
      → IsOrdered q
      → ((pop_loop now q ts).ready ≡ keep (is_due now) q)
        × (keep (λ x. not x.cancelled) (pop_loop now q ts).rest ≡ keep (is_later now) q)
  unfolding pop_loop
  pop_loop-exact now [] ts o = (refl, refl)
  pop_loop-exact now (x ∷ q) ts o = ground (
    arith,
    pop_loop-exact now q ts o.1,
    pop_loop-exact now q (forget x ts) o.1,
    λ (h : now < x.task.due_at). keep-none now x.task.due_at q h o.0,
  )

  -- On an ordered queue a turn at `now` takes exactly the live items that are due by then, in
  -- their order, and the live items that stay are exactly those due later.
  pub pop_due-exact :
      (now : ℕ) (w : Wheel P)
      → IsOrdered w.queue
      → ((pop_due now w).1 ≡ keep (is_due now) w.queue)
        × (keep (λ x. not x.cancelled) (pop_due now w).0.queue ≡ keep (is_later now) w.queue)
  unfolding pop_due
  pop_due-exact now w o = pop_loop-exact now w.queue w.tasks o
