-- ===== src/Timer/Live.antt =====
-- What scheduling, cancelling and popping do to the live items of a key.
use long_gw.Base.{
  ℕ, ◌+◌, ◌≡◌, refl, List, [], ◌∷◌, true, false, is_some, Str, str_eq, str_eq_iff, str_eq_refl,
  ◌==◌, if◌then◌else◌, All, arith, Bool-cases, Option-cases, inl, inr,
}
use long_gw.Base.Dict.{Dict, lookup, insert, lookup-insert, lookup-delete}
use long_gw.Timer.{
  Task, Item, Wheel, less, forget, heap_push, mark_current, schedule, cancel, pop_loop, pop_due,
  new_wheel,
}
use long_gw.Timer.Tracked.{
  Row, IsDistinct, IsTracked, live, IsDistinct-mark, mark-Row, live-mark, live-none, insert-Row,
  mark_current-live, IsDistinct-mark_current, All-mark_current, IsMap, IsMap-insert, IsMap-delete,
}

module _ {P : Type 0} where
  -- On a wheel whose map and queue are consistent, cancelling a key that is not empty leaves no
  -- live item of it, keeps the live items of every other key, and says whether the map had the
  -- key; the wheel stays consistent.
  pub cancel-live :
      (key j : Str) (w : Wheel P)
      → IsTracked w
      → str_eq key [] ≡ false
      → let (after, found) = cancel key w in
        IsTracked after
        × (found ≡ is_some (lookup key w.tasks))
        × (live j after.queue ≡ (if str_eq key j then [] else live j w.queue))
  unfolding cancel
  cancel-live key j w t n = elim (Option-cases (lookup key w.tasks)) [
    | inl e ↦
        ground (arith, e, n, t, live-none key w.tasks w.next_id w.queue e t.0, str_eq_iff key j)
    | inr (id, e) ↦
        let rows = mark-Row key id w.tasks w.next_id w.queue t.2 e t.0 in
        let apart = IsDistinct-mark id w.queue t.1 in
        let smaller = IsMap-delete key w.tasks w.next_id t.2 in
        ground (
          arith,
          e,
          n,
          rows,
          apart,
          smaller,
          live-mark key j id w.tasks w.next_id w.queue t.2 e t.0,
        )
  ]

  live-heap_push :
      (j : Str) (x : Item P) (q : List (Item P))
      → x.cancelled ≡ false
      → live x.task.key q ≡ []
      → live j (heap_push x q) ≡ (if str_eq x.task.key j then x ∷ [] else live j q)
  unfolding heap_push
  live-heap_push j x [] c e = ground (arith, c)
  live-heap_push j x (y ∷ q) c e = ground (
    arith,
    c,
    e,
    live-heap_push j x q c,
    str_eq_iff x.task.key j,
    str_eq_iff y.task.key j,
    str_eq_iff y.task.key x.task.key,
  )

  Row-heap_push :
      (ts : Dict ℕ) (next : ℕ) (x : Item P) (q : List (Item P))
      → Row ts next x
      → All (Row ts next) q
      → All (Row ts next) (heap_push x q)
  unfolding heap_push
  Row-heap_push ts next x [] r rs = (r, tt)
  Row-heap_push ts next x (y ∷ q) r rs = elim (Bool-cases (less x y)) [
    | inl e ↦ rw e (r, rs)
    | inr e ↦ rw e (rs.0, Row-heap_push ts next x q r rs.1)
  ]

  apart-heap_push :
      (a : ℕ) (x : Item P) (q : List (Item P))
      → (a == x.id) ≡ false
      → All (λ y. (a == y.id) ≡ false) q
      → All (λ y. (a == y.id) ≡ false) (heap_push x q)
  unfolding heap_push
  apart-heap_push a x [] h r = (h, tt)
  apart-heap_push a x (y ∷ q) h r = ground (arith, h, r.0, r.1, apart-heap_push a x q h)

  fresh-apart :
      (ts : Dict ℕ) (next : ℕ) (q : List (Item P))
      → All (Row ts next) q
      → All (λ y. (next == y.id) ≡ false) q
  fresh-apart ts next [] r = tt
  fresh-apart ts next (x ∷ q) r = (ground (arith, r.0.0), fresh-apart ts next q r.1)

  IsDistinct-heap_push :
      (x : Item P) (q : List (Item P))
      → All (λ y. (x.id == y.id) ≡ false) q
      → IsDistinct q
      → IsDistinct (heap_push x q)
  unfolding heap_push
  IsDistinct-heap_push x [] a d = (tt, tt)
  IsDistinct-heap_push x (y ∷ q) a d = elim (Bool-cases (less x y)) [
    | inl e ↦ rw e (a, d)
    | inr e ↦
        rw e (apart-heap_push y.id x q (ground (arith, a.0)) d.0, IsDistinct-heap_push x q a.1 d.1)
  ]

  -- The item that `schedule` makes of a task at the time `now`.
  abbrev pub item_of : ℕ → Task P → Wheel P → Item P
  item_of now task w = record {
    task = record task { due_at = if task.due_at == 0 then now else task.due_at };
    id = w.next_id;
    cancelled = false;
  }

  -- On a wheel whose map and queue are consistent, scheduling a task with a key and a handler
  -- makes it the one live item of its key, due at its time, or at once where it has none; it
  -- keeps the live items of every other key, and the wheel stays consistent.
  pub schedule-live :
      (now : ℕ) (task : Task P) (j : Str) (w : Wheel P)
      → IsTracked w
      → str_eq task.key [] ≡ false
      → task.has_handler ≡ true
      → let after = (schedule now task w).0 in
        IsTracked after
        × (live j after.queue
            ≡ (if str_eq task.key j then item_of now task w ∷ [] else live j w.queue))
  unfolding schedule
  schedule-live now task j w t n h =
      let x = item_of now task w in
      let q = mark_current (lookup task.key w.tasks) w.queue in
      let rows =
        Row-heap_push (insert task.key w.next_id w.tasks) (w.next_id + 1) x q
          (
            ground arith,
            λ c.
                ground
                  (arith, lookup-insert task.key task.key w.next_id w.tasks, str_eq_refl task.key),
          )
          (insert-Row task.key w.tasks w.next_id w.queue t.2 t.0) in
      let apart =
        IsDistinct-heap_push x q
          (All-mark_current w.next_id (lookup task.key w.tasks) w.queue
            (fresh-apart w.tasks w.next_id w.queue t.0))
          (IsDistinct-mark_current (lookup task.key w.tasks) w.queue t.1) in
      let larger = IsMap-insert task.key w.tasks w.next_id t.2 in
      let gone = mark_current-live task.key task.key w.tasks w.next_id w.queue t.2 t.0 in
      ground (
        arith,
        n,
        h,
        rows,
        apart,
        larger,
        live-heap_push j x q refl (ground (arith, gone, str_eq_refl task.key)),
        mark_current-live task.key j w.tasks w.next_id w.queue t.2 t.0,
      )

  Row-forget :
      (x : Item P) (ts : Dict ℕ) (next : ℕ) (q : List (Item P))
      → All (λ y. (x.id == y.id) ≡ false) q
      → All (Row ts next) q
      → All (Row (forget x ts) next) q
  Row-forget x ts next [] d r = tt
  Row-forget x ts next (y ∷ q) d r = (
    (
      r.0.0,
      λ c. ground (
        arith,
        c,
        r.0.1,
        d.0,
        lookup-delete x.task.key y.task.key ts,
        str_eq_iff x.task.key y.task.key,
      ),
    ),
    Row-forget x ts next q d.1 r.1,
  )

  IsMap-forget : (x : Item P) (ts : Dict ℕ) (next : ℕ) → IsMap ts next → IsMap (forget x ts) next
  IsMap-forget x ts next m = elim (Option-cases (lookup x.task.key ts)) [
    | inl e ↦ rw (forget, e) m
    | inr (i, e) ↦ elim (Bool-cases (i == x.id)) [
      | inl h ↦ rw (forget, e, h) (IsMap-delete x.task.key ts next m)
      | inr h ↦ rw (forget, e, h) m
    ]
  ]

  pop_loop-IsTracked :
      (now next : ℕ) (q : List (Item P)) (ts : Dict ℕ)
      → All (Row ts next) q
      → IsDistinct q
      → IsMap ts next
      → let p = pop_loop now q ts in
        All (Row p.tasks next) p.rest × IsDistinct p.rest × IsMap p.tasks next
  unfolding pop_loop
  pop_loop-IsTracked now next [] ts r d m = (tt, tt, m)
  pop_loop-IsTracked now next (x ∷ q) ts r d m =
      let skip = pop_loop-IsTracked now next q ts r.1 d.1 m in
      let more =
        pop_loop-IsTracked now next q (forget x ts) (Row-forget x ts next q d.0 r.1) d.1
          (IsMap-forget x ts next m) in
      ground (arith, r, d, m, skip, more)

  -- Popping the due tasks keeps the map and the queue of a wheel consistent: every live item is
  -- the one that the map has for its key, no two items have one address, and the map has no
  -- address under two keys.
  pub pop_due-IsTracked : (now : ℕ) (w : Wheel P) → IsTracked w → IsTracked (pop_due now w).0
  unfolding pop_due
  pop_due-IsTracked now w t = pop_loop-IsTracked now w.next_id w.queue w.tasks t.0 t.1 t.2

-- A new wheel is consistent.
pub new_wheel-IsTracked : (P : Type 0) → IsTracked (new_wheel {P = P})
unfolding new_wheel lookup
new_wheel-IsTracked P = (
  tt,
  tt,
  record { bound = λ k i e. ground (arith, e); injective = λ j k i e f. ground (arith, e) },
)
