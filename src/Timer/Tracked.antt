-- ===== src/Timer/Tracked.antt =====
-- The wheel's map of tasks, and the one live item of the queue that it has for a key.
use long_gw.Base.{
  ℕ, ◌+◌, ◌<◌, ◌≡◌, refl, subst, List, [], ◌∷◌, true, false, not, ◌&&◌, Option, none, some, Str,
  str_eq, str_eq_iff, ◌==◌, if◌then◌else◌, All, keep, arith, Option-cases, inl, inr,
}
use long_gw.Base.Dict.{Dict, lookup, insert, delete, lookup-insert, lookup-delete}
use long_gw.Timer.{Item, Wheel, mark, mark_current}

-- The map refers to addresses that were given out, and to none under two keys.
pub record IsMap (ts : Dict ℕ) (next : ℕ) : Type 0 where
  pub bound : (k : Str) (i : ℕ) → lookup k ts ≡ some i → i < next
  pub injective :
      (j k : Str) (i : ℕ) → lookup j ts ≡ some i → lookup k ts ≡ some i → str_eq j k ≡ true

pub IsMap-delete : (k : Str) (ts : Dict ℕ) (next : ℕ) → IsMap ts next → IsMap (delete k ts) next
IsMap-delete k ts next m = record {
  bound = λ j i e. ground (arith, e, lookup-delete k j ts, m.bound j i);
  injective = λ j l i e f.
      ground (arith, e, f, lookup-delete k j ts, lookup-delete k l ts, m.injective j l i);
}

pub IsMap-insert :
    (k : Str) (ts : Dict ℕ) (next : ℕ) → IsMap ts next → IsMap (insert k next ts) (next + 1)
IsMap-insert k ts next m = record {
  bound = λ j i e. ground (arith, e, lookup-insert k j next ts, m.bound j i);
  injective = λ j l i e f. ground (
    arith,
    e,
    f,
    lookup-insert k j next ts,
    lookup-insert k l next ts,
    m.injective j l i,
    m.bound j next,
    m.bound l next,
    str_eq_iff k j,
    str_eq_iff k l,
    str_eq_iff j l,
  );
}

module _ {P : Type 0} where
  -- An item's address was given out, and a live item is the one that the map has for its key.
  abbrev pub Row : Dict ℕ → ℕ → Item P → Type 0
  Row ts next x = (x.id < next) × (x.cancelled ≡ false → lookup x.task.key ts ≡ some x.id)

  -- No two items of the queue have one address.
  abbrev pub IsDistinct : List (Item P) → Type 0
  IsDistinct [] = Unit
  IsDistinct (x ∷ q) = All (λ y. (x.id == y.id) ≡ false) q × IsDistinct q

  abbrev pub IsTracked : Wheel P → Type 0
  IsTracked w = All (Row w.tasks w.next_id) w.queue × IsDistinct w.queue × IsMap w.tasks w.next_id

  -- The live items of a key.
  abbrev pub live : Str → List (Item P) → List (Item P)
  live k q = keep (λ x. not x.cancelled && str_eq x.task.key k) q

  pub IsDistinct-mark-one :
      (a id : ℕ) (q : List (Item P))
      → All (λ y. (a == y.id) ≡ false) q
      → All (λ y. (a == y.id) ≡ false) (mark id q)
  unfolding mark
  IsDistinct-mark-one a id [] h = tt
  IsDistinct-mark-one a id (x ∷ q) h = (ground (arith, h.0), IsDistinct-mark-one a id q h.1)

  pub IsDistinct-mark : (id : ℕ) (q : List (Item P)) → IsDistinct q → IsDistinct (mark id q)
  unfolding mark
  IsDistinct-mark id [] d = tt
  IsDistinct-mark id (x ∷ q) d =
      let marked_id : x.id ≡ (if x.id == id then record x { cancelled = true } else x).id =
        ground arith in
      (
        subst (λ a. All (λ y. (a == y.id) ≡ false) (mark id q)) marked_id
            (IsDistinct-mark-one x.id id q d.0),
        IsDistinct-mark id q d.1,
      )

  -- After a cancel of the key `k` with the address `i`, the rows hold of the smaller map, no item of
  -- `k` is live, and the live items of other keys are as they were.
  pub mark-Row :
      (k : Str) (i : ℕ) (ts : Dict ℕ) (next : ℕ) (q : List (Item P))
      → IsMap ts next
      → lookup k ts ≡ some i
      → All (Row ts next) q
      → All (Row (delete k ts) next) (mark i q)
  unfolding mark
  mark-Row k i ts next [] m e r = tt
  mark-Row k i ts next (x ∷ q) m e r = (
    (
      ground (arith, r.0.0),
      λ c. ground (
        arith,
        c,
        r.0.1,
        e,
        m.injective k x.task.key i e,
        str_eq_iff k x.task.key,
        lookup-delete k x.task.key ts,
      ),
    ),
    mark-Row k i ts next q m e r.1,
  )

  pub live-mark :
      (k j : Str) (i : ℕ) (ts : Dict ℕ) (next : ℕ) (q : List (Item P))
      → IsMap ts next
      → lookup k ts ≡ some i
      → All (Row ts next) q
      → live j (mark i q) ≡ (if str_eq k j then [] else live j q)
  unfolding mark
  live-mark k j i ts next [] m e r = ground arith
  live-mark k j i ts next (x ∷ q) m e r = ground (
    arith,
    live-mark k j i ts next q m e r.1,
    r.0.1,
    m.injective k j i e,
    str_eq_iff k j,
    str_eq_iff x.task.key j,
    e,
  )

  -- A key that is not in the map has no live item.
  pub live-none :
      (k : Str) (ts : Dict ℕ) (next : ℕ) (q : List (Item P))
      → lookup k ts ≡ none
      → All (Row ts next) q
      → live k q ≡ []
  live-none k ts next [] e r = refl
  live-none k ts next (x ∷ q) e r =
      ground (arith, live-none k ts next q e r.1, r.0.1, str_eq_iff x.task.key k, e)

  pub unmarked-Row :
      (k : Str) (ts : Dict ℕ) (next : ℕ) (q : List (Item P))
      → lookup k ts ≡ none
      → All (Row ts next) q
      → All (Row (insert k next ts) (next + 1)) q
  unmarked-Row k ts next [] e r = tt
  unmarked-Row k ts next (x ∷ q) e r = (
    (
      ground (arith, r.0.0),
      λ c. ground (arith, c, r.0.1, e, str_eq_iff k x.task.key, lookup-insert k x.task.key next ts),
    ),
    unmarked-Row k ts next q e r.1,
  )

  pub marked-Row :
      (k : Str) (i : ℕ) (ts : Dict ℕ) (next : ℕ) (q : List (Item P))
      → lookup k ts ≡ some i
      → All (Row ts next) q
      → All (Row (insert k next ts) (next + 1)) (mark i q)
  unfolding mark
  marked-Row k i ts next [] e r = tt
  marked-Row k i ts next (x ∷ q) e r = (
    (
      ground (arith, r.0.0),
      λ c. ground (arith, c, r.0.1, e, str_eq_iff k x.task.key, lookup-insert k x.task.key next ts),
    ),
    marked-Row k i ts next q e r.1,
  )

  -- Marking what the map has for a key leaves no live item of it, and the rows hold of the map with
  -- the key's new address.
  pub insert-Row :
      (k : Str) (ts : Dict ℕ) (next : ℕ) (q : List (Item P))
      → IsMap ts next
      → All (Row ts next) q
      → All (Row (insert k next ts) (next + 1)) (mark_current (lookup k ts) q)
  insert-Row k ts next q m r = elim (Option-cases (lookup k ts)) [
    | inl e ↦ rw e (unmarked-Row k ts next q e r)
    | inr (i, e) ↦ rw e (marked-Row k i ts next q e r)
  ]

  pub mark_current-live :
      (k j : Str) (ts : Dict ℕ) (next : ℕ) (q : List (Item P))
      → IsMap ts next
      → All (Row ts next) q
      → live j (mark_current (lookup k ts) q) ≡ (if str_eq k j then [] else live j q)
  mark_current-live k j ts next q m r = elim (Option-cases (lookup k ts)) [
    | inl e ↦ ground (arith, e, live-none k ts next q e r, str_eq_iff k j)
    | inr (i, e) ↦ ground (arith, e, live-mark k j i ts next q m e r)
  ]

  pub IsDistinct-mark_current :
      (i : Option ℕ) (q : List (Item P)) → IsDistinct q → IsDistinct (mark_current i q)
  IsDistinct-mark_current none q d = d
  IsDistinct-mark_current (some i) q d = IsDistinct-mark i q d

  pub All-mark_current :
      (a : ℕ) (i : Option ℕ) (q : List (Item P))
      → All (λ y. (a == y.id) ≡ false) q
      → All (λ y. (a == y.id) ≡ false) (mark_current i q)
  All-mark_current a none q r = r
  All-mark_current a (some i) q r = IsDistinct-mark-one a i q r
