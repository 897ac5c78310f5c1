-- ===== src/Scanner/Sets.antt =====
-- The scanner's sets of message ids.
use long_gw.Base.{
  ◌≡◌, refl, List, [], ◌∷◌, Bool, true, false, not, ◌&&◌, ◌||◌, Str, str_eq, str_eq_iff, arith,
  Option-cases, inl, inr,
}
use long_gw.Base.Dict.{lookup, lookup-insert, lookup-delete}
use long_gw.Router.{is_empty}
use long_gw.World.{World}
use long_gw.Scanner.{set_add, set_remove, acks_of, forget_ack}

-- The message ids that the scanner would cancel with the session.
abbrev pub contains : Str → List Str → Bool
contains x [] = false
contains x (y ∷ ys) = str_eq y x || contains x ys

pub contains-set_add :
    (x y : Str) (ys : List Str) → contains x (set_add y ys) ≡ (str_eq y x || contains x ys)
unfolding set_add
contains-set_add x y [] = refl
contains-set_add x y (z ∷ ys) = ground (arith, contains-set_add x y ys, str_eq_iff z y)

pub contains-set_remove :
    (x y : Str) (ys : List Str) → contains x (set_remove y ys) ≡ (not (str_eq y x) && contains x ys)
unfolding set_remove
contains-set_remove x y [] = ground arith
contains-set_remove x y (z ∷ ys) =
    ground (arith, contains-set_remove x y ys, str_eq_iff z y, str_eq_iff z x, str_eq_iff y x)

contains-is_empty : (x : Str) (ys : List Str) → is_empty ys ≡ true → contains x ys ≡ false
contains-is_empty x [] e = refl
contains-is_empty x (y ∷ ys) e = cc

-- Forgetting a message takes it, and no other, out of the session's set.
pub forget_ack-contains :
    (id m x : Str) (w : World)
    → contains x (acks_of id (forget_ack id m w).scanner.sess_acks)
      ≡ (not (str_eq m x) && contains x (acks_of id w.scanner.sess_acks))
unfolding forget_ack
forget_ack-contains id m x w = elim (Option-cases (lookup id w.scanner.sess_acks)) [
  | inl e ↦ ground (arith, e)
  | inr (ids, e) ↦ ground (
    arith,
    e,
    contains-set_remove x m ids,
    contains-is_empty x (set_remove m ids),
    lookup-insert id id (set_remove m ids) w.scanner.sess_acks,
    lookup-delete id id w.scanner.sess_acks,
    str_eq_iff id id,
  )
]
