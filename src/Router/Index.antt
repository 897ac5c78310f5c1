-- ===== src/Router/Index.antt =====
-- The map of maps behind the router's indexes: what each update does to every member.
use long_gw.Base.{
  ◌≡◌, refl, [], ◌∷◌, true, ◌&&◌, Option, none, some, Str, str_eq, str_eq_iff, if◌then◌else◌, arith,
  Option-cases, Bool-cases, subst, inl, inr,
}
use long_gw.Base.Dict.{
  Dict, lookup, insert, delete, lookup-nil, lookup-insert, lookup-delete, Unique, Unique-insert,
  Unique-delete,
}
use long_gw.Router.{Target, Index, inner, is_empty, add_member, drop_member, purge_member}

-- The session that an index holds for a member of a key.
abbrev pub view : Index → Str → Str → Option Target
view idx k id = lookup id (inner k idx)

pub view-add_member :
    (k id : Str) (t : Target) (idx : Index) (k' id' : Str)
    → view (add_member k id t idx) k' id'
      ≡ (if str_eq k k' && str_eq id id' then some t else view idx k' id')
unfolding add_member
view-add_member k id t idx k' id' = ground (
  arith,
  str_eq_iff k k',
  lookup-insert k k' (insert id t (inner k idx)) idx,
  lookup-insert id id' t (inner k idx),
)

is_empty-lookup : (m : Dict Target) (id : Str) → is_empty m ≡ true → lookup id m ≡ none
unfolding lookup
is_empty-lookup [] id h = refl
is_empty-lookup (e ∷ m) id h = cc

pub view-drop_member :
    (k id : Str) (idx : Index) (k' id' : Str)
    → view (drop_member k id idx) k' id'
      ≡ (if str_eq k k' && str_eq id id' then none else view idx k' id')
unfolding drop_member
view-drop_member k id idx k' id' = elim (Option-cases (lookup k idx)) [
  | inl q ↦ ground (arith, q, str_eq_iff k k', lookup-nil {V = Target} id')
  | inr (m, q) ↦ ground (
    arith,
    q,
    str_eq_iff k k',
    lookup-delete k k' idx,
    lookup-delete id id' m,
    lookup-insert k k' (delete id m) idx,
    is_empty-lookup (delete id m) id',
  )
]

pub view-purge_member :
    (id : Str) (idx : Index) (k' id' : Str)
    → view (purge_member id idx) k' id' ≡ (if str_eq id id' then none else view idx k' id')
unfolding purge_member lookup
view-purge_member id [] k' id' = ground arith
view-purge_member id ((k, m) ∷ idx) k' id' =
    ground (arith, lookup-delete id id' m, view-purge_member id idx k' id')

-- Every inner map of an index has its keys once.
abbrev pub IsUnique : Index → Type 0
IsUnique [] = Unit {0}
IsUnique ((k, m) ∷ idx) = Unique m × IsUnique idx

pub Unique-inner : (k : Str) (idx : Index) → IsUnique idx → Unique (inner k idx)
unfolding lookup
Unique-inner k [] u = tt
Unique-inner k ((j, m) ∷ idx) u = ground (arith, Unique-inner k idx u.1)

Unique-lookup :
    (k : Str) (m : Dict Target) (idx : Index) → lookup k idx ≡ some m → IsUnique idx → Unique m
unfolding lookup
Unique-lookup k m [] h u = absurd (cc)
Unique-lookup k m ((j, n) ∷ idx) h u = elim (Bool-cases (str_eq j k)) [
  | inl q ↦ let e : n ≡ m = cc (rw q at h) in subst Unique e u.0
  | inr q ↦ Unique-lookup k m idx (rw q at h) u.1
]

IsUnique-insert :
    (k : Str) (m : Dict Target) (idx : Index) → Unique m → IsUnique idx → IsUnique (insert k m idx)
unfolding insert
IsUnique-insert k m [] h u = (h, tt)
IsUnique-insert k m ((j, n) ∷ idx) h u = ground (arith, IsUnique-insert k m idx h u.1)

IsUnique-delete : (k : Str) (idx : Index) → IsUnique idx → IsUnique (delete k idx)
unfolding delete
IsUnique-delete k [] u = tt
IsUnique-delete k ((j, n) ∷ idx) u = ground (arith, IsUnique-delete k idx u.1)

pub IsUnique-add_member :
    (k id : Str) (t : Target) (idx : Index) → IsUnique idx → IsUnique (add_member k id t idx)
unfolding add_member
IsUnique-add_member k id t idx u =
    IsUnique-insert k _ idx (Unique-insert id t (inner k idx) (Unique-inner k idx u)) u

pub IsUnique-drop_member :
    (k id : Str) (idx : Index) → IsUnique idx → IsUnique (drop_member k id idx)
unfolding drop_member
IsUnique-drop_member k id idx u = elim (Option-cases (lookup k idx)) [
  | inl q ↦ rw (q, drop_member) u
  | inr (m, q) ↦
      let um : Unique m = Unique-lookup k m idx q u in
      ground (
        arith,
        q,
        IsUnique-delete k idx u,
        IsUnique-insert k (delete id m) idx (Unique-delete id m um) u,
      )
]

pub IsUnique-purge_member : (id : Str) (idx : Index) → IsUnique idx → IsUnique (purge_member id idx)
unfolding purge_member
IsUnique-purge_member id [] u = tt
IsUnique-purge_member id ((k, m) ∷ idx) u =
    (Unique-delete id m u.0, IsUnique-purge_member id idx u.1)
