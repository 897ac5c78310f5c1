-- ===== src/Router/Resolve.antt =====
-- What a key resolves to.
use long_gw.Base.{◌≡◌, refl, List, [], ◌∷◌, ◌++◌, Option, none, some, Str, inl, inr, ◌⊎◌, ◌↔◌, ◌≢◌}
use long_gw.Base.Dict.{values, Elem, values-lookup, lookup-values}
use long_gw.Router.{Target, LocalRouter, inner, targets, resolve}
use long_gw.Router.Index.{Unique-inner}
use long_gw.Router.Membership.{membership, IsWellFormed}

-- A session is reached under a key as a device of that user, a member of that room, or a
-- subscriber of that topic.
abbrev pub Reached : LocalRouter → Str → Target → Type 0
Reached r to t =
    ((d : Str) × ((membership r).user to d ≡ some t))
    ⊎ (((s : Str) × ((membership r).room to s ≡ some t))
        ⊎ ((s : Str) × ((membership r).topic to s ≡ some t)))

Elem-append_left : {A : Type 0} (x : A) (xs ys : List A) → Elem x xs → Elem x (xs ++ ys)
Elem-append_left x [] ys h = elim h [ ]
Elem-append_left x (y ∷ xs) ys (inl e) = inl e
Elem-append_left x (y ∷ xs) ys (inr h) = inr (Elem-append_left x xs ys h)

Elem-append_right : {A : Type 0} (x : A) (xs ys : List A) → Elem x ys → Elem x (xs ++ ys)
Elem-append_right x [] ys h = h
Elem-append_right x (y ∷ xs) ys h = inr (Elem-append_right x xs ys h)

Elem-append : {A : Type 0} (x : A) (xs ys : List A) → Elem x (xs ++ ys) → Elem x xs ⊎ Elem x ys
Elem-append x [] ys h = inr h
Elem-append x (y ∷ xs) ys (inl e) = inl (inl e)
Elem-append x (y ∷ xs) ys (inr h) = elim (Elem-append x xs ys h) [
  | inl m ↦ inl (inr m)
  | inr m ↦ inr m
]

targets-Reached :
    (to : Str) (t : Target) (r : LocalRouter)
    → IsWellFormed r
    → Elem t (targets to r)
    → Reached r to t
unfolding targets
targets-Reached to t r w h = elim (Elem-append t (values (inner to r.user_conns)) _ h) [
  | inl m ↦ inl (lookup-values t _ (Unique-inner to r.user_conns w.users) m)
  | inr n ↦ elim (Elem-append t (values (inner to r.rooms)) _ n) [
    | inl m ↦ inr (inl (lookup-values t _ (Unique-inner to r.rooms w.in_rooms) m))
    | inr m ↦ inr (inr (lookup-values t _ (Unique-inner to r.topics w.in_topics) m))
  ]
]

Reached-targets : (to : Str) (t : Target) (r : LocalRouter) → Reached r to t → Elem t (targets to r)
unfolding targets
Reached-targets to t r (inl (d, e)) =
    Elem-append_left t (values (inner to r.user_conns)) _
      (values-lookup d t (inner to r.user_conns) e)
Reached-targets to t r (inr (inl (s, e))) =
    Elem-append_right t (values (inner to r.user_conns)) _
      (Elem-append_left t (values (inner to r.rooms)) _ (values-lookup s t (inner to r.rooms) e))
Reached-targets to t r (inr (inr (s, e))) =
    Elem-append_right t (values (inner to r.user_conns)) _
      (Elem-append_right t (values (inner to r.rooms)) _ (values-lookup s t (inner to r.topics) e))

-- What `Resolve` answers: every session that is reached under the key is in the answer, and no
-- other is; where it answers with nothing, no session is reached.
abbrev pub Answers : LocalRouter → Str → Option (List Target) → Type 0
Answers r to none = (t : Target) → ¬ Reached r to t
Answers r to (some ts) = (ts ≢ []) × ((t : Target) → Elem t ts ↔ Reached r to t)

resolve-cases :
    (to : Str) (r : LocalRouter) (ts : List Target)
    → targets to r ≡ ts
    → IsWellFormed r
    → Answers r to (resolve to r)
unfolding resolve
resolve-cases to r [] e w = rw (e, resolve) (λ t h. rw e at (Reached-targets to t r h))
resolve-cases to r (x ∷ ts) e w =
    rw (e, resolve)
      (
        λ q. cc,
        λ t. (λ h. targets-Reached to t r w (rw e h), λ h. rw e at (Reached-targets to t r h)),
      )

-- On a router whose maps hold each key once, `Resolve` answers with exactly the sessions that are
-- reached under the key, as a device of that user, a member of that room or a subscriber of that
-- topic; where it answers with nothing, none is reached.
pub resolve-Answers : (to : Str) (r : LocalRouter) → IsWellFormed r → Answers r to (resolve to r)
resolve-Answers to r w = resolve-cases to r (targets to r) refl w
