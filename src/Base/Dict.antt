-- ===== src/Base/Dict.antt =====
-- Go's `map[string]V`: an association list. A lookup gives `none` on a missing key, a write replaces
-- or adds, `delete` of a missing key does nothing. The order of the entries is one iteration order.
use mathlib.Core.Logic.{◌⊎◌, inl, inr}
use mathlib.Core.Path.{◌≡◌, refl, sym, ap}
use mathlib.Core.List.{List, [], ◌∷◌}
use mathlib.Core.Option.{Option, none, some}
use native.Mathlib.Omega.{arith}
use long_gw.Base.Tests.{Bool-cases, if◌then◌else◌}
use long_gw.Base.Strings.{Str, str_eq, str_eq_iff, str_eq_refl}

abbrev pub Dict {ℓ} : Type ℓ → Type ℓ
Dict V = List (Str × V)

module _ {ℓ} {V : Type ℓ} where
  unfoldable pub lookup : Str → Dict V → Option V
  lookup k [] = none
  lookup k ((j, v) ∷ m) = if str_eq j k then some v else lookup k m

  unfoldable pub insert : Str → V → Dict V → Dict V
  insert k v [] = (k, v) ∷ []
  insert k v ((j, w) ∷ m) = if str_eq j k then (k, v) ∷ m else (j, w) ∷ insert k v m

  unfoldable pub delete : Str → Dict V → Dict V
  delete k [] = []
  delete k ((j, w) ∷ m) = if str_eq j k then delete k m else (j, w) ∷ delete k m

  -- The values, in iteration order.
  unfoldable pub values : Dict V → List V
  values [] = []
  values ((j, w) ∷ m) = w ∷ values m

  pub lookup-nil : (k : Str) → lookup k [] ≡ none
  unfolding lookup
  lookup-nil k = refl

  pub lookup-insert :
      (k j : Str) (v : V) (m : Dict V)
      → lookup j (insert k v m) ≡ (if str_eq k j then some v else lookup j m)
  unfolding lookup insert
  lookup-insert k j v [] = refl
  lookup-insert k j v ((i, w) ∷ m) =
      ground (arith, str_eq_iff k j, str_eq_iff i k, str_eq_iff i j, lookup-insert k j v m)

  pub lookup-delete :
      (k j : Str) (m : Dict V) → lookup j (delete k m) ≡ (if str_eq k j then none else lookup j m)
  unfolding lookup delete
  lookup-delete k j [] = ground arith
  lookup-delete k j ((i, w) ∷ m) =
      ground (arith, str_eq_iff k j, str_eq_iff i k, str_eq_iff i j, lookup-delete k j m)

-- Membership by position, to be matched.
abbrev pub Elem : {A : Type 0} → A → List A → Type 0
Elem x [] = ⊥
Elem x (y ∷ ys) = (x ≡ y) ⊎ Elem x ys

module _ {ℓ} {V : Type ℓ} where
  -- No key stands twice, as in every Go map.
  abbrev pub Unique : Dict V → Type ℓ
  Unique [] = Unit {ℓ}
  Unique ((k, v) ∷ m) = (lookup k m ≡ none) × Unique m

  pub Unique-insert : (k : Str) (v : V) (m : Dict V) → Unique m → Unique (insert k v m)
  unfolding insert
  Unique-insert k v [] u = (unfold lookup in refl, tt)
  Unique-insert k v ((j, w) ∷ m) u =
      ground (arith, str_eq_iff j k, str_eq_iff k j, lookup-insert k j v m, Unique-insert k v m u.1)

  pub Unique-delete : (k : Str) (m : Dict V) → Unique m → Unique (delete k m)
  unfolding delete
  Unique-delete k [] u = tt
  Unique-delete k ((j, w) ∷ m) u =
      ground (arith, lookup-delete k j m, str_eq_iff k j, Unique-delete k m u.1)

module _ {V : Type 0} where
  pub values-lookup : (k : Str) (v : V) (m : Dict V) → lookup k m ≡ some v → Elem v (values m)
  unfolding lookup values
  values-lookup k v [] h = cc
  values-lookup k v ((j, w) ∷ m) h = elim (Bool-cases (str_eq j k)) [
    | inl q ↦ inl (ground arith)
    | inr q ↦ inr (values-lookup k v m (ground arith))
  ]

  pub lookup-values :
      (v : V) (m : Dict V) → Unique m → Elem v (values m) → (k : Str) × (lookup k m ≡ some v)
  unfolding lookup values
  lookup-values v [] u h = absurd h
  lookup-values v ((j, w) ∷ m) u (inl e) = (j, rw (str_eq_refl j) (ap some (sym e)))
  lookup-values v ((j, w) ∷ m) u (inr h) =
      let (k, q) = lookup-values v m u.1 h in (k, ground (arith, str_eq_iff j k))
