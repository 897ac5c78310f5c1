-- ===== src/SessionRegistry/Ids.antt =====
-- The ids of sessions, `computeSessionID` of gateway/internal/session/registry.go. SHA-256 and the hex form
-- of its first 16 bytes are outside.
use long_gw.Base.{
  ℕ, ◌+◌, ◌==◌, ◌≡◌, refl, ◌∙◌, sym, ap, [], ◌∷◌, ◌++◌, Bool, true, false, ◌||◌, none, some, Str,
  Bytes, lit, str_eq, str_eq_refl, arith, if◌then◌else◌,
}
use mathlib.Core.List.{append_assoc}
use long_gw.Base.Dict.{lookup, insert, lookup-insert}
use long_gw.World.{World}
use long_gw.Session.{new_session}
use long_gw.SessionRegistry.{Registry, get_or_create}
use long_gw.SessionRegistry.Devices.{device_of, get_or_create_total}

-- `userID + ":" + deviceID` is what is hashed.
unfoldable pub compute_session_id : (Bytes → Str) → Str → Str → Str
compute_session_id digest user_id device_id = digest (user_id ++ (lit ":" ++ device_id))

abbrev pub has_colon : Str → Bool
has_colon [] = false
has_colon (c ∷ cs) = c == 58 || has_colon cs

split_at_colon :
    (u u' d d' : Str)
    → has_colon u ≡ false
    → has_colon u' ≡ false
    → u ++ (58 ∷ d) ≡ u' ++ (58 ∷ d')
    → (u ≡ u') × (d ≡ d')
split_at_colon [] [] d d' h h' e = (refl, cc)
split_at_colon [] (c ∷ u') d d' h h' e = absurd (ground (arith, h', e))
split_at_colon (c ∷ u) [] d d' h h' e = absurd (ground (arith, h, e))
split_at_colon (c ∷ u) (c' ∷ u') d d' h h' e =
    let t : u ++ (58 ∷ d) ≡ u' ++ (58 ∷ d') = cc in
    let q = split_at_colon u u' d d' (ground (arith, h)) (ground (arith, h')) t in
    (ground (arith, e, q), q.1)

-- Where the digest has no collision and no user id has a colon, two sessions have the same id only for
-- the same user and device.
pub compute_session_id-injective :
    (digest : Bytes → Str) (u u' d d' : Str)
    → ((a b : Bytes) → digest a ≡ digest b → a ≡ b)
    → has_colon u ≡ false
    → has_colon u' ≡ false
    → compute_session_id digest u d ≡ compute_session_id digest u' d'
    → (u ≡ u') × (d ≡ d')
unfolding compute_session_id
compute_session_id-injective digest u u' d d' one h h' e = split_at_colon u u' d d' h h' (one _ _ e)

-- A colon moves between the user and the device.
compute_session_id-shared :
    (digest : Bytes → Str) (u m d : Str)
    → compute_session_id digest (u ++ (lit ":" ++ m)) d
      ≡ compute_session_id digest u (m ++ (lit ":" ++ d))
unfolding compute_session_id
compute_session_id-shared digest u m d = ap digest (append_assoc u (58 ∷ m) (58 ∷ d))

longer-ne : (u : Str) (c : ℕ) (m : Str) → str_eq (u ++ (c ∷ m)) u ≡ false
unfolding str_eq
longer-ne [] c m = refl
longer-ne (x ∷ u) c m = ground (arith, longer-ne u c m)

-- A session that `GetOrCreate` makes.
get_or_create-new :
    (compute : Str → Str → Str) (u d app kind biz : Str) (g : Registry) (w : World) (t : ℕ)
    → device_of u d g ≡ none
    → let (g', w', s, new) = get_or_create compute u d app kind biz g w in
      (new ≡ true)
      × (s ≡ g.fresh)
      × (g'.fresh ≡ g.fresh + 1)
      × (g'.by_id ≡ insert (compute u d) g.fresh g.by_id)
      × ((w'.sessions t).session_id
          ≡ (if g.fresh == t then compute u d else (w.sessions t).session_id))
unfolding get_or_create new_session
get_or_create-new compute u d app kind biz g w t h = ground (arith, h)

-- Two new sessions, of a user whose id has a colon and of the user before the colon: they are two
-- sessions with one id, under which the registry has the second only, so that the ACK timeouts of
-- the first are looked up at the second.
pub get_or_create-shares_id :
    (digest : Bytes → Str) (u m d app kind biz : Str) (g : Registry) (w : World)
    → device_of (u ++ (lit ":" ++ m)) d g ≡ none
    → device_of u (m ++ (lit ":" ++ d)) g ≡ none
    → let create = get_or_create (compute_session_id digest) in
      let (g1, w1, s1, new1) = create (u ++ (lit ":" ++ m)) d app kind biz g w in
      let (g2, w2, s2, new2) = create u (m ++ (lit ":" ++ d)) app kind biz g1 w1 in
      (new2 ≡ true)
      × (s2 ≡ s1 + 1)
      × ((w2.sessions s2).session_id ≡ (w2.sessions s1).session_id)
      × (lookup (w2.sessions s1).session_id g2.by_id ≡ some s2)
get_or_create-shares_id digest u m d app kind biz g w h k =
    let compute = compute_session_id digest in
    let long = u ++ (lit ":" ++ m) in
    let rest = m ++ (lit ":" ++ d) in
    let (g1, w1, s1, new1) = get_or_create compute long d app kind biz g w in
    let a = get_or_create-new compute long d app kind biz g w g.fresh h in
    let there : device_of u rest g1 ≡ none =
      (get_or_create_total compute long d app app kind kind biz biz u rest g w).1
      ∙ ground (arith, longer-ne u 58 m, k) in
    let b = get_or_create-new compute u rest app kind biz g1 w1 g1.fresh there in
    let b' = get_or_create-new compute u rest app kind biz g1 w1 g.fresh there in
    let same = compute_session_id-shared digest u m d in
    let (g2, w2, s2, new2) = get_or_create compute u rest app kind biz g1 w1 in
    let id2 : (w2.sessions s2).session_id ≡ compute u rest = ground (arith, b.1, b.4) in
    let id1 : (w2.sessions s1).session_id ≡ compute u rest = ground (arith, a.1, a.4, b'.4, same) in
    let there' : lookup (compute u rest) g2.by_id ≡ some s2 = ground (
      arith,
      b.1,
      b.3,
      lookup-insert (compute u rest) (compute u rest) g1.fresh g1.by_id,
      str_eq_refl (compute u rest),
    ) in
    (
      b.0,
      omega (arith, a.1, a.2, b.1),
      id2 ∙ sym id1,
      ap (λ (k : Str). lookup k g2.by_id) id1 ∙ there',
    )
