-- ===== src/Pipeline/Downlink/Everyone.antt =====
-- Whom a fan-out reaches: every session whose connection takes the message, and no other.
use long_gw.Base.{
  ℕ, ◌+◌, ◌==◌, ==_iff, ◌≡◌, refl, ◌∙◌, sym, List, [], ◌∷◌, ◌++◌, Bool, true, false, ◌&&◌, ◌||◌,
  Option, none, some, if◌then◌else◌, arith, Bool-cases, Option-cases, inl, inr,
}
use mathlib.Core.List.{append-nil}
use long_gw.Router.{Target}
use long_gw.World.{World, Delivery, done, world_of}
use long_gw.Connection.{conn_submit}
use long_gw.Scanner.{track}
use long_gw.Session.{submit, handle_undelivered, record_delivered}
use long_gw.Session.Submit.{deliverable, submit_total}
use long_gw.Pipeline.Downlink.{FanOutResult, drop_one, fan_out_loop}
use long_gw.Pipeline.Downlink.FanOut.{submit-delivery}

-- The connection of a target's session.
abbrev pub conn_of : World → Target → Option ℕ
conn_of w t = (w.sessions t.ref).conn

abbrev pub is_conn : ℕ → Option ℕ → Bool
is_conn c none = false
is_conn c (some c') = c' == c

-- Two targets without a connection in common.
abbrev pub clash : Option ℕ → Option ℕ → Bool
clash none b = false
clash (some c) b = is_conn c b

abbrev pub Apart : World → Target → List Target → Type 0
Apart w t [] = Unit {0}
Apart w t (t' ∷ ts) = (clash (conn_of w t) (conn_of w t') ≡ false) × Apart w t ts

-- No two of the targets have a connection in common.
abbrev pub AreApart : World → List Target → Type 0
AreApart w [] = Unit {0}
AreApart w (t ∷ ts) = Apart w t ts × AreApart w ts

-- How many of the targets' connections take a message.
abbrev pub reached : List Target → World → ℕ
reached [] w = 0
reached (t ∷ ts) w = (if deliverable t.ref w then 1 else 0) + reached ts w

-- Whether a connection is that of a target and takes a message.
abbrev pub reaches : ℕ → List Target → World → Bool
reaches c [] w = false
reaches c (t ∷ ts) w = is_conn c (conn_of w t) && deliverable t.ref w || reaches c ts w

-- A message for a session moves no session to another connection, and touches no connection but the
-- session's.
submit-conn :
    (s m i : ℕ) (w : World) → ((world_of (submit s m w)).sessions i).conn ≡ (w.sessions i).conn
unfolding submit handle_undelivered conn_submit record_delivered track
submit-conn s m i w = ground arith

submit-conns :
    (s m c : ℕ) (w : World)
    → is_conn c (w.sessions s).conn ≡ false
    → (world_of (submit s m w)).conns c ≡ w.conns c
unfolding submit handle_undelivered conn_submit record_delivered track
submit-conns s m c w h = ground (arith, h)

submit-channel :
    (s m c : ℕ) (w : World)
    → ((world_of (submit s m w)).conns c).write_ch
      ≡ (w.conns c).write_ch
        ++ (if is_conn c (w.sessions s).conn && deliverable s w then m ∷ [] else [])
unfolding submit handle_undelivered conn_submit record_delivered track
submit-channel s m c w = ground (arith, append-nil (w.conns c).write_ch, ==_iff c c)

drop_one-frame :
    (h : Bool) (m : ℕ) (r : FanOutResult) (w : World)
    → let (r', w') = drop_one h m r w in
      (w'.conns ≡ w.conns) × (w'.sessions ≡ w.sessions) × (w'.msgs ≡ w.msgs) × (r'.sent ≡ r.sent)
unfolding drop_one
drop_one-frame h m r w = (ground arith, ground arith, ground arith, refl)

-- A change that moves no session to another connection, and touches no connection but the target's.
abbrev Touches : Target → World → World → Type 0
Touches t w w' =
    ((i : ℕ) → (w'.sessions i).conn ≡ (w.sessions i).conn)
    × ((c : ℕ) → is_conn c (conn_of w t) ≡ false → w'.conns c ≡ w.conns c)

deliverable-Touches :
    (t t' : Target) (w w' : World)
    → Touches t w w'
    → clash (conn_of w t) (conn_of w t') ≡ false
    → deliverable t'.ref w' ≡ deliverable t'.ref w
deliverable-Touches t t' w w' h a = elim (Option-cases (conn_of w t')) [
  | inl n ↦ ground (arith, n, h.0 t'.ref)
  | inr (c, n) ↦ elim (Option-cases (conn_of w t)) [
    | inl k ↦ ground (arith, n, k, h.0 t'.ref, h.1 c)
    | inr (b, k) ↦ ground (arith, n, k, a, ==_iff c b, ==_iff b c, h.0 t'.ref, h.1 c)
  ]
]

targets-Touches :
    (t : Target) (c : ℕ) (ts : List Target) (w w' : World)
    → Touches t w w'
    → Apart w t ts
    → (reached ts w' ≡ reached ts w) × (reaches c ts w' ≡ reaches c ts w)
targets-Touches t c [] w w' h a = (refl, refl)
targets-Touches t c (t' ∷ ts) w w' h a =
    let d = deliverable-Touches t t' w w' h a.0 in
    let ih = targets-Touches t c ts w w' h a.1 in
    (ground (arith, d, ih.0), ground (arith, d, ih.1, h.0 t'.ref))

Apart-Touches :
    (t s : Target) (ts : List Target) (w w' : World) → Touches t w w' → Apart w s ts → Apart w' s ts
Apart-Touches t s [] w w' h a = tt
Apart-Touches t s (t' ∷ ts) w w' h a =
    (ground (arith, a.0, h.0 s.ref, h.0 t'.ref), Apart-Touches t s ts w w' h a.1)

AreApart-Touches :
    (t : Target) (ts : List Target) (w w' : World) → Touches t w w' → AreApart w ts → AreApart w' ts
AreApart-Touches t [] w w' h a = tt
AreApart-Touches t (t' ∷ ts) w w' h a =
    (Apart-Touches t t' ts w w' h a.0, AreApart-Touches t ts w w' h a.1)

-- The connection of a target is none of those apart from it.
reaches-Apart :
    (t : Target) (c : ℕ) (ts : List Target) (w : World)
    → Apart w t ts
    → is_conn c (conn_of w t) ≡ true
    → reaches c ts w ≡ false
reaches-Apart t c [] w a k = refl
reaches-Apart t c (t' ∷ ts) w a k = elim (Option-cases (conn_of w t)) [
  | inl n ↦ ground (arith, n, k)
  | inr (b, n) ↦ ground (arith, n, k, a.0, ==_iff b c, reaches-Apart t c ts w a.1)
]

submit-Touches : (t : Target) (m : ℕ) (w : World) → Touches t w (world_of (submit t.ref m w))
submit-Touches t m w = (λ i. submit-conn t.ref m i w, λ c k. submit-conns t.ref m c w k)

drop-Touches :
    (h : Bool) (m : ℕ) (r : FanOutResult) (t : Target) (w w' : World)
    → Touches t w w'
    → Touches t w (drop_one h m r w').1
drop-Touches h m r t w w' e =
    let f = drop_one-frame h m r w' in
    (λ i. ground (arith, f.1, e.0 i), λ c k. ground (arith, f.0, e.1 c k))

-- What the loop does to a channel, in the step from one target to the others.
channel-step :
    (m c : ℕ) (t : Target) (ts : List Target) (w : World) (b : Bool) (xs ys : List ℕ)
    → Apart w t ts
    → ys ≡ xs ++ (if is_conn c (conn_of w t) && b then m ∷ [] else [])
    → ys ++ (if reaches c ts w then m ∷ [] else [])
      ≡ xs ++ (if is_conn c (conn_of w t) && b || reaches c ts w then m ∷ [] else [])
channel-step m c t ts w b xs ys a e = elim (Bool-cases (is_conn c (conn_of w t))) [
  | inl k ↦ ground (arith, e, k, reaches-Apart t c ts w a k, append-nil xs, append-nil ys)
  | inr k ↦ ground (arith, e, k, append-nil xs)
]

-- The fan-out of a message with a delivery over targets without a connection in common.
pub fan_out_loop-reaches :
    (h : Bool) (m c : ℕ) (ts : List Target) (r : FanOutResult) (w : World) (d : Delivery)
    → (w.msgs m).delivery ≡ some d
    → AreApart w ts
    → (r' : FanOutResult) × (w' : World) × (fan_out_loop h m ts r w ≡ done r' w')
      × (r'.sent ≡ r.sent + reached ts w)
      × ((w'.conns c).write_ch ≡ (w.conns c).write_ch ++ (if reaches c ts w then m ∷ [] else []))
unfolding fan_out_loop
fan_out_loop-reaches h m c [] r w d e a = (r, w, refl, omega arith, sym (append-nil _))
fan_out_loop-reaches h m c (t ∷ ts) r w d e (a, others) =
    let w1 = world_of (submit t.ref m w) in
    let q = submit_total t.ref m w d e in
    let ch = submit-channel t.ref m c w in
    elim (Bool-cases (deliverable t.ref w)) [
      | inl y ↦
          let touch = submit-Touches t m w in
          let (same_count, same_reach) = targets-Touches t c ts w w1 touch a in
          let (r', w', p, n, ch') =
            fan_out_loop-reaches h m c ts (record r { sent = r.sent + 1 }) w1 d
              (ground (arith, submit-delivery t.ref m w, e))
              (AreApart-Touches t ts w w1 touch others) in
          (
            r',
            w',
            ground (arith, q, y, p),
            ground (arith, n, y, same_count),
            ch' ∙ rw same_reach (channel-step m c t ts w (deliverable t.ref w) _ _ a ch),
          )
      | inr y ↦
          let (r1, w2) = drop_one h m r w1 in
          let f = drop_one-frame h m r w1 in
          let touch = drop-Touches h m r t w w1 (submit-Touches t m w) in
          let (same_count, same_reach) = targets-Touches t c ts w w2 touch a in
          let (r', w', p, n, ch') =
            fan_out_loop-reaches h m c ts r1 w2 d
              (ground (arith, submit-delivery t.ref m w, f.2, e))
              (AreApart-Touches t ts w w2 touch others) in
          (
            r',
            w',
            ground (arith, q, y, p),
            ground (arith, n, y, same_count, f.3),
            ch' ∙ rw (same_reach, f.0) (channel-step m c t ts w (deliverable t.ref w) _ _ a ch),
          )
    ]
