-- ===== src/Pipeline/Downlink/FanOut.antt =====
-- The fan-out of a message over the sessions it is routed to.
use long_gw.Base.{
  ℕ, ◌+◌, ◌≡◌, refl, List, [], ◌∷◌, ◌++◌, Bool, true, false, some, length, arith, Bool-cases, inl,
  inr,
}
use long_gw.Router.{Target}
use long_gw.World.{World, Delivery, done, world_of}
use long_gw.Connection.{conn_submit}
use long_gw.Scanner.{track}
use long_gw.Session.{submit, handle_undelivered, record_delivered}
use long_gw.Session.Submit.{deliverable, storable, submit_total}
use long_gw.Pipeline.Downlink.{FanOutResult, no_result, drop_one, fan_out_loop}

-- A submitted message keeps its delivery.
pub submit-delivery :
    (s m : ℕ) (w : World) → ((world_of (submit s m w)).msgs m).delivery ≡ (w.msgs m).delivery
unfolding submit handle_undelivered conn_submit record_delivered track
submit-delivery s m w = ground arith

drop_one-msgs :
    (h : Bool) (m : ℕ) (r : FanOutResult) (w : World) → (drop_one h m r w).1.msgs ≡ w.msgs
unfolding drop_one
drop_one-msgs h m r w = ground arith

drop_one-counts :
    (h : Bool) (m : ℕ) (r : FanOutResult) (w : World)
    → (drop_one h m r w).0.total ≡ r.total
      × (drop_one h m r w).0.sent ≡ r.sent
      × (drop_one h m r w).0.dropped ≡ r.dropped + 1
      × (drop_one h m r w).0.offline ≡ r.offline
unfolding drop_one
drop_one-counts h m r w = (refl, refl, refl, refl)

-- What the counters say of `n` sessions more.
pub record Counted (r r' : FanOutResult) (n : ℕ) : Type 0 where
  pub same_total : r'.total ≡ r.total
  pub each_once : r'.sent + r'.dropped ≡ r.sent + r.dropped + n
  pub not_offline : r'.offline ≡ r.offline

-- The fan-out of a message with a delivery ends without a panic, and counts every session once, as
-- sent or as dropped.
pub fan_out_loop-Counted :
    (h : Bool) (m : ℕ) (ts : List Target) (r : FanOutResult) (w : World) (d : Delivery)
    → (w.msgs m).delivery ≡ some d
    → (r' : FanOutResult) × (w' : World) × (fan_out_loop h m ts r w ≡ done r' w')
      × Counted r r' (length ts)
unfolding fan_out_loop
fan_out_loop-Counted h m [] r w d e = (r, w, refl, omega arith)
fan_out_loop-Counted h m (t ∷ ts) r w d e =
    let w1 = world_of (submit t.ref m w) in
    let q = submit_total t.ref m w d e in
    elim (Bool-cases (deliverable t.ref w)) [
      | inl y ↦
          let (r', w', p, k) =
            fan_out_loop-Counted h m ts (record r { sent = r.sent + 1 }) w1 d
              (ground (arith, submit-delivery t.ref m w)) in
          (r', w', ground (arith, q, y, p), omega arith)
      | inr y ↦
          let (r1, w2) = drop_one h m r w1 in
          let (r', w', p, k) =
            fan_out_loop-Counted h m ts r1 w2 d
              (ground (arith, submit-delivery t.ref m w, drop_one-msgs h m r w1)) in
          let (a, b, c, o) = drop_one-counts h m r w1 in
          (r', w', ground (arith, q, y, p), omega arith)
    ]

-- A session that does not take a message that is to be kept: the fan-out to it puts the message
-- into the offline store twice.
pub fan_out_loop-stores_twice :
    (m : ℕ) (t : Target) (w : World) (d : Delivery)
    → (w.msgs m).delivery ≡ some d
    → storable (w.sessions t.ref) (w.msgs m) ≡ true
    → deliverable t.ref w ≡ false
    → let after = world_of (fan_out_loop true m (t ∷ []) no_result w) in
      after.stored ≡ (w.stored ++ (after.msgs m ∷ [])) ++ (after.msgs m ∷ [])
unfolding fan_out_loop drop_one submit handle_undelivered conn_submit
fan_out_loop-stores_twice m t w d e s u = ground arith
