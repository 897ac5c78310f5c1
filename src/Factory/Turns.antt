-- ===== src/Factory/Turns.antt =====
-- A running connection: `Run` of gateway/internal/access/connruntime/connection.go, with the `onMessage`
-- that factory.go gives to it, a turn of a loop at a time.
use long_gw.Base.{
  ℕ, ◌≡◌, refl, ap, sym, ◌∙◌, List, [], ◌∷◌, ◌++◌, Bool, true, false, not, ◌&&◌, Option, none, some,
  Str, Bytes, is_some, arith, ◌||◌,
}
use mathlib.Core.List.{append-nil}
use long_gw.Connection.{write_next}
use long_gw.Connection.Loops.{Loops, FrameRead, fails, read_turn, write_turn}
use long_gw.Handler.{dispatch}
use long_gw.Worker.{alloc}
use long_gw.World.{World, Message, Outcome, done, and_then}

-- A round of the reading loop, at a time in milliseconds and one in nanoseconds; a round of the writing
-- loop; and what another goroutine does to the state that they share.
pub data Turn : Type 0 where
  reads : ℕ → ℕ → FrameRead → Turn
  sends : Bool → Bool → Turn
  meanwhile : (World → World) → Turn

-- `Run` gets to its cleanup when both loops have ended.
abbrev pub run_is_over : Loops → Bool
run_is_over l = not l.reading && not l.writing

-- Whether no write of the turns fails.
abbrev pub all_succeed : List Turn → Bool
all_succeed [] = true
all_succeed (sends picks_end ok ∷ ts) = ok && all_succeed ts
all_succeed (reads now nanos r ∷ ts) = all_succeed ts
all_succeed (meanwhile f ∷ ts) = all_succeed ts

-- The connection at `c` of the session at `s`.
module _ (encode : ℕ → Str → Bytes) (limiter : Option (Str → Str → Bool)) (s c : ℕ) where
  -- `onMessage`: the message that was read is dispatched.
  abbrev pub on_message : ℕ → Option Message → Loops → World → Outcome Loops
  on_message nanos none l w = done l w
  on_message nanos (some msg) l w =
      and_then (dispatch encode limiter nanos s c w.next_msg (alloc msg w)) λ _ w'. done l w'

  unfoldable pub take_turn : Turn → Loops → World → Outcome Loops
  take_turn (reads now nanos r) l w =
      let (l', handed) = read_turn now r l in on_message nanos handed l' w
  take_turn (sends picks_end ok) l w =
      let (l', w', ms) = write_turn picks_end ok c l w in done l' w'
  take_turn (meanwhile f) l w = done l (f w)

  -- The turns, one after the other; a panic ends the process.
  unfoldable pub take_turns : List Turn → Loops → World → Outcome Loops
  take_turns [] l w = done l w
  take_turns (t ∷ ts) l w = and_then (take_turn t l w) λ l' w'. take_turns ts l' w'

  -- The world once nothing is read: what the others do to it, and the writes from the channel.
  abbrev pub without_reading : List Turn → World → World
  without_reading [] w = w
  without_reading (reads now nanos r ∷ ts) w = without_reading ts w
  without_reading (sends picks_end ok ∷ ts) w = without_reading ts (write_next c w).0
  without_reading (meanwhile f ∷ ts) w = without_reading ts (f w)

  -- A loop that reads no more, and one that writes.
  abbrev IsStuck : Loops → Type 0
  IsStuck l = (l.reading ≡ false) × (l.cancelled ≡ false) × (l.writing ≡ true)

  -- A write ends the writing loop where there is a message and it fails.
  sends-stuck :
      (p ok : Bool) (l : Loops) (w : World)
      → IsStuck l
      → take_turn (sends p ok) l w
        ≡ done (record l { writing = not (is_some (write_next c w).1) || ok }) (write_next c w).0
  unfolding take_turn write_turn write_next
  sends-stuck p ok l w h = ground (arith, h)

  reads-stuck :
      (now nanos : ℕ) (r : FrameRead) (l : Loops) (w : World)
      → IsStuck l
      → take_turn (reads now nanos r) l w ≡ done l w
  unfolding take_turn read_turn
  reads-stuck now nanos r l w h = ground (arith, h)

  sends-succeeds :
      (p : Bool) (l : Loops) (w : World)
      → IsStuck l
      → take_turn (sends p true) l w ≡ done l (write_next c w).0
  sends-succeeds p l w h = sends-stuck p true l w h ∙ ground (arith, h)

  meanwhile-stuck :
      (f : World → World) (l : Loops) (w : World) → take_turn (meanwhile f) l w ≡ done l (f w)
  unfolding take_turn
  meanwhile-stuck f l w = refl

  read_fails :
      (now nanos : ℕ) (l : Loops) (w : World)
      → l.reading ≡ true
      → l.cancelled ≡ false
      → take_turn (reads now nanos fails) l w ≡ done (record l { reading = false }) w
  unfolding take_turn read_turn
  read_fails now nanos l w a k = ground (arith, a, k)

  take_turns-stuck :
      (ts next : List Turn) (l : Loops) (w : World)
      → IsStuck l
      → all_succeed ts ≡ true
      → take_turns (ts ++ next) l w ≡ take_turns next l (without_reading ts w)
  unfolding take_turns
  take_turns-stuck [] next l w h e = refl
  take_turns-stuck (reads now nanos r ∷ ts) next l w h e =
      rw (reads-stuck now nanos r l w h) (take_turns-stuck ts next l w h e)
  take_turns-stuck (sends p false ∷ ts) next l w h e = cc
  take_turns-stuck (sends p true ∷ ts) next l w h e =
      rw (sends-succeeds p l w h) (take_turns-stuck ts next l (write_next c w).0 h e)
  take_turns-stuck (meanwhile f ∷ ts) next l w h e =
      rw (meanwhile-stuck f l w) (take_turns-stuck ts next l (f w) h e)

  -- The reading loop of a running connection whose context is not cancelled ends with a failed read.
  -- Whatever turns follow, and whatever other goroutines do to the state that the loops share: as long as
  -- no write fails, the writing loop goes on, nothing more is dispatched, and `Run` does not get to its
  -- cleanup. It does so with the next write that fails, which takes a message that somebody put into the
  -- channel; with an empty channel the turn changes nothing.
  pub take_turns-waits :
      (ts : List Turn) (now nanos : ℕ) (picks_end : Bool) (l : Loops) (w : World)
      → l.reading ≡ true
      → l.writing ≡ true
      → l.cancelled ≡ false
      → all_succeed ts ≡ true
      → let l' : Loops = record l { reading = false } in
        let w' = without_reading ts w in
        let (w'', m) = write_next c w' in
        (take_turns (reads now nanos fails ∷ ts) l w ≡ done l' w')
        × (run_is_over l' ≡ false)
        × (take_turns (reads now nanos fails ∷ (ts ++ (sends picks_end false ∷ []))) l w
            ≡ done (record l' { writing = not (is_some m) }) w'')
        × (run_is_over (record l' { writing = not (is_some m) }) ≡ is_some m)
  unfolding take_turns
  take_turns-waits ts now nanos p l w a b k e =
      let l' : Loops = record l { reading = false } in
      let w' = without_reading ts w in
      let quiet = take_turns-stuck ts [] l' w (refl, k, b) e in
      let last : take_turns (sends p false ∷ []) l' w'
          ≡ done (record l' { writing = not (is_some (write_next c w').1) }) (write_next c w').0 =
        rw (sends-stuck p false l' w' (refl, k, b)) (ground arith) in
      (
        rw (read_fails now nanos l w a k)
            (ap (λ ts. take_turns ts l' w) (sym (append-nil ts)) ∙ quiet),
        ground (arith, b),
        rw (read_fails now nanos l w a k)
            (take_turns-stuck ts (sends p false ∷ []) l' w (refl, k, b) e ∙ last),
        ground arith,
      )
