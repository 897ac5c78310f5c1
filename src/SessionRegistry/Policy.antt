-- ===== src/SessionRegistry/Policy.antt =====
-- The retry policy, gateway/internal/delivery/retry/retry.go, on the pending entries of a session, and
-- what the registry's own copy of it has to do with it. `PendingEntry` of delivery/ack/retry_task.go
-- has the fields of `pendingEntry`.
use long_gw.Base.{ℕ, ◌+◌, ◌≡◌, Bool, some, Str, ltb, ◌==◌, if◌then◌else◌, arith}
use long_gw.Base.Dict.{lookup}
use long_gw.World.{World, Pending, done, put_msg}
use long_gw.Session.{with_retry_count}
use long_gw.SessionRegistry.{Registry, give_up, try_again, handle_ack_timeout}

-- `Policy`, without the interval, which nothing reads.
pub record Policy : Type 0 where
  pub max_retries : ℕ

-- `DefaultPolicy`
unfoldable pub default_policy : Policy
default_policy = record { max_retries = 5 }

-- `Bump` of an entry whose message is there, which returns the count.
unfoldable pub bump : Pending → World → Pending × ℕ × World
bump e w =
    let n = e.retry_count + 1 in
    (
      record e { retry_count = n; last_retry_at = w.clock },
      n,
      put_msg e.msg (with_retry_count n (w.msgs e.msg)) w,
    )

-- `ShouldGiveUp`
unfoldable pub should_give_up : Pending → Policy → Bool
should_give_up e p =
    ltb (if p.max_retries == 0 then default_policy.max_retries else p.max_retries) e.retry_count

-- A timeout of a message that waits in a session: the registry gives it up exactly where the policy
-- file, with the session's number of retries, gives up the entry counted up once, and tries it again
-- else.
pub handle_ack_timeout-should_give_up :
    (g : Registry) (id m : Str) (s : ℕ) (e : Pending) (w : World)
    → lookup id g.by_id ≡ some s
    → lookup m (w.sessions s).pending_acks ≡ some e
    → handle_ack_timeout g id m w ≡ (
        if should_give_up (bump e w).0 (record { max_retries = (w.sessions s).deps.max_retries })
        then done tt (give_up s m e w)
        else try_again s m e g w)
unfolding handle_ack_timeout should_give_up bump default_policy
handle_ack_timeout-should_give_up g id m s e w h k = ground (arith, h, k)
