-- ===== src/Tests/Timers.antt =====
-- A wheel with two tasks.
use long_gw.Base.{ℕ, ◌≡◌, not, Str, keep, lit, true}
use long_gw.Timer.{Task, Wheel, schedule, pop_due, new_wheel, ack_timeout}
use long_gw.Timer.Queue.{IsOrdered, wheel-IsOrdered, is_due, is_later, pop_due-exact}

abbrev task_of : Str → ℕ → Task ℕ
task_of key due = record {
  key = key;
  kind = ack_timeout;
  due_at = due;
  payload = 1;
  has_handler = true;
}

abbrev ping_task : Task ℕ
ping_task = task_of (lit "p") 10

abbrev ack_task : Task ℕ
ack_task = task_of (lit "a") 8

abbrev empty_wheel : Wheel ℕ
empty_wheel = new_wheel

abbrev one_task : Wheel ℕ
one_task = (schedule 5 ping_task empty_wheel).0

abbrev two_tasks : Wheel ℕ
two_tasks = (schedule 5 ack_task one_task).0

empty_wheel-IsOrdered : IsOrdered empty_wheel.queue
unfolding new_wheel
empty_wheel-IsOrdered = tt

pop_due-exact_example :
    ((pop_due 20 two_tasks).1 ≡ keep (is_due 20) two_tasks.queue)
    × (keep (λ x. not x.cancelled) (pop_due 20 two_tasks).0.queue
        ≡ keep (is_later 20) two_tasks.queue)
pop_due-exact_example = pop_due-exact 20 two_tasks (
    (wheel-IsOrdered 5 ack_task (lit "p") one_task
      (wheel-IsOrdered 5 ping_task (lit "p") empty_wheel empty_wheel-IsOrdered).0).0)
