-- ===== src/Processor/Deadline.antt =====
-- computeDeadline (processor.go): times in nanoseconds since 1970, the timeout and the deadline of a
-- task in seconds. `float64` is the conversion of Go and back: exact up to 2^53.
use asynq.Common.{
  ℕ, ◌+◌, ◌*◌, ◌/◌, ◌^◌, ◌≤◌, ◌<◌, ◌≡◌, ◌⊎◌, min, ◌&&◌, arith, ◌==◌, not, if◌then◌else◌,
}
use asynq.Client.{second, default_timeout}

unfoldable pub compute_deadline : (ℕ → ℕ) → ℕ → ℕ → ℕ → ℕ
compute_deadline float64 now timeout deadline =
    if timeout == 0 && deadline == 0
    then now + default_timeout
    else if not (timeout == 0) && not (deadline == 0)
    then min (float64 (now / second + timeout)) (float64 deadline) * second
    else if not (timeout == 0)
    then now + timeout * second
    else deadline * second

-- Where the seconds are numbers that floating point has exactly, a task stops no later than its
-- timeout and its deadline allow, and at one of them, or half an hour from now, or less than a second
-- before its timeout; half an hour from now where it has neither.
pub compute_deadline_lem :
    (float64 : ℕ → ℕ) (now timeout deadline : ℕ)
    → ((n : ℕ) → n ≤ 2 ^ 53 → float64 n ≡ n)
    → now / second + timeout ≤ 2 ^ 53
    → deadline ≤ 2 ^ 53
    → let t = compute_deadline float64 now timeout deadline in
      (0 < timeout → t ≤ now + timeout * second)
      × (0 < deadline → t ≤ deadline * second)
      × ((now + timeout * second < t + second)
          ⊎ (t ≡ deadline * second)
          ⊎ (t ≡ now + default_timeout))
      × (timeout + deadline ≡ 0 → t ≡ now + default_timeout)
unfolding compute_deadline
compute_deadline_lem float64 now timeout deadline exact h h' =
    ground (arith, exact (now / second + timeout), exact deadline)
