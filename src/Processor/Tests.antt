-- ===== src/Processor/Tests.antt =====
-- The processor's properties on concrete inputs.
use asynq.Common.{
  ℕ, ◌+◌, ◌*◌, ◌<◌, ◌≤◌, ◌≡◌, ◌⊎◌, ◌==◌, refl, Bool, true, List, [], ◌∷◌, Option, none, some, arith,
  count,
}
use asynq.Processor.Priority.{gcd, gcd_from, gcd_two, gcd_loop, lt_acc, normalize_queues, names}
use asynq.Client.{second, default_timeout}
use asynq.Processor.Deadline.{compute_deadline, compute_deadline_lem}
use asynq.Processor.Worker.{Call, archive, Message, World}

-- Three queues, critical, default and low, at the priorities 6, 4 and 2.
abbrev three : List (ℕ × ℕ)
three = (1, 6) ∷ (2, 4) ∷ (3, 2) ∷ []

three_gcd : gcd (6 ∷ 4 ∷ 2 ∷ []) ≡ some 2
unfolding gcd gcd_from gcd_two gcd_loop lt_acc
three_gcd = refl

three_normalized : normalize_queues three ≡ some ((1, 3) ∷ (2, 2) ∷ (3, 1) ∷ [])
unfolding normalize_queues gcd gcd_from gcd_two gcd_loop lt_acc
three_normalized = refl

once_each : (j : ℕ) → count j (names three) ≤ 1
once_each j = ground arith

-- A task with a timeout of 5 seconds and a deadline at second 100, seen 10.5 seconds after 1970.
compute_deadline_lem_example :
    let t = compute_deadline (λ n. n) 10500000000 5 100 in
    (0 < 5 → t ≤ 10500000000 + 5 * second)
    × (0 < 100 → t ≤ 100 * second)
    × ((10500000000 + 5 * second < t + second)
        ⊎ (t ≡ 100 * second)
        ⊎ (t ≡ 10500000000 + default_timeout))
    × (5 + 100 ≡ 0 → t ≡ 10500000000 + default_timeout)
compute_deadline_lem_example =
    compute_deadline_lem (λ n. n) 10500000000 5 100 (λ n h. refl) (omega arith) (omega arith)

-- Errors are numbers: 1 revokes, 2 skips retries, 3 is no failure, 7 says that the archive is refused,
-- and 9 that the lease is gone.
abbrev world : Bool → (Call → Option ℕ) → World ℕ
world is_valid answer = record {
  valid = λ look. is_valid;
  answer = answer;
  hook = none;
  ctx_err = none;
  is_revoke = λ e. e == 1;
  is_skip = λ e. e == 2;
  is_failure = λ e. true;
  is_refused = λ e. e == 7;
  lease_expired = 9;
}

abbrev silent : Call → Option ℕ
silent c = none

abbrev no_archive : Call → Option ℕ
no_archive archive = some 7
no_archive c = none

-- The last of 25 retries has been used.
abbrev last_try : Message
last_try = record { retried = 25; retry = 25; retention = 0 }
