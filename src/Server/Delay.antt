-- ===== src/Server/Delay.antt =====
-- The delays of DefaultRetryDelayFunc (server.go).
use native.Mathlib.Nat.{mul-le-mul, mul-le-mul_right}
use asynq.Common.{
  ℕ, ◌+◌, ◌*◌, ◌^◌, ◌≤◌, ◌<◌, ◌≡◌, arith, ◌⊎◌, inl, inr, Bool-cases, ltb→lt, ltb, pos, suc,
}
use asynq.Client.{second}
use asynq.Server.Config.{retry_seconds, int64, default_retry_delay_func}

int64_small : (n : ℕ) → n < 2 ^ 63 → int64 n ≡ pos n
unfolding int64
int64_small n h = ground arith

fourth_le : (n m : ℕ) → n ≤ m → n * n * n * n ≤ m * m * m * m
fourth_le n m h = mul-le-mul (mul-le-mul (mul-le-mul h h) h) h

le_succ : (n : ℕ) → n ≤ 309 → n + 1 ≤ 310
le_succ n h = omega arith

seconds_bound : (n r : ℕ) → n ≤ 309 → r < 30 → retry_seconds n r ≤ 9116630366
unfolding retry_seconds
seconds_bound n r h k = omega (
  arith,
  fourth_le n 309 h,
  mul-le-mul {n₁ = r} {m₁ = n + 1} {n₂ = 29} {m₂ = 310} (omega arith) (le_succ n h),
)

fourth_succ :
    (n : ℕ)
    → suc n * suc n * suc n * suc n ≡ n * n * n * n + 4 * (n * n * n) + 6 * (n * n) + 4 * n + 1
fourth_succ n = grind arith

seconds_min : (n r : ℕ) → 15 ≤ retry_seconds n r
unfolding retry_seconds
seconds_min n r = omega arith

seconds_grow : (n r r' : ℕ) → 3 ≤ n → r < 30 → retry_seconds n r < retry_seconds (suc n) r'
unfolding retry_seconds
seconds_grow n r r' h k = omega (
  arith,
  fourth_succ n,
  mul-le-mul_right {m = 9} {n = n * n} n (mul-le-mul h h),
  mul-le-mul_right {m = r} {n = 29} (n + 1) (omega arith),
)

-- The default delay of a task that was retried 309 times at most fits in 64 bits: it is that many
-- seconds, never negative, at least 15 seconds and less than 292 years. From the third retry on, a
-- later retry waits longer, whatever the random numbers are; the first is less than 30.
pub default_retry_delay_func_lem :
    (n r r' : ℕ)
    → n ≤ 309
    → r < 30
    → (default_retry_delay_func n r ≡ pos (retry_seconds n r * second))
      × (15 ≤ retry_seconds n r)
      × (retry_seconds n r < 292 * 31557600)
      × ((n < 3) ⊎ (retry_seconds n r < retry_seconds (suc n) r'))
unfolding default_retry_delay_func
default_retry_delay_func_lem n r r' h k = (
  int64_small (retry_seconds n r * second) (omega (arith, seconds_bound n r h k)),
  seconds_min n r,
  omega (arith, seconds_bound n r h k),
  elim (Bool-cases (ltb n 3)) [
    | inl e ↦ inl (ltb→lt n 3 e)
    | inr e ↦ inr (seconds_grow n r r' (ground (arith, e)) k)
  ],
)
