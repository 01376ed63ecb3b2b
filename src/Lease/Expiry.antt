-- ===== src/Lease/Expiry.antt =====
-- A lease that has expired stays so (Lease of internal/base/base.go).
use asynq.Common.{ℕ, ◌≤◌, ◌≡◌, true, false, arith}
use asynq.Lease.{Lease, new_lease, is_valid, reset, notify_expiration}

-- The operations on a lease, each at a time no earlier than the last: `t` is the time of the last.
pub data Reach (expiration : ℕ) : Lease → ℕ → Type 0 where
  made : (now : ℕ) → Reach expiration (new_lease expiration) now
  resets :
      {l : Lease} {t : ℕ} (now next : ℕ)
      → Reach expiration l t
      → t ≤ now
      → Reach expiration (reset l now next).0 now
  notifies :
      {l : Lease} {t : ℕ} (now : ℕ)
      → Reach expiration l t
      → t ≤ now
      → Reach expiration (notify_expiration l now).0 now

-- Once the worker has been told that its lease expired, no operation makes the lease valid again,
-- while the clock does not go back.
pub closed_stays :
    {expiration : ℕ} {l : Lease} {t : ℕ} (now : ℕ)
    → Reach expiration l t
    → l.closed ≡ true
    → t ≤ now
    → is_valid l now ≡ false
unfolding is_valid reset notify_expiration
closed_stays now (made t) c h = absurd (ground (arith, c))
closed_stays now (resets {l} t next r le) c h = ground (arith, closed_stays t r, c, le, h)
closed_stays now (notifies {l} t r le) c h = ground (arith, closed_stays t r, c, le, h)
