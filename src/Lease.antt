-- ===== src/Lease.antt =====
-- The lease of a worker on its task (Lease of internal/base/base.go): when it expires, and whether
-- its channel is closed. Times are nanoseconds; each operation reads the clock as `now`.
pub mod Expiry
mod Tests
use asynq.Common.{ℕ, Bool, true, false, if◌then◌else◌, leb}

pub record Lease : Type 0 where
  pub expire_at : ℕ
  pub closed : Bool

abbrev pub new_lease : ℕ → Lease
new_lease expiration = record { expire_at = expiration; closed = false }

unfoldable pub is_valid : Lease → ℕ → Bool
is_valid l now = leb now l.expire_at

-- Reset: whether the lease was still valid, and then its new expiration.
unfoldable pub reset : Lease → ℕ → ℕ → Lease × Bool
unfolding is_valid
reset l now expiration =
    if is_valid l now then (record l { expire_at = expiration }, true) else (l, false)

-- NotifyExpiration: the channel is closed once.
unfoldable pub notify_expiration : Lease → ℕ → Lease × Bool
unfolding is_valid
notify_expiration l now = if is_valid l now then (l, false) else (record l { closed = true }, true)
