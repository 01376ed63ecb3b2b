-- ===== src/Lease/Tests.antt =====
-- A lease until 10 that its worker is told about at 11.
use asynq.Common.{arith}
use asynq.Lease.{new_lease, notify_expiration}
use asynq.Lease.Expiry.{Reach, made, notifies}

told : Reach 10 (notify_expiration (new_lease 10) 11).0 11
told = notifies 11 (made 5) (omega arith)
