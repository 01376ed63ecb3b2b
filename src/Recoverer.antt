-- ===== src/Recoverer.antt =====
-- The recoverer (recoverer.go): tasks whose lease expired half a minute ago or earlier are retried,
-- or archived once their retries are used up. One queue, as in Queue; the messages of several queues
-- are recovered one after the other.
pub mod Leases
mod Tests
use asynq.Common.{ℕ, ◌-◌, Bool, List, [], ◌∷◌, if◌then◌else◌, leb}
use asynq.Redis.{Redis}
use asynq.Queue.{Queue, Reply, archive_unsupported}
use asynq.Queue.Work.{list_lease_expired_cmd}
use asynq.Queue.Finish.{retry_cmd}
use asynq.Queue.Archive.{archive_cmd, max_archive_size}

-- The fields of a task message that the recoverer reads.
pub record TaskMessage : Type 0 where
  pub id : ℕ
  pub retried : ℕ
  pub retry : ℕ

-- What the broker's Retry and Archive work out before they run their scripts: the encoded message,
-- the times, and whether ErrLeaseExpired counts as a failure.
pub record Broker : Type 0 where
  pub decode : ℕ → TaskMessage
  pub retry_data : TaskMessage → ℕ
  pub archive_data : TaskMessage → ℕ
  pub retry_at : TaskMessage → ℕ
  pub is_failure : Bool
  pub died_at : ℕ
  pub archive_cutoff : ℕ
  pub day : ℕ
  pub stats_expire : ℕ

abbrev pub is_refused : Reply → Bool
is_refused archive_unsupported = Bool.true
is_refused reply = Bool.false

module _ {R : Redis} (b : Broker) where
  -- An error is only logged.
  unfoldable pub retry_ : Queue R → TaskMessage → Queue R
  retry_ q msg =
      (retry_cmd q msg.id (b.retry_data msg) (b.retry_at msg) b.day b.stats_expire b.is_failure).0

  unfoldable pub archive_ : Queue R → TaskMessage → Queue R
  unfolding retry_
  archive_ q msg =
      let r =
        archive_cmd q msg.id (b.archive_data msg) b.died_at b.archive_cutoff max_archive_size b.day
          b.stats_expire in
      if is_refused r.1 then retry_ r.0 msg else r.0

  unfoldable pub recover_one : Queue R → TaskMessage → Queue R
  unfolding retry_ archive_
  recover_one q msg = if leb msg.retry msg.retried then archive_ q msg else retry_ q msg

  unfoldable pub recover_each : Queue R → List ℕ → Queue R
  recover_each q [] = q
  recover_each q (data_ ∷ rest) = recover_each (recover_one q (b.decode data_)) rest

  -- The cutoff is 30 seconds ago.
  unfoldable pub recover_lease_expired_tasks : Queue R → ℕ → Queue R
  recover_lease_expired_tasks q now = recover_each q (list_lease_expired_cmd q (now - 30))
