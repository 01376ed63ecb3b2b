-- ===== src/Heartbeat/Tests.antt =====
-- A beat of two workers, of which one has lost its lease, and the theorem at it.
use asynq.Common.{
  ℕ, ◌+◌, ◌*◌, ◌≤◌, ◌≡◌, true, false, not, ◌&&◌, [], ◌∷◌, some, arith, List, if◌then◌else◌, count,
}
use asynq.Redis.{holds}
use asynq.Redis.Model.{model}
use asynq.Queue.Steps.{no_keys}
use asynq.Rdb.{Db, unix, lease_duration}
use asynq.Heartbeat.{Worker, ids_of, Readings, beat}
use asynq.Heartbeat.Beat.{lease_of, is_kept, LeaseAfter, beat_lem}

-- Task 3 has a lease until second 130, task 4 until second 90; it is second 100.
abbrev workers : List Worker
workers =
    record { id = 3; lease = record { expire_at = 130000000000; closed = false } }
    ∷ record { id = 4; lease = record { expire_at = 90000000000; closed = false } }
    ∷ []

abbrev leased : Db model
leased = record {
  q = record (no_keys model) { lease = model.zadd 130 3 (model.zadd 90 4 model.zempty) };
  in_all_queues = true;
  published = true;
}

abbrev at_100 : Readings
at_100 = record {
  check = λ id. 100000000000;
  tell = λ id. 100000000001;
  renew = λ id. 100000000002;
}

different : (k : ℕ) → count k (ids_of workers) ≤ 1
different k = ground arith

beat_lem_example :
    let r = beat at_100 false leased 100000000000 workers in
    let expire_at = 100000000000 + lease_duration * 1000000000 in
    (model.zscore 4 r.0.q.lease ≡ (
      if (not false && is_kept at_100 4 workers) && holds model 4 leased.q.lease
      then some (unix expire_at)
      else model.zscore 4 leased.q.lease))
    × LeaseAfter at_100 false expire_at 4 (lease_of 4 workers) (lease_of 4 r.1)
beat_lem_example = beat_lem at_100 false leased 100000000000 workers different 4 (omega arith)
