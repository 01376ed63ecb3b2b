-- ===== src/Rdb/Named.antt =====
-- The name of a queue that has tasks is in the set of queues, as long as only the broker's methods
-- change the queue.
use asynq.Common.{
  ℕ, ◌+◌, ◌*◌, ◌≡◌, refl, Bool, true, false, List, [], ◌∷◌, Option, none, some, arith, ◌==◌,
  if◌then◌else◌, Bool-cases, inl, inr, ◌⊎◌,
}
use asynq.Redis.{Redis}
use asynq.Task.{state_code}
use asynq.Queue.{Queue, SetNames, Added, Reply}
use asynq.Queue.Invariant.{Inv}
use asynq.Queue.Steps.{Reach, here, no_keys}
use asynq.Queue.Steps.Kept.{Reach-Inv}
use asynq.Rdb.{
  Outside, Db, BrokerError, unique_as, unique_error, unix, lease_duration, added_as, run_script,
  run_encoded, enqueue, enqueue_unique, schedule, schedule_unique, add_to_group,
  add_to_group_unique, done, mark_as_complete, retry, archive, requeue, extend_leases, write_result,
}
use asynq.Rdb.Calls.{
  Call, enqueue_call, enqueue_unique_call, schedule_call, schedule_unique_call, group_call,
  group_unique_call, done_call, complete_call, retry_call, archive_call, requeue_call, extend_call,
  result_call, dequeue_call, forward_call, clean_call, called, all_called, called-Reach,
}
use asynq.Rdb.Idle.{
  Idle, done-Idle, done_unique-Idle, complete-Idle, complete_unique-Idle, retry-Idle, archive-Idle,
  requeue-Idle, write_result-Idle, dequeue-Idle, forward-Idle, clean-Idle, tasks-extend_lease,
}

module _ {R : Redis} where
  -- Either the name is there, or nothing is.
  record Named (db : Db R) : Type 0 where
    seen : db.published ≡ true → db.in_all_queues ≡ true
    unnamed : db.in_all_queues ≡ false → Idle db.q

  added_as-Named :
      (db : Db R) (encoded : Option ℕ) (error_of : Added → Option BrokerError)
      (script : Queue R → ℕ → Queue R × Added)
      → Named db
      → Named (added_as db encoded error_of script).0
  unfolding added_as
  added_as-Named db none error_of script n = n
  added_as-Named db (some data_) error_of script n = record {
    seen = ground (arith, n);
    unnamed = λ e. absurd (ground (arith, n));
  }

  unique_as-Named :
      (db : Db R) (encoded : Option ℕ) (ttl : ℕ) (script : Queue R → ℕ → Queue R × Added)
      → Named db
      → Named (unique_as db encoded ttl script).0
  unfolding unique_as
  unique_as-Named db none ttl script n = n
  unique_as-Named db (some data_) ttl script n =
      let named = added_as-Named db (some data_) unique_error script n in
      elim (Bool-cases (unix ttl == 0)) [
        | inl e ↦
            rw e record { seen = ground (arith, n); unnamed = λ e'. absurd (ground (arith, n)) }
        | inr e ↦ rw e named
      ]

  run_script-Named :
      (db : Db R) (r : Queue R × Reply)
      → Named db
      → (Idle db.q → Idle r.0)
      → Named (run_script db r).0
  unfolding run_script
  run_script-Named db r n keeps = record { seen = n.seen; unnamed = λ e. keeps (n.unnamed e) }

  run_encoded-Named :
      (db : Db R) (encoded : Option ℕ) (script : ℕ → Queue R × Reply)
      → Named db
      → ((data_ : ℕ) → Idle db.q → Idle (script data_).0)
      → Named (run_encoded db encoded script).0
  unfolding run_encoded
  run_encoded-Named db none script n keeps = n
  run_encoded-Named db (some data_) script n keeps =
      run_script-Named db (script data_) n (keeps data_)

  either-Idle :
      (b : Bool) (x y : Queue R × Reply) → Idle x.0 → Idle y.0 → Idle (if b then x else y).0
  either-Idle true x y ix iy = ix
  either-Idle false x y ix iy = iy

module _ {R : Redis} (out : Outside) where
  called-Named : (db : Db R) (c : Call) → Inv db.q → Named db → Named (called out db c)
  unfolding enqueue enqueue_unique schedule schedule_unique add_to_group add_to_group_unique done
      mark_as_complete retry archive requeue extend_leases write_result
  called-Named db (enqueue_call now msg) inv n = added_as-Named db _ _ _ n
  called-Named db (enqueue_unique_call now msg ttl) inv n = unique_as-Named db _ ttl _ n
  called-Named db (schedule_call msg at) inv n = added_as-Named db _ _ _ n
  called-Named db (schedule_unique_call msg at ttl) inv n = unique_as-Named db _ ttl _ n
  called-Named db (group_call now msg g) inv n = added_as-Named db _ _ _ n
  called-Named db (group_unique_call now msg g ttl) inv n = unique_as-Named db _ ttl _ n
  called-Named db (done_call now msg) inv n = run_script-Named db _ n λ i.
      either-Idle (msg.unique_key == 0) _ _ (done-Idle db.q inv i msg.id _ _)
        (done_unique-Idle db.q inv i msg.id _ _ msg.unique_key)
  called-Named db (complete_call now msg) inv n = run_encoded-Named db _ _ n λ data_ i.
      either-Idle (msg.unique_key == 0) _ _ (complete-Idle db.q inv i msg.id _ _ _ data_)
        (complete_unique-Idle db.q inv i msg.id _ _ _ data_ msg.unique_key)
  called-Named db (retry_call now msg at err failure) inv n =
      run_encoded-Named db _ _ n λ data_ i. retry-Idle db.q inv i msg.id data_ _ _ _ failure
  called-Named db (archive_call now msg err) inv n =
      run_encoded-Named db _ _ n λ data_ i. archive-Idle db.q inv i msg.id data_ _ _ _ _ _
  called-Named db (requeue_call msg) inv n =
      run_script-Named db _ n λ i. requeue-Idle db.q inv i msg.id
  called-Named db (extend_call now ids) inv n = record {
    seen = n.seen;
    unnamed = λ e j. ground (
      arith,
      tasks-extend_lease db.q (unix (now + lease_duration * 1000000000)) ids,
      n.unnamed e j,
    );
  }
  called-Named db (result_call id data_) inv n =
      run_script-Named db _ n λ i. write_result-Idle db.q inv i id data_
  called-Named db (dequeue_call now) inv n = record {
    seen = n.seen;
    unnamed = λ e. dequeue-Idle db.q inv (n.unnamed e) _;
  }
  called-Named db (forward_call key now) inv n = record {
    seen = n.seen;
    unnamed = λ e. forward-Idle db.q inv (n.unnamed e) key _ now;
  }
  called-Named db (clean_call now batch_size) inv n = record {
    seen = n.seen;
    unnamed = λ e. clean-Idle db.q inv (n.unnamed e) _ batch_size;
  }

  all_called_lem :
      (names : SetNames) (db : Db R) (calls : List Call)
      → Reach names (no_keys R) db.q
      → Named db
      → Reach names (no_keys R) (all_called out db calls).q × Named (all_called out db calls)
  all_called_lem names db [] r n = (r, n)
  all_called_lem names db (c ∷ cs) r n =
      all_called_lem names (called out db c) cs (called-Reach out names (no_keys R) db c r)
        (called-Named db c (Reach-Inv names r) n)

  abbrev pub fresh : Db R
  fresh = record { q = no_keys R; in_all_queues = false; published = false }

  fresh-Named : Named fresh
  fresh-Named = record { seen = ground arith; unnamed = λ e j. refl }

  -- Any sequence of these calls, from no keys and a process that has published no queue: Enqueue,
  -- EnqueueUnique, Schedule, ScheduleUnique, AddToGroup, AddToGroupUnique, Dequeue, Done,
  -- MarkAsComplete, Retry, Archive, Requeue, ExtendLease, WriteResult, and one run of forwardCmd or of
  -- deleteExpiredCompletedTasksCmd. It is a history of the queue's scripts, so that the queue's invariants hold after it; and if any task then
  -- has a state, the queue's name is in the set of queues.
  pub all_called-Reach :
      (names : SetNames) (calls : List Call)
      → let db = all_called out fresh calls in
        Reach names (no_keys R) db.q
        × ((db.in_all_queues ≡ true) ⊎ ((j : ℕ) → state_code (db.q.tasks j) ≡ 0))
  all_called-Reach names calls =
      let end = all_called_lem names fresh calls here fresh-Named in
      (
        end.0,
        elim (Bool-cases (all_called out fresh calls).in_all_queues) [
          | inl e ↦ inl e
          | inr e ↦ inr (end.1.unnamed e)
        ],
      )
