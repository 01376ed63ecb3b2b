-- ===== src/Rdb/Life.antt =====
-- The life of a unique task: it is enqueued, taken and ended.
use asynq.Common.{
  ℕ, ◌+◌, ◌≡◌, refl, ◌∙◌, ap, true, false, [], none, some, arith, ◌==◌, is_some, count,
}
use asynq.Redis.{Redis}
use asynq.Redis.Laws.{count-lpush, count-lrem, lrem_reply, holds-zadd}
use asynq.Task.{msg_of, written, update, pending}
use asynq.Queue.{Queue, ok, added, incr_total}
use asynq.Queue.Enqueue.{enqueue_unique_cmd}
use asynq.Queue.Work.{dequeue_cmd, popped, take_task}
use asynq.Queue.Finish.{done_unique_cmd}
use asynq.Queue.Invariant.{Inv}
use asynq.Rdb.{
  unique_as, TaskMessage, Outside, Db, duplicate_task, unix, day_of, stats_ttl, run_error,
  enqueue_unique, done, publish, added_as, run_script,
}

module _ {R : Redis} (q : Queue R) where
  -- The id that was pushed onto an empty list is popped from it.
  rpop-lpush : (id : ℕ) → R.rpop (R.lpush id []) ≡ some (id, [])
  rpop-lpush id = ap R.rpop (R.lpush_law id []) ∙ R.rpop_last id []

  pub taken :
      (id lease_at : ℕ)
      → q.paused ≡ false
      → q.pending ≡ R.lpush id []
      → dequeue_cmd q lease_at ≡ (take_task q lease_at id [], msg_of (q.tasks id))
  unfolding dequeue_cmd popped
  taken id lease_at e p = rw e (rw p (rw (rpop-lpush id) refl))

module _ {R : Redis} (q : Queue R) (key id ttl data_ now : ℕ) where
  -- The task is pending under its key, and then active.
  abbrev pub locked : Queue R
  locked = record q {
    locks = update q.locks key (some (record { owner = id; ttl = ttl }));
    tasks = update q.tasks id (
        written
          (λ h. record h {
            msg = some data_;
            state = some pending;
            pending_since = some now;
            unique_key = some key;
          })
          none);
    pending = R.lpush id [];
  }

  pub enqueued :
      q.pending ≡ []
      → q.locks key ≡ none
      → q.tasks id ≡ none
      → enqueue_unique_cmd q key id ttl data_ now ≡ (locked, added)
  unfolding enqueue_unique_cmd
  enqueued p l t = rw p (rw l (rw t refl))

  pub dequeued :
      (lease_at : ℕ)
      → q.paused ≡ false
      → dequeue_cmd locked lease_at ≡ (take_task locked lease_at id [], some data_)
  dequeued lease_at p = taken locked id lease_at p refl ∙ ground arith

  -- What Done leaves.
  pub ended :
      (lease_at day expire : ℕ)
      → Inv q
      → q.tasks id ≡ none
      → let f = done_unique_cmd (take_task locked lease_at id []) id day expire key in
        (f.1 ≡ ok)
        × (f.0.tasks id ≡ none)
        × (f.0.locks key ≡ none)
        × (f.0.pending ≡ [])
        × (count id f.0.active ≡ 0)
        × (f.0.processed ≡ incr_total q.processed)
  unfolding done_unique_cmd take_task
  ended lease_at day expire inv t = ground (
    arith,
    inv id,
    t,
    lrem_reply R id (R.lpush id q.active),
    count-lrem R id id (R.lpush id q.active),
    count-lpush R id id q.active,
    holds-zadd R id lease_at id q.lease,
  )

module _ {R : Redis} (out : Outside) (db : Db R) (msg : TaskMessage) where
  q-publish : (publish db).q ≡ db.q
  q-publish = ground arith

  accepted :
      (now ttl data_ : ℕ)
      → db.q.pending ≡ []
      → db.q.locks msg.unique_key ≡ none
      → db.q.tasks msg.id ≡ none
      → out.encode_message msg ≡ some data_
      → (unix ttl == 0) ≡ false
      → enqueue_unique out db now msg ttl
        ≡ (record (publish db) { q = locked db.q msg.unique_key msg.id (unix ttl) data_ now }, none)
  unfolding enqueue_unique unique_as added_as
  accepted now ttl data_ p l t e some_time = ground (
    arith,
    e,
    some_time,
    q-publish,
    enqueued db.q msg.unique_key msg.id (unix ttl) data_ now p l t,
  )

  refused :
      (now ttl data_ : ℕ)
      → is_some (db.q.locks msg.unique_key) ≡ true
      → out.encode_message msg ≡ some data_
      → (unix ttl == 0) ≡ false
      → ((enqueue_unique out db now msg ttl).1 ≡ some duplicate_task)
        × ((enqueue_unique out db now msg ttl).0.q ≡ db.q)
  unfolding enqueue_unique unique_as added_as enqueue_unique_cmd
  refused now ttl data_ l e some_time = ground (arith, e, l, some_time, q-publish)

module _ {R : Redis} (out : Outside) (db : Db R) (msg : TaskMessage) where
  -- A task with a unique key that is enqueued, for a second at least, into an empty queue which keeps the
  -- invariant, where neither its key is locked nor its id is there, is accepted. As long as its lock has
  -- not expired, another message with that unique key is refused as a duplicate and changes no key of
  -- the queue, both while the task is pending and once it is active. The next Dequeue returns its
  -- message; and Done then replies with no error, deletes the task, counts it as processed, leaves the
  -- queue empty and gives the lock back, so that the key is free again.
  pub unique_life :
      (now ttl lease_at later data_ : ℕ) (other : TaskMessage) (other_data : ℕ)
      → Inv db.q
      → db.q.paused ≡ false
      → db.q.pending ≡ []
      → (msg.unique_key == 0) ≡ false
      → db.q.locks msg.unique_key ≡ none
      → db.q.tasks msg.id ≡ none
      → out.encode_message msg ≡ some data_
      → out.encode_message other ≡ some other_data
      → other.unique_key ≡ msg.unique_key
      → (unix ttl == 0) ≡ false
      → let e = enqueue_unique out db now msg ttl in
        let d = dequeue_cmd e.0.q lease_at in
        let early = enqueue_unique out e.0 now other ttl in
        let again = enqueue_unique out (record e.0 { q = d.0 }) now other ttl in
        let f = done out (record e.0 { q = d.0 }) later msg in
        (e.1 ≡ none)
        × (early.1 ≡ some duplicate_task)
        × (early.0.q ≡ e.0.q)
        × (again.1 ≡ some duplicate_task)
        × (again.0.q ≡ d.0)
        × (d.1 ≡ some data_)
        × (f.1 ≡ none)
        × (f.0.q.tasks msg.id ≡ none)
        × (f.0.q.locks msg.unique_key ≡ none)
        × (f.0.q.pending ≡ [])
        × (count msg.id f.0.q.active ≡ 0)
        × (f.0.q.processed ≡ incr_total db.q.processed)
  unfolding done run_script
  unique_life now ttl lease_at later data_ other other_data inv p0 p1 k l t e o same some_time =
      let q₁ = locked db.q msg.unique_key msg.id (unix ttl) data_ now in
      let q₂ =
        take_task (locked db.q msg.unique_key msg.id (unix ttl) data_ now) lease_at msg.id [] in
      rw (accepted out db msg now ttl data_ p1 l t e some_time) (
        rw (dequeued db.q msg.unique_key msg.id (unix ttl) data_ now lease_at p0) (
          let locked_before : is_some (q₁.locks msg.unique_key) ≡ true = ground arith in
          let locked_there : is_some (q₂.locks msg.unique_key) ≡ true =
            unfold take_task in ground arith in
          let r =
            refused out (record (publish db) { q = q₂ }) other now ttl other_data
              (rw same locked_there) o some_time in
          let r₁ =
            refused out (record (publish db) { q = q₁ }) other now ttl other_data
              (rw same locked_before) o some_time in
          let day = day_of later in
          let expire = unix later + stats_ttl in
          let f = ended db.q msg.unique_key msg.id (unix ttl) data_ now lease_at day expire inv t in
          (
            refl,
            r₁.0,
            r₁.1,
            r.0,
            r.1,
            refl,
            rw k (ap run_error f.0),
            rw k f.1,
            rw k f.2,
            rw k f.3,
            rw k f.4,
            rw k f.5,
          )))
