-- ===== src/Queue/Invariant/Inspect/One.antt =====
-- RunTask, ArchiveTask, DeleteTask and UpdateTaskPayload keep the invariants (internal/rdb/inspect.go).
use asynq.Common.{
  ℕ, ◌<◌, ◌≡◌, refl, Bool, true, false, Option, none, some, arith, if◌then◌else◌, count,
  erase_parts,
}
use asynq.Redis.{Redis}
use asynq.Redis.Laws.{count-lrem}
use asynq.Task.{
  TaskState, active, pending, scheduled, retry, archived, completed, aggregating, TaskHash, code,
  update, state_code, is_marked,
}
use asynq.Queue.{Queue, SetNames}
use asynq.Queue.Inspect.{Answer, state_out, on_queue}
use asynq.Queue.Inspect.Run.{run_out, run_state, run_hash, run_task_cmd, run_task}
use asynq.Queue.Inspect.Bury.{
  bury_out, pending_out_first, archive_state, archive_hash, archive_task_cmd, archive_task,
}
use asynq.Queue.Inspect.Erase.{
  erase_out, pending_out, delete_state, delete_hash, delete_task_cmd, delete_task, update_state,
  update_hash, update_task_payload_cmd,
}
use asynq.Queue.Invariant.Inspect.{
  Out, Gone, Both, state_out-Out, made_pending-Both, buried-Both, erased-Both,
}

-- Either branch of a test.
pub if-Both :
    {R : Redis} {B : Type 0} (names : SetNames) (b : Bool) (x y : Queue R × B)
    → Both names x.0
    → Both names y.0
    → Both names (if b then x else y).0
if-Both names true x y hx hy = hx
if-Both names false x y hx hy = hy

pub on_queue-Both :
    {R : Redis} (names : SetNames) (exists : Bool) (q : Queue R) (r : Queue R × Answer)
    → Both names q
    → Both names r.0
    → Both names (on_queue exists q r).0
on_queue-Both names true q r hq hr = hr
on_queue-Both names false q r hq hr = hq

module _ {R : Redis} (names : SetNames) (q : Queue R) (both : Both names q) (id : ℕ) where
  -- A guard that refuses.
  unless-Out :
      (b : Bool) (q' : Queue R) → Gone names q q' id → Out names q id (if b then none else some q')
  unless-Out true q' h = tt
  unless-Out false q' h = h

  pub pending_out-Out : state_code (q.tasks id) ≡ 2 → Out names q id (pending_out q id)
  unfolding pending_out
  pending_out-Out e = unless-Out _ _ (record {
    rest = λ j ne. ground (arith, both.0 j, count-lrem R j id q.pending);
    free = ground (arith, both.0 id, count-lrem R id id q.pending);
    groups_rest = λ j g k k' ne. ground (arith, both.1 j g k k');
    groups_free = λ g k. ground (arith, both.1 id g k k);
  })

  pending_out_first-Out : state_code (q.tasks id) ≡ 2 → Out names q id (pending_out_first q id)
  unfolding pending_out_first
  pending_out_first-Out e =
      let there : 0 < count id q.pending = ground (arith, both.0 id) in
      let parts = (erase_parts id q.pending there).1 in
      unless-Out _ _ (record {
        rest = λ j ne. ground (arith, both.0 j, R.lrem_first_law id q.pending, parts j);
        free = ground (arith, both.0 id, R.lrem_first_law id q.pending, parts id);
        groups_rest = λ j g k k' ne. ground (arith, both.1 j g k k');
        groups_free = λ g k. ground (arith, both.1 id g k k);
      })

  run_out-Both : (r : Option (Queue R)) → Out names q id r → Both names (run_out q id r).0
  run_out-Both none o = both
  run_out-Both (some q') o = made_pending-Both names o

  bury_out-Both :
      (now cutoff max_size : ℕ) (r : Option (Queue R))
      → Out names q id r
      → Both names (bury_out q id now cutoff max_size r).0
  bury_out-Both now cutoff max_size none o = both
  bury_out-Both now cutoff max_size (some q') o = buried-Both names o now cutoff max_size

  erase_out-Both : (r : Option (Queue R)) → Out names q id r → Both names (erase_out q id r).0
  erase_out-Both none o = both
  erase_out-Both (some q') o = erased-Both names o

  -- The hash that was read names the state and the group.
  pub state_read :
      (h : TaskHash) (s : TaskState)
      → q.tasks id ≡ some h
      → h.state ≡ some s
      → Out names q id (state_out q id h.group s)
  state_read h s e es = state_out-Out names q both.0 both.1 id h.group s (rw e (rw es)) (rw e)

  pub code_read :
      (h : TaskHash) (s : TaskState)
      → q.tasks id ≡ some h
      → h.state ≡ some s
      → state_code (q.tasks id) ≡ code s
  code_read h s e es = rw e (rw es)

  run_state-Both :
      (h : TaskHash) (s : Option TaskState)
      → q.tasks id ≡ some h
      → h.state ≡ s
      → Both names (run_state q id h s).0
  unfolding run_state
  run_state-Both h none e es = both
  run_state-Both h (some active) e es = both
  run_state-Both h (some pending) e es = both
  run_state-Both h (some scheduled) e es = run_out-Both _ (state_read h _ e es)
  run_state-Both h (some retry) e es = run_out-Both _ (state_read h _ e es)
  run_state-Both h (some archived) e es = run_out-Both _ (state_read h _ e es)
  run_state-Both h (some completed) e es = run_out-Both _ (state_read h _ e es)
  run_state-Both h (some aggregating) e es = run_out-Both _ (state_read h _ e es)

  run_hash-Both : (x : Option TaskHash) → q.tasks id ≡ x → Both names (run_hash q id x).0
  unfolding run_hash
  run_hash-Both none e = both
  run_hash-Both (some h) e = run_state-Both h h.state e refl

  archive_state-Both :
      (now cutoff max_size : ℕ) (h : TaskHash) (s : Option TaskState)
      → q.tasks id ≡ some h
      → h.state ≡ s
      → Both names (archive_state q id now cutoff max_size h s).0
  unfolding archive_state
  archive_state-Both n c m h none e es = both
  archive_state-Both n c m h (some active) e es = both
  archive_state-Both n c m h (some archived) e es = both
  archive_state-Both n c m h (some pending) e es =
      bury_out-Both n c m _ (pending_out_first-Out (code_read h _ e es))
  archive_state-Both n c m h (some scheduled) e es = bury_out-Both n c m _ (state_read h _ e es)
  archive_state-Both n c m h (some retry) e es = bury_out-Both n c m _ (state_read h _ e es)
  archive_state-Both n c m h (some completed) e es = bury_out-Both n c m _ (state_read h _ e es)
  archive_state-Both n c m h (some aggregating) e es = bury_out-Both n c m _ (state_read h _ e es)

  archive_hash-Both :
      (now cutoff max_size : ℕ) (x : Option TaskHash)
      → q.tasks id ≡ x
      → Both names (archive_hash q id now cutoff max_size x).0
  unfolding archive_hash
  archive_hash-Both n c m none e = both
  archive_hash-Both n c m (some h) e =
      if-Both names (is_marked (some h)) _ _ both (archive_state-Both n c m h h.state e refl)

  delete_state-Both :
      (h : TaskHash) (s : Option TaskState)
      → q.tasks id ≡ some h
      → h.state ≡ s
      → Both names (delete_state q id h s).0
  unfolding delete_state
  delete_state-Both h none e es = both
  delete_state-Both h (some active) e es = both
  delete_state-Both h (some pending) e es = erase_out-Both _ (pending_out-Out (code_read h _ e es))
  delete_state-Both h (some scheduled) e es = erase_out-Both _ (state_read h _ e es)
  delete_state-Both h (some retry) e es = erase_out-Both _ (state_read h _ e es)
  delete_state-Both h (some archived) e es = erase_out-Both _ (state_read h _ e es)
  delete_state-Both h (some completed) e es = erase_out-Both _ (state_read h _ e es)
  delete_state-Both h (some aggregating) e es = erase_out-Both _ (state_read h _ e es)

  delete_hash-Both : (x : Option TaskHash) → q.tasks id ≡ x → Both names (delete_hash q id x).0
  unfolding delete_hash
  delete_hash-Both none e = both
  delete_hash-Both (some h) e =
      if-Both names (is_marked (some h)) _ _ both (delete_state-Both h h.state e refl)

  -- Only the message changes.
  new_message :
      (data_ : ℕ) (h : TaskHash)
      → q.tasks id ≡ some h
      → Both names (record q { tasks = update q.tasks id (some (record h { msg = some data_ })) })
  new_message data_ h e =
      (λ j. ground (arith, both.0 j, e), λ j g k k'. ground (arith, both.1 j g k k', e))

  update_state-Both :
      (data_ : ℕ) (h : TaskHash) (s : Option TaskState)
      → q.tasks id ≡ some h
      → Both names (update_state q id data_ h s).0
  unfolding update_state
  update_state-Both data_ h none e = both
  update_state-Both data_ h (some active) e = both
  update_state-Both data_ h (some pending) e = both
  update_state-Both data_ h (some scheduled) e = new_message data_ h e
  update_state-Both data_ h (some retry) e = both
  update_state-Both data_ h (some archived) e = both
  update_state-Both data_ h (some completed) e = both
  update_state-Both data_ h (some aggregating) e = both

  update_hash-Both :
      (data_ : ℕ) (x : Option TaskHash) → q.tasks id ≡ x → Both names (update_hash q id data_ x).0
  unfolding update_hash
  update_hash-Both data_ none e = both
  update_hash-Both data_ (some h) e =
      if-Both names (is_marked (some h)) _ _ both (update_state-Both data_ h h.state e)

  pub run_task-Both : (exists : Bool) → Both names (run_task exists q id).0
  unfolding run_task run_task_cmd
  run_task-Both exists = on_queue-Both names exists q _ both (run_hash-Both (q.tasks id) refl)

  pub archive_task-Both :
      (exists : Bool) (now cutoff max_size : ℕ)
      → Both names (archive_task exists q id now cutoff max_size).0
  unfolding archive_task archive_task_cmd
  archive_task-Both exists n c m =
      on_queue-Both names exists q _ both (archive_hash-Both n c m (q.tasks id) refl)

  pub delete_task-Both : (exists : Bool) → Both names (delete_task exists q id).0
  unfolding delete_task delete_task_cmd
  delete_task-Both exists = on_queue-Both names exists q _ both (delete_hash-Both (q.tasks id) refl)

  pub update_task_payload_cmd-Both : (data_ : ℕ) → Both names (update_task_payload_cmd q id data_).0
  unfolding update_task_payload_cmd
  update_task_payload_cmd-Both data_ = update_hash-Both data_ (q.tasks id) refl
