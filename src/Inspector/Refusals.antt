-- ===== src/Inspector/Refusals.antt =====
-- What a call of the inspector for one task leaves where it returns an error (inspector.go).
use asynq.Common.{
  ℕ, ◌≡◌, ◌≢◌, refl, ap, ◌∙◌, subst, ◌⊎◌, inl, inr, Bool, true, false, Option, none, some,
  if◌then◌else◌,
}
use asynq.Redis.{Redis}
use asynq.Task.{
  TaskState, active, pending, scheduled, retry, archived, completed, aggregating, TaskHash,
}
use asynq.Queue.{Queue}
use asynq.Queue.Archive.{max_archive_size}
use asynq.Queue.Inspect.{Answer, done, not_found, unsupported, on_queue}
use asynq.Queue.Inspect.Run.{run_out, run_state, run_hash, run_task_cmd}
use asynq.Queue.Inspect.Run
use asynq.Queue.Inspect.Bury.{
  bury_out, archive_state, archive_hash, archive_task_cmd, pending_out_first,
}
use asynq.Queue.Inspect.Bury
use asynq.Queue.Inspect.Erase.{
  erase_out, delete_state, delete_hash, delete_task_cmd, pending_out, update_state, update_hash,
  update_task_payload_cmd,
}
use asynq.Queue.Inspect.Erase
use asynq.Listing.{text}
use asynq.Listing.Stats.{get_task_info, hash_info, decoded_info}
use asynq.Inspector.Changes.{
  InspectorError, invalid_queue_name, err_queue_not_found, err_task_not_found, broker_error,
  task_error, for_task, run_task, delete_task, archive_task, write_payload, update_inspected,
  update_task_payload,
}

-- A call for one task, with what it is given of outside.
pub data TaskCall : Type 0 where
  runs_task deletes_task : TaskCall
  archives_task : (now cutoff : ℕ) → TaskCall
  updates_payload : (payload now : ℕ) → TaskCall

module _ {R : Redis} {M : Type 0} (decode_message : ℕ → Option M) (encode_message : M → Option ℕ)
    (with_payload : M → ℕ → M) where
  abbrev pub task_called : TaskCall → Bool → Bool → Queue R → ℕ → Queue R × Option InspectorError
  task_called runs_task valid exists q id = run_task valid exists q id
  task_called deletes_task valid exists q id = delete_task valid exists q id
  task_called (archives_task now cutoff) valid exists q id =
      archive_task valid exists q id now cutoff
  task_called (updates_payload payload now) valid exists q id =
      update_task_payload decode_message encode_message with_payload valid exists q id payload now

  module _ (q : Queue R) (id : ℕ) where
    -- The task is changed with the answer done, or nothing is, with an error of the broker's.
    abbrev DoneOrSame : Queue R × Answer → Type 0
    DoneOrSame r = (r.1 ≡ done) ⊎ ((r.0 ≡ q) × (task_error r.1 ≡ some (broker_error r.1)))

    -- Or there is no task.
    abbrev AtHash : Option TaskHash → Queue R × Answer → Type 0
    AtHash x r = ((x ≡ none) × (r ≡ (q, not_found))) ⊎ ((x ≢ none) × DoneOrSame r)

    run_out-DoneOrSame : (x : Option (Queue R)) → DoneOrSame (run_out q id x)
    run_out-DoneOrSame none = inr (refl, refl)
    run_out-DoneOrSame (some k) = inl refl

    bury_out-DoneOrSame :
        (now cutoff size : ℕ) (x : Option (Queue R)) → DoneOrSame (bury_out q id now cutoff size x)
    bury_out-DoneOrSame now cutoff size none = inr (refl, refl)
    bury_out-DoneOrSame now cutoff size (some k) = inl refl

    erase_out-DoneOrSame : (x : Option (Queue R)) → DoneOrSame (erase_out q id x)
    erase_out-DoneOrSame none = inr (refl, refl)
    erase_out-DoneOrSame (some k) = inl refl

    run_state-DoneOrSame : (h : TaskHash) (s : Option TaskState) → DoneOrSame (run_state q id h s)
    unfolding run_state
    run_state-DoneOrSame h none = inr (refl, refl)
    run_state-DoneOrSame h (some active) = inr (refl, refl)
    run_state-DoneOrSame h (some pending) = inr (refl, refl)
    run_state-DoneOrSame h (some scheduled) = run_out-DoneOrSame _
    run_state-DoneOrSame h (some retry) = run_out-DoneOrSame _
    run_state-DoneOrSame h (some archived) = run_out-DoneOrSame _
    run_state-DoneOrSame h (some completed) = run_out-DoneOrSame _
    run_state-DoneOrSame h (some aggregating) = run_out-DoneOrSame _

    run_hash-AtHash : (x : Option TaskHash) → AtHash x (run_hash q id x)
    unfolding run_hash
    run_hash-AtHash none = inl (refl, refl)
    run_hash-AtHash (some h) = inr (λ n. cc, run_state-DoneOrSame h h.state)

    unless-DoneOrSame :
        (b : Bool) (r : Queue R × Answer)
        → DoneOrSame r
        → DoneOrSame (if b then (q, unsupported) else r)
    unless-DoneOrSame true r h = inr (refl, refl)
    unless-DoneOrSame false r h = h

    archive_state-DoneOrSame :
        (now cutoff size : ℕ) (h : TaskHash) (s : Option TaskState)
        → DoneOrSame (archive_state q id now cutoff size h s)
    unfolding archive_state
    archive_state-DoneOrSame n c m h none = inr (refl, refl)
    archive_state-DoneOrSame n c m h (some active) = inr (refl, refl)
    archive_state-DoneOrSame n c m h (some archived) = inr (refl, refl)
    archive_state-DoneOrSame n c m h (some pending) = bury_out-DoneOrSame n c m _
    archive_state-DoneOrSame n c m h (some scheduled) = bury_out-DoneOrSame n c m _
    archive_state-DoneOrSame n c m h (some retry) = bury_out-DoneOrSame n c m _
    archive_state-DoneOrSame n c m h (some completed) = bury_out-DoneOrSame n c m _
    archive_state-DoneOrSame n c m h (some aggregating) = bury_out-DoneOrSame n c m _

    archive_hash-AtHash :
        (now cutoff size : ℕ) (x : Option TaskHash) → AtHash x (archive_hash q id now cutoff size x)
    unfolding archive_hash
    archive_hash-AtHash n c m none = inl (refl, refl)
    archive_hash-AtHash n c m (some h) =
        inr (λ n. cc, unless-DoneOrSame _ _ (archive_state-DoneOrSame n c m h h.state))

    delete_state-DoneOrSame :
        (h : TaskHash) (s : Option TaskState) → DoneOrSame (delete_state q id h s)
    unfolding delete_state
    delete_state-DoneOrSame h none = inr (refl, refl)
    delete_state-DoneOrSame h (some active) = inr (refl, refl)
    delete_state-DoneOrSame h (some pending) = erase_out-DoneOrSame _
    delete_state-DoneOrSame h (some scheduled) = erase_out-DoneOrSame _
    delete_state-DoneOrSame h (some retry) = erase_out-DoneOrSame _
    delete_state-DoneOrSame h (some archived) = erase_out-DoneOrSame _
    delete_state-DoneOrSame h (some completed) = erase_out-DoneOrSame _
    delete_state-DoneOrSame h (some aggregating) = erase_out-DoneOrSame _

    delete_hash-AtHash : (x : Option TaskHash) → AtHash x (delete_hash q id x)
    unfolding delete_hash
    delete_hash-AtHash none = inl (refl, refl)
    delete_hash-AtHash (some h) =
        inr (λ n. cc, unless-DoneOrSame _ _ (delete_state-DoneOrSame h h.state))

    update_state-DoneOrSame :
        (data_ : ℕ) (h : TaskHash) (s : Option TaskState) → DoneOrSame (update_state q id data_ h s)
    unfolding update_state
    update_state-DoneOrSame data_ h none = inr (refl, refl)
    update_state-DoneOrSame data_ h (some active) = inr (refl, refl)
    update_state-DoneOrSame data_ h (some pending) = inr (refl, refl)
    update_state-DoneOrSame data_ h (some scheduled) = inl refl
    update_state-DoneOrSame data_ h (some retry) = inr (refl, refl)
    update_state-DoneOrSame data_ h (some archived) = inr (refl, refl)
    update_state-DoneOrSame data_ h (some completed) = inr (refl, refl)
    update_state-DoneOrSame data_ h (some aggregating) = inr (refl, refl)

    update_hash-AtHash : (data_ : ℕ) (x : Option TaskHash) → AtHash x (update_hash q id data_ x)
    unfolding update_hash
    update_hash-AtHash data_ none = inl (refl, refl)
    update_hash-AtHash data_ (some h) =
        inr (λ n. cc, unless-DoneOrSame _ _ (update_state-DoneOrSame data_ h h.state))

    write_payload-AtHash :
        (m : Option ℕ) → q.tasks id ≢ none → AtHash (q.tasks id) (write_payload q id m)
    unfolding write_payload update_task_payload_cmd
    write_payload-AtHash none there = inr (there, inr (refl, refl))
    write_payload-AtHash (some data_) there = update_hash-AtHash data_ (q.tasks id)

    decoded-AtHash :
        (payload now : ℕ) (h : TaskHash) (m : Option M) (s : Option TaskState)
        → q.tasks id ≡ some h
        → AtHash (some h) (
            update_inspected decode_message encode_message with_payload q id payload
              (decoded_info decode_message q id now h m s))
    unfolding update_inspected decoded_info
    decoded-AtHash payload now h none s e = inr (λ n. cc, inr (refl, refl))
    decoded-AtHash payload now h (some m) none e = inr (λ n. cc, inr (refl, refl))
    decoded-AtHash payload now h (some m) (some s) e =
        subst (λ x. AtHash x (write_payload q id (encode_message (with_payload m payload)))) e
          (write_payload-AtHash (encode_message (with_payload m payload)) (λ n. cc))

    inspected-AtHash :
        (payload : ℕ) (x : Option TaskHash) (now : ℕ)
        → q.tasks id ≡ x
        → AtHash x (
            update_inspected decode_message encode_message with_payload q id payload
              (hash_info decode_message q id now x))
    unfolding update_inspected hash_info
    inspected-AtHash payload none now e = inl (refl, refl)
    inspected-AtHash payload (some h) now e =
        decoded-AtHash payload now h (decode_message (text h.msg)) h.state e

    -- What a call for one task comes to, by whether the queue's name is valid and the queue is there.
    abbrev pub Refuses : Bool → Bool → Queue R × Option InspectorError → Type 0
    Refuses false exists x = x ≡ (q, some invalid_queue_name)
    Refuses true false x = x ≡ (q, some err_queue_not_found)
    Refuses true true x =
        ((q.tasks id ≡ none) × (x ≡ (q, some err_task_not_found)))
        ⊎ ((q.tasks id ≢ none) × ((x.1 ≡ none) ⊎ ((a : Answer) × (x ≡ (q, some (broker_error a))))))

    hash-Refuses :
        (r : Queue R × Answer) → AtHash (q.tasks id) r → Refuses true true (for_task true q r)
    hash-Refuses r (inl h) = inl (h.0, ap (λ y. (y.0, task_error y.1)) h.1)
    hash-Refuses r (inr (there, inl h)) = inr (there, inl (ap task_error h))
    hash-Refuses r (inr (there, inr h)) =
        inr (there, inr (r.1, ap (λ k. (k, task_error r.1)) h.0 ∙ ap (λ e. (q, e)) h.1))

    method-Refuses :
        (valid exists : Bool) (r : Queue R × Answer)
        → AtHash (q.tasks id) r
        → Refuses valid exists (for_task valid q (on_queue exists q r))
    method-Refuses false exists r h = refl
    method-Refuses true false r h = refl
    method-Refuses true true r h = hash-Refuses r h

    -- RunTask, DeleteTask, ArchiveTask and UpdateTaskPayload of the inspector return, in this order, the
    -- error of a queue name that is not valid, of a queue and of a task that is not there, each exactly
    -- then; for a task that is there they return no error, or one of the broker's. With any error the
    -- queue is as it was.
    pub task_call-Refuses :
        (c : TaskCall) (valid exists : Bool)
        → Refuses valid exists (task_called c valid exists q id)
    unfolding run_task Run.run_task run_task_cmd delete_task Erase.delete_task delete_task_cmd
        archive_task Bury.archive_task archive_task_cmd update_task_payload get_task_info
    task_call-Refuses runs_task valid exists =
        method-Refuses valid exists _ (run_hash-AtHash (q.tasks id))
    task_call-Refuses deletes_task valid exists =
        method-Refuses valid exists _ (delete_hash-AtHash (q.tasks id))
    task_call-Refuses (archives_task now cutoff) valid exists =
        method-Refuses valid exists _ (archive_hash-AtHash now cutoff max_archive_size (q.tasks id))
    task_call-Refuses (updates_payload payload now) valid exists =
        method-Refuses valid exists _ (inspected-AtHash payload (q.tasks id) now refl)
