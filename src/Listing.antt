-- ===== src/Listing.antt =====
-- The inspector's listings of one queue (internal/rdb/inspect.go): pages of the lists and sorted sets
-- of task ids, with the messages and results at the tasks' keys.
pub mod Pages
pub mod Order
pub mod Stats
pub mod One
mod Tests
use mathlib.Core.List.{reverse}
use asynq.Common.{
  ℕ, ◌*◌, ℤ, pos, sub, neg, ◌+ℤ◌, scale, Bool, List, [], ◌∷◌, Option, none, some, if◌then◌else◌,
}
use asynq.Redis.{Redis, members}
use asynq.Task.{
  TaskState, active, pending, scheduled, retry, archived, completed, aggregating, TaskHash,
}
use asynq.Queue.{Queue}
use asynq.DefaultQueue.{DefaultQueue}

-- The size of a page, and its number from 0; int64 does not overflow.
pub record Pagination : Type 0 where
  pub size : ℕ
  pub page : ℤ

abbrev pub start : Pagination → ℤ
start pgn = scale pgn.size pgn.page

abbrev pub stop : Pagination → ℤ
stop pgn = scale pgn.size pgn.page +ℤ sub pgn.size 1

-- base.TaskInfo, of messages of a type M; times in seconds or nanoseconds, 0 where there is none.
pub record TaskInfo (M : Type 0) : Type 0 where
  pub info_message : M
  pub info_state : TaskState
  pub next_process_at : ℕ
  pub info_result : ℕ

-- HMGET key "msg" "result", as texts: the empty text, 0, where there is none.
abbrev pub text : Option ℕ → ℕ
text none = 0
text (some t) = t

abbrev pub msg_text : Option TaskHash → ℕ
msg_text none = 0
msg_text (some h) = text h.msg

abbrev pub result_text : Option TaskHash → ℕ
result_text none = 0
result_text (some h) = text h.result

-- The two keys that hold ids in a list.
pub data ListKey : Type 0 where
  active_key pending_key : ListKey

abbrev pub state_of : ListKey → TaskState
state_of active_key = active
state_of pending_key = pending

-- Only pending tasks are ready now.
abbrev pub next_of_list : ListKey → ℕ → ℕ
next_of_list active_key now = 0
next_of_list pending_key now = now

-- time.Unix(score, 0) for scheduled tasks and for those to be retried.
abbrev pub next_of_score : TaskState → ℕ → ℕ
next_of_score scheduled score = score
next_of_score retry score = score
next_of_score active score = 0
next_of_score pending score = 0
next_of_score archived score = 0
next_of_score completed score = 0
next_of_score aggregating score = 0

module _ {R : Redis} where
  abbrev pub ids_at : Queue R → ListKey → List ℕ
  ids_at q active_key = q.active
  ids_at q pending_key = q.pending

  abbrev pub set_at : DefaultQueue R → ListKey → R.Zset
  set_at d active_key = d.active_set
  set_at d pending_key = d.pending_set

-- The listings look for the queue's name first; `none` is QueueNotFoundError.
abbrev pub where_exists {ℓ} : {A : Type ℓ} → Bool → A → Option A
where_exists exists l = if exists then some l else none

module _ {M : Type 0} (decode_message : ℕ → Option M) where
  -- A task whose message cannot be decoded is left out.
  abbrev pub with_info : TaskState → ℕ → ℕ → Option M → List (TaskInfo M) → List (TaskInfo M)
  with_info state next result none rest = rest
  with_info state next result (some m) rest =
      record { info_message = m; info_state = state; next_process_at = next; info_result = result }
      ∷ rest

  unfoldable pub infos : TaskState → ℕ → (ℕ → Option TaskHash) → List ℕ → List (TaskInfo M)
  infos state next tasks [] = []
  infos state next tasks (id ∷ ids) =
      with_info state next (result_text (tasks id)) (decode_message (msg_text (tasks id)))
        (infos state next tasks ids)

  unfoldable pub scored_infos : TaskState → (ℕ → Option TaskHash) → List (ℕ × ℕ) → List (TaskInfo M)
  scored_infos state tasks [] = []
  scored_infos state tasks ((id, score) ∷ rest) =
      with_info state (next_of_score state score) (result_text (tasks id))
        (decode_message (msg_text (tasks id))) (scored_infos state tasks rest)

  module _ {R : Redis} where
    -- From the right end of the list, where the tasks are that come first.
    unfoldable pub list_messages : Queue R → ListKey → Pagination → ℕ → List (TaskInfo M)
    unfolding infos
    list_messages q key pgn now = reverse (
        infos (state_of key) (next_of_list key now) q.tasks (
          R.lrange (neg (stop pgn) +ℤ neg (pos 1)) (neg (start pgn) +ℤ neg (pos 1)) (ids_at q key)))

    -- The same function for the queue `default`.
    unfoldable pub list_ordered_messages :
        DefaultQueue R → ListKey → Pagination → ℕ → List (TaskInfo M)
    unfolding infos
    list_ordered_messages d key pgn now =
        infos (state_of key) (next_of_list key now) d.keys.tasks
          (members (R.zrange_between (start pgn) (stop pgn) (set_at d key)))

    unfoldable pub list_zset_entries : Queue R → TaskState → R.Zset → Pagination → List (TaskInfo M)
    unfolding scored_infos
    list_zset_entries q state z pgn =
        scored_infos state q.tasks (R.zrange_between (start pgn) (stop pgn) z)

    unfoldable pub list_pending : Bool → Queue R → Pagination → ℕ → Option (List (TaskInfo M))
    unfolding list_messages
    list_pending exists q pgn now = where_exists exists (list_messages q pending_key pgn now)

    unfoldable pub list_active : Bool → Queue R → Pagination → ℕ → Option (List (TaskInfo M))
    unfolding list_messages
    list_active exists q pgn now = where_exists exists (list_messages q active_key pgn now)

    unfoldable pub list_scheduled : Bool → Queue R → Pagination → Option (List (TaskInfo M))
    unfolding list_zset_entries
    list_scheduled exists q pgn =
        where_exists exists (list_zset_entries q scheduled q.scheduled pgn)

    unfoldable pub list_retry : Bool → Queue R → Pagination → Option (List (TaskInfo M))
    unfolding list_zset_entries
    list_retry exists q pgn = where_exists exists (list_zset_entries q retry q.retry pgn)

    unfoldable pub list_archived : Bool → Queue R → Pagination → Option (List (TaskInfo M))
    unfolding list_zset_entries
    list_archived exists q pgn = where_exists exists (list_zset_entries q archived q.archived pgn)

    unfoldable pub list_completed : Bool → Queue R → Pagination → Option (List (TaskInfo M))
    unfolding list_zset_entries
    list_completed exists q pgn =
        where_exists exists (list_zset_entries q completed q.completed pgn)

    unfoldable pub list_aggregating : Bool → Queue R → ℕ → Pagination → Option (List (TaskInfo M))
    unfolding list_zset_entries
    list_aggregating exists q group pgn =
        where_exists exists (list_zset_entries q aggregating (q.groups group) pgn)
