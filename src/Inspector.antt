-- ===== src/Inspector.antt =====
-- The inspector's listings of tasks as its users call them (inspector.go), over Listing.

pub mod Orphans
pub mod Changes
pub mod Refusals
mod Tests
use asynq.Common.{
  ℕ, ℤ, pos, negsuc, sub, Bool, true, false, List, [], ◌∷◌, Option, none, some, ◌==◌, ◌||◌,
  if◌then◌else◌,
}
use asynq.Redis.{Redis}
use asynq.Queue.{Queue}
use asynq.Queue.Work.{list_lease_expired_cmd}
use asynq.Listing.{
  Pagination, TaskInfo, list_pending, list_active, list_scheduled, list_retry, list_archived,
  list_completed, list_aggregating,
}

-- The options of a listing; `other_opt` is any other value.
pub data ListOption : Type 0 where
  page_size_opt page_num_opt : ℕ → ListOption
  other_opt : ListOption

pub record ListOptions : Type 0 where
  pub page_size : ℕ
  pub page_num : ℕ

-- PageSize and Page.
unfoldable pub page_size_of : ℤ → ListOption
page_size_of (pos n) = page_size_opt n
page_size_of (negsuc n) = page_size_opt 0

unfoldable pub page_num_of : ℤ → ListOption
page_num_of (pos n) = page_num_opt n
page_num_of (negsuc n) = page_num_opt 1

-- The loop over the options, from the defaults on.
unfoldable pub compose_from : ListOptions → List ListOption → ListOptions
compose_from res [] = res
compose_from res (page_size_opt n ∷ opts) = compose_from (record res { page_size = n }) opts
compose_from res (page_num_opt n ∷ opts) = compose_from (record res { page_num = n }) opts
compose_from res (other_opt ∷ opts) = compose_from res opts

unfoldable pub compose_list_options : List ListOption → ListOptions
unfolding compose_from
compose_list_options opts = compose_from (record { page_size = 30; page_num = 1 }) opts

-- The page of rdb that options ask for.
unfoldable pub pagination : List ListOption → Pagination
unfolding compose_list_options
pagination opts =
    let opt = compose_list_options opts in
    record { size = opt.page_size; page = sub opt.page_num 1 }

-- What a listing returns: tasks, or an error.
pub data Listed (A : Type 0) : Type 0 where
  invalid_queue_name queue_not_found cannot_decode : Listed A
  listed : List A → Listed A

pub record InspectedTask (M : Type 0) : Type 0 where
  pub info : TaskInfo M
  pub is_orphaned : Bool

module _ {M : Type 0} where
  -- newTaskInfo of each; no task is orphaned yet.
  abbrev pub new_task_info : TaskInfo M → InspectedTask M
  new_task_info i = record { info = i; is_orphaned = false }

  unfoldable pub new_task_infos : List (TaskInfo M) → List (InspectedTask M)
  new_task_infos [] = []
  new_task_infos (i ∷ rest) = new_task_info i ∷ new_task_infos rest

  abbrev pub found_tasks : Option (List (TaskInfo M)) → Listed (InspectedTask M)
  found_tasks none = queue_not_found
  found_tasks (some l) = listed (new_task_infos l)

  -- A listing looks at the queue's name first.
  abbrev pub where_valid : Bool → Option (List (TaskInfo M)) → Listed (InspectedTask M)
  where_valid valid r = if valid then found_tasks r else invalid_queue_name

abbrev pub is_in : ℕ → List ℕ → Bool
is_in id [] = false
is_in id (x ∷ ids) = (x == id) || is_in id ids

module _ {M : Type 0} (decode_message : ℕ → Option M) (id_of : M → ℕ) where
  -- ListLeaseExpired of the queue: the ids of the messages, none where one cannot be decoded.
  abbrev pub add_id : Option M → Option (List ℕ) → Option (List ℕ)
  add_id none rest = none
  add_id (some m) none = none
  add_id (some m) (some ids) = some (id_of m ∷ ids)

  unfoldable pub expired_ids : List ℕ → Option (List ℕ)
  expired_ids [] = some []
  expired_ids (t ∷ texts) = add_id (decode_message t) (expired_ids texts)

  unfoldable pub mark_orphans : List ℕ → List (TaskInfo M) → List (InspectedTask M)
  mark_orphans expired [] = []
  mark_orphans expired (i ∷ rest) =
      record { info = i; is_orphaned = is_in (id_of i.info_message) expired }
      ∷ mark_orphans expired rest

  abbrev pub orphans_marked :
      Option (List ℕ) → Option (List (TaskInfo M)) → Listed (InspectedTask M)
  orphans_marked expired none = queue_not_found
  orphans_marked none (some l) = cannot_decode
  orphans_marked (some ids) (some l) = listed (mark_orphans ids l)

module _ {M : Type 0} (decode_message : ℕ → Option M) (id_of : M → ℕ) {R : Redis} where
  unfoldable pub list_pending_tasks :
      Bool → Bool → Queue R → ℕ → List ListOption → Listed (InspectedTask M)
  unfolding pagination list_pending new_task_infos
  list_pending_tasks valid exists q now opts =
      where_valid valid (list_pending decode_message exists q (pagination opts) now)

  unfoldable pub list_aggregating_tasks :
      Bool → Bool → Queue R → ℕ → List ListOption → Listed (InspectedTask M)
  unfolding pagination list_aggregating new_task_infos
  list_aggregating_tasks valid exists q group opts =
      where_valid valid (list_aggregating decode_message exists q group (pagination opts))

  unfoldable pub list_scheduled_tasks :
      Bool → Bool → Queue R → List ListOption → Listed (InspectedTask M)
  unfolding pagination list_scheduled new_task_infos
  list_scheduled_tasks valid exists q opts =
      where_valid valid (list_scheduled decode_message exists q (pagination opts))

  unfoldable pub list_retry_tasks :
      Bool → Bool → Queue R → List ListOption → Listed (InspectedTask M)
  unfolding pagination list_retry new_task_infos
  list_retry_tasks valid exists q opts =
      where_valid valid (list_retry decode_message exists q (pagination opts))

  unfoldable pub list_archived_tasks :
      Bool → Bool → Queue R → List ListOption → Listed (InspectedTask M)
  unfolding pagination list_archived new_task_infos
  list_archived_tasks valid exists q opts =
      where_valid valid (list_archived decode_message exists q (pagination opts))

  unfoldable pub list_completed_tasks :
      Bool → Bool → Queue R → List ListOption → Listed (InspectedTask M)
  unfolding pagination list_completed new_task_infos
  list_completed_tasks valid exists q opts =
      where_valid valid (list_completed decode_message exists q (pagination opts))

  -- Active tasks whose lease has expired are orphaned; `clock` is the time in seconds.
  unfoldable pub list_active_tasks :
      Bool → Bool → Queue R → ℕ → ℕ → List ListOption → Listed (InspectedTask M)
  unfolding pagination list_active mark_orphans expired_ids list_lease_expired_cmd
  list_active_tasks valid exists q now clock opts =
      if valid
      then orphans_marked decode_message id_of
          (expired_ids decode_message id_of (list_lease_expired_cmd q clock))
          (list_active decode_message exists q (pagination opts) now)
      else invalid_queue_name
