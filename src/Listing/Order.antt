-- ===== src/Listing/Order.antt =====
-- The order of the listings of pending and active tasks, and what all pages of them are
-- (internal/rdb/inspect.go).
use mathlib.Core.List.{reverse, reverse-cons, reverse-reverse, append-nil}
use asynq.Common.{
  ℕ, zero, suc, ◌*◌, ◌≤◌, ◌<◌, ◌≡◌, refl, sym, ap, ◌∙◌, List, [], ◌∷◌, ◌++◌, Option, none, some,
  length, take, drop,
}
use asynq.Redis.{Redis, members, slice}
use asynq.Task.{TaskState, TaskHash}
use asynq.Queue.{Queue}
use asynq.DefaultQueue.{DefaultQueue, view, in_list}
use asynq.Listing.{
  start, stop, TaskInfo, ListKey, active_key, pending_key, state_of, next_of_list, with_info, infos,
  ids_at, set_at, list_messages, list_ordered_messages, msg_text, result_text,
}
use asynq.Listing.Pages.{page_of, slice_page, slice_page_back, joined, joined_same, joined_whole}

members-take : (n : ℕ) (l : List (ℕ × ℕ)) → members (take n l) ≡ take n (members l)
members-take zero l = refl
members-take (suc n) [] = refl
members-take (suc n) ((a, s) ∷ l) = ap (λ r. a ∷ r) (members-take n l)

members-drop : (n : ℕ) (l : List (ℕ × ℕ)) → members (drop n l) ≡ drop n (members l)
members-drop zero l = refl
members-drop (suc n) [] = refl
members-drop (suc n) ((a, s) ∷ l) = members-drop n l

module _ {M : Type 0} (decode_message : ℕ → Option M) where
  with_info-append :
      (state : TaskState) (next result : ℕ) (m : Option M) (xs ys : List (TaskInfo M))
      → with_info decode_message state next result m (xs ++ ys)
        ≡ with_info decode_message state next result m xs ++ ys
  with_info-append state next result none xs ys = refl
  with_info-append state next result (some m) xs ys = refl

  with_info-reverse :
      (state : TaskState) (next result : ℕ) (m : Option M) (xs : List (TaskInfo M))
      → reverse (with_info decode_message state next result m xs)
        ≡ reverse xs ++ with_info decode_message state next result m []
  with_info-reverse state next result none xs = sym (append-nil (reverse xs))
  with_info-reverse state next result (some m) xs = reverse-cons _ xs

  module _ (state : TaskState) (next : ℕ) (tasks : ℕ → Option TaskHash) where
    infos-append :
        (xs ys : List ℕ)
        → infos decode_message state next tasks (xs ++ ys)
          ≡ infos decode_message state next tasks xs ++ infos decode_message state next tasks ys
    unfolding infos
    infos-append [] ys = refl
    infos-append (x ∷ xs) ys =
        ap
          (with_info decode_message state next (result_text (tasks x))
            (decode_message (msg_text (tasks x))))
          (infos-append xs ys)
        ∙ with_info-append state next (result_text (tasks x)) (decode_message (msg_text (tasks x)))
            _ _

    infos-reverse :
        (ids : List ℕ)
        → reverse (infos decode_message state next tasks ids)
          ≡ infos decode_message state next tasks (reverse ids)
    unfolding infos
    infos-reverse [] = refl
    infos-reverse (x ∷ ids) = rw (reverse-cons x ids) (
        with_info-reverse state next (result_text (tasks x)) (decode_message (msg_text (tasks x))) _
        ∙ ap (λ l. l ++ infos decode_message state next tasks (x ∷ [])) (infos-reverse ids)
        ∙ sym (infos-append (reverse ids) (x ∷ [])))

  module _ {R : Redis} (key : ListKey) (size n now : ℕ) (positive : 0 < size) where
    -- A page of tasks, counted from the end of the list that tasks are taken from.
    list_messages_lem :
        (q : Queue R)
        → list_messages decode_message q key (page_of size n) now
          ≡ infos decode_message
              (state_of key)
              (next_of_list key now)
              q.tasks
              (take size (drop (size * n) (reverse (ids_at q key))))
    unfolding list_messages
    list_messages_lem q = rw (R.lrange_law _ _ (ids_at q key)) (
        infos-reverse (state_of key) (next_of_list key now) q.tasks _
        ∙ ap (infos decode_message (state_of key) (next_of_list key now) q.tasks)
            (slice_page_back size n (ids_at q key) positive))

    list_ordered_messages_lem :
        (d : DefaultQueue R)
        → list_ordered_messages decode_message d key (page_of size n) now
          ≡ infos decode_message
              (state_of key)
              (next_of_list key now)
              d.keys.tasks
              (take size (drop (size * n) (members (R.zrange (set_at d key)))))
    unfolding list_ordered_messages
    list_ordered_messages_lem d =
        let page : slice (start (page_of size n)) (stop (page_of size n)) (R.zrange (set_at d key))
            ≡ _ =
          slice_page size n (R.zrange (set_at d key)) positive in
        rw (R.zrange_between_law (start (page_of size n)) (stop (page_of size n)) (set_at d key)) (
          ap
            (λ l.
              infos decode_message (state_of key) (next_of_list key now) d.keys.tasks (members l))
            page
          ∙ ap (infos decode_message (state_of key) (next_of_list key now) d.keys.tasks) (
              members-take size (drop (size * n) (R.zrange (set_at d key)))
              ∙ ap (take size) (members-drop (size * n) (R.zrange (set_at d key)))))

  module _ {R : Redis} (d : DefaultQueue R) (key : ListKey) (size n now : ℕ) where
    in_order : reverse (ids_at (view d) key) ≡ members (R.zrange (set_at d key))
    unfolding view in_list
    in_order = elim key as (λ k. reverse (ids_at (view d) k) ≡ members (R.zrange (set_at d k))) [
      | active_key ↦ reverse-reverse (members (R.zrange d.active_set))
      | pending_key ↦ reverse-reverse (members (R.zrange d.pending_set))
    ]

    -- For pages with some tasks, numbered from 0, ListPending and ListActive of the queue `default`
    -- return what they return for the same queue with its tasks in lists.
    pub list_ordered-list :
        0 < size
        → list_ordered_messages decode_message d key (page_of size n) now
          ≡ list_messages decode_message (view d) key (page_of size n) now
    unfolding view
    list_ordered-list positive =
        list_ordered_messages_lem key size n now positive d
        ∙ ap
            (λ l.
              infos decode_message (state_of key) (next_of_list key now) d.keys.tasks
                (take size (drop (size * n) l)))
            (sym in_order)
        ∙ sym (list_messages_lem key size n now positive (view d))

  infos-joined :
      (state : TaskState) (next : ℕ) (tasks : ℕ → Option TaskHash) (f : ℕ → List ℕ) (n : ℕ)
      → joined (λ i. infos decode_message state next tasks (f i)) n
        ≡ infos decode_message state next tasks (joined f n)
  unfolding infos
  infos-joined state next tasks f zero = refl
  infos-joined state next tasks f (suc n) =
      ap (λ l. l ++ infos decode_message state next tasks (f n)) (infos-joined state next tasks f n)
      ∙ sym (infos-append state next tasks (joined f n) (f n))

  -- In a queue whose tasks are lists, the pages of ListPending or ListActive from the first on, if they
  -- are enough for all tasks, list the tasks whose message can be decoded, one after another, from the
  -- end of the list that tasks are taken from.
  pub pages_whole :
      {R : Redis} (q : Queue R) (key : ListKey) (size n now : ℕ)
      → 0 < size
      → length (reverse (ids_at q key)) ≤ size * n
      → joined (λ i. list_messages decode_message q key (page_of size i) now) n
        ≡ infos decode_message
            (state_of key)
            (next_of_list key now)
            q.tasks
            (reverse (ids_at q key))
  pages_whole q key size n now positive enough =
      let f = infos decode_message (state_of key) (next_of_list key now) q.tasks in
      joined_same _ _ (λ i. list_messages_lem key size i now positive q) n
      ∙ infos-joined (state_of key) (next_of_list key now) q.tasks _ n
      ∙ ap f (joined_whole size n (reverse (ids_at q key)) enough)
