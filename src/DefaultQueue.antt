-- ===== src/DefaultQueue.antt =====
-- The keys of the queue `default`, whose pending and active tasks are sorted sets, and the scripts that
-- internal/rdb/receiver_target_queue.go has for it. Its children have the scripts; here is what they
-- share. A score n - 2^53 is the number n.
pub mod Enqueue
pub mod Work
pub mod Forward
pub mod Run
pub mod Scores
pub mod Ends
pub mod Refine
pub mod History
mod Tests
use mathlib.Core.List.{reverse}
use asynq.Common.{
  ℕ, ◌+◌, ◌-◌, ◌*◌, ◌/◌, ◌%◌, ◌^◌, Bool, List, [], ◌∷◌, Option, none, some, ◌==◌, ◌&&◌, ◌||◌, ltb,
  leb, if◌then◌else◌, ind, ℤ, pos, neg,
}
use asynq.Redis.{Redis, members}
use asynq.Queue.{Queue}

-- `keys` is every key but the two sorted sets; its lists of pending and active tasks are not used.
pub record DefaultQueue (R : Redis) : Type 0 where
  pub keys : Queue R
  pub pending_set : R.Zset
  pub active_set : R.Zset

-- The scores 0, -receiverTargetMaximumQueueScore and receiverTargetMaximumQueueScore.
abbrev pub zero_score : ℕ
zero_score = 2 ^ 53

abbrev pub lowest : ℕ
lowest = 1

abbrev pub highest : ℕ
highest = 2 ^ 54 - 1

-- What the scripts reply: numbers, a message, a task that is left to the transaction of receiver
-- targets, and errors; `script_error` is Lua's own.
pub data ScriptReply : Type 0 where
  nil status_ok : ScriptReply
  integer : ℕ → ScriptReply
  minus : ℕ → ScriptReply
  message : ℕ → ScriptReply
  receiver_target : ℕ → ℤ → ℕ → ScriptReply
  score_exhausted score_invalid message_missing no_such_task membership_missing : ScriptReply
  inspector_unsupported group_unsupported script_error : ScriptReply

-- A magnitude as Lua's tostring writes it, with 14 significant digits: a larger one is rounded to tens
-- or to hundreds, a half to the even.
unfoldable pub rounded_to : ℕ → ℕ → ℕ
rounded_to unit n =
    let q = n / unit in
    let r = n % unit in
    if ltb (2 * r) unit || (2 * r == unit && q % 2 == 0) then q * unit else (q + 1) * unit

unfoldable pub fourteen_digits : ℕ → ℕ
unfolding rounded_to
fourteen_digits n =
    if ltb n (10 ^ 14) then n else if ltb n (10 ^ 15) then rounded_to 10 n else rounded_to 100 n

-- tostring of a score, as the number that the text stands for.
unfoldable pub printed : ℕ → ℤ
unfolding fourteen_digits
printed s =
    if leb zero_score s
    then pos (fourteen_digits (s - zero_score))
    else neg (pos (fourteen_digits (zero_score - s)))

-- The reply of ZREVRANGE key 0 0 to a listing, as its scores.
abbrev pub tail_score : List (ℕ × ℕ) → Option ℕ
tail_score [] = none
tail_score ((a, s) ∷ []) = some s
tail_score ((a, s) ∷ (b, t) ∷ r) = tail_score ((b, t) ∷ r)

-- ZCOUNT key score score.
abbrev pub zcount : ℕ → List (ℕ × ℕ) → ℕ
zcount score [] = 0
zcount score ((a, s) ∷ r) = ind (s == score) + zcount score r

-- The tests of the score behind which a task is to be added, and the score it is given; the scripts
-- begin with 0 where there is none.
abbrev pub next_of : List (ℕ × ℕ) → Option ℕ → Option ℕ
next_of l none = some zero_score
next_of l (some s) = if zcount s l == 1 && leb lowest s && ltb s highest then some (s + 1) else none

unfoldable pub next_score : List (ℕ × ℕ) → Option ℕ
next_score l = next_of l (tail_score l)

-- The same tests where -1 stands for no score, and the last score is kept.
abbrev pub last_of : List (ℕ × ℕ) → Option ℕ → Option ℕ
last_of l none = some (zero_score - 1)
last_of l (some s) = if zcount s l == 1 && leb lowest s && leb s highest then some s else none

unfoldable pub last_score : List (ℕ × ℕ) → Option ℕ
last_score l = last_of l (tail_score l)

-- The tasks of a sorted set, the last first: the order in which the lists of other queues keep them.
unfoldable pub in_list : List (ℕ × ℕ) → List ℕ
in_list l = reverse (members l)

module _ {R : Redis} where
  -- A script goes on with a score, or stops with an error.
  unfoldable pub with_score :
      DefaultQueue R
      → ScriptReply
      → Option ℕ
      → (ℕ → DefaultQueue R × ScriptReply)
      → DefaultQueue R × ScriptReply
  with_score d error none next = (d, error)
  with_score d error (some score) next = next score

  -- The queue as one whose pending and active tasks are lists.
  unfoldable pub view : DefaultQueue R → Queue R
  unfolding in_list
  view d = record d.keys {
    pending = in_list (R.zrange d.pending_set);
    active = in_list (R.zrange d.active_set);
  }
