-- ===== src/Queue/Forward.antt =====
-- forwardCmd and forwardAll (internal/rdb/rdb.go): due tasks of the scheduled and retry sets become
-- pending, or go to their group.
use asynq.Common.{ℕ, zero, suc, List, [], ◌∷◌, Option, none, some, ◌==◌, if◌then◌else◌, length}
use asynq.Redis.{Redis, zrangebyscore}
use asynq.Task.{TaskHash, pending, aggregating, written, update}
use asynq.Queue.{Queue}

-- The two delayed keys.
pub data Delayed : Type 0 where
  scheduled_key retry_key : Delayed

-- HGET key "group", where it is a text that is not empty (number 0).
abbrev pub group_of : Option TaskHash → ℕ
group_of none = 0
group_of (some h) = elim h.group [ none ↦ 0 | some g ↦ g ]

module _ {R : Redis} where
  abbrev pub delayed : Queue R → Delayed → R.Zset
  delayed q scheduled_key = q.scheduled
  delayed q retry_key = q.retry

  -- ZREM KEYS[1] id.
  abbrev pub undelay : Queue R → Delayed → ℕ → Queue R
  undelay q scheduled_key id = record q { scheduled = R.zrem id q.scheduled }
  undelay q retry_key id = record q { retry = R.zrem id q.retry }

  -- One round of the script's loop.
  unfoldable pub forward_one : Queue R → Delayed → ℕ → ℕ → ℕ → Queue R
  forward_one q key now now_ns id =
      let q₁ = undelay q key id in
      let g = group_of (q.tasks id) in
      if g == 0
      then record q₁ {
        pending = R.lpush id q.pending;
        tasks = update q.tasks id (
            written (λ h. record h { state = some pending; pending_since = some now_ns })
              (q.tasks id));
      }
      else record q₁ {
        groups = update q.groups g (R.zadd now id (q.groups g));
        tasks =
            update q.tasks id (written (λ h. record h { state = some aggregating }) (q.tasks id));
      }

  unfoldable pub forward_each : Queue R → Delayed → ℕ → ℕ → List ℕ → Queue R
  forward_each q key now now_ns [] = q
  forward_each q key now now_ns (id ∷ ids) =
      forward_each (forward_one q key now now_ns id) key now now_ns ids

  abbrev pub due : Queue R → Delayed → ℕ → List ℕ
  due q key now = zrangebyscore R now 100 (delayed q key)

  -- The script, with the number of ids that it read.
  unfoldable pub forward_cmd : Queue R → Delayed → ℕ → ℕ → Queue R × ℕ
  forward_cmd q key now now_ns =
      (forward_each q key now now_ns (due q key now), length (due q key now))

  -- The loop of forwardAll for one key: call k reads the clock as `clock k`, in seconds and in
  -- nanoseconds. It returns the keys and the number of the call that found nothing due; `none`
  -- means that the fuel ran out.
  unfoldable pub forward_loop : ℕ → Queue R → Delayed → (ℕ → ℕ × ℕ) → ℕ → Option (Queue R × ℕ)
  forward_loop zero q key clock k = none
  forward_loop (suc fuel) q key clock k =
      let r = forward_cmd q key (clock k).0 (clock k).1 in
      let again = forward_loop fuel r.0 key clock (suc k) in
      if r.1 == 0 then some (r.0, k) else again

  -- The scheduled tasks, then those to be retried; with the numbers of the two last calls.
  unfoldable pub forward_all : ℕ → Queue R → (ℕ → ℕ × ℕ) → Option (Queue R × ℕ × ℕ)
  forward_all fuel q clock = elim (forward_loop fuel q scheduled_key clock 0) [
    | none ↦ none
    | some (q₁, k) ↦ elim (forward_loop fuel q₁ retry_key clock (suc k)) [
      | none ↦ none
      | some (q₂, k₂) ↦ some (q₂, k, k₂)
    ]
  ]
