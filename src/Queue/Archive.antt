-- ===== src/Queue/Archive.antt =====
-- archiveCmd (internal/rdb/rdb.go): the archive takes a task, and is trimmed by time and by size.
use asynq.Common.{ℕ, ◌+◌, ◌-◌, List, [], ◌∷◌, Option, none, some, if◌then◌else◌, take}
use asynq.Redis.{Redis, members, members_upto, zcard, zrem_all}
use asynq.Task.{TaskHash, archived, written, is_marked, update}
use asynq.Queue.{Queue, Reply, ok, archive_unsupported}
use asynq.Queue.Finish.{release, count_failed}

-- maxArchiveSize.
abbrev pub max_archive_size : ℕ
max_archive_size = 10000

-- The loops over DEL prefix .. id.
unfoldable pub delete_all : List ℕ → (ℕ → Option TaskHash) → ℕ → Option TaskHash
delete_all [] tasks = tasks
delete_all (id ∷ ids) tasks = delete_all ids (update tasks id none)

-- ZRANGE key 0 -max: the ranks from 0 to size - max.
unfoldable pub extra_ids : (R : Redis) → ℕ → R.Zset → List ℕ
extra_ids R max_size z = take (zcard R z + 1 - max_size) (members (R.zrange z))

module _ {R : Redis} where
  -- One of the two trims: the ids leave the archive, and their keys are deleted.
  unfoldable pub trim : Queue R → List ℕ → Queue R
  trim q ids = record q { archived = zrem_all R ids q.archived; tasks = delete_all ids q.tasks }

  unfoldable pub trim_old : Queue R → ℕ → Queue R
  unfolding trim
  trim_old q cutoff = trim q (members_upto cutoff (R.zrange q.archived))

  unfoldable pub trim_extra : Queue R → ℕ → Queue R
  unfolding trim
  trim_extra q max_size = trim q (extra_ids R max_size q.archived)

  -- ZADD to the archive, and the trims by time and by size.
  unfoldable pub stored : Queue R → ℕ → ℕ → ℕ → ℕ → Queue R
  stored q id died_at cutoff max_size =
      trim_extra (trim_old (record q { archived = R.zadd died_at id q.archived }) cutoff) max_size

  -- The hash is written after the trims.
  unfoldable pub buried : Queue R → ℕ → ℕ → ℕ → ℕ → Queue R
  buried q id data_ day expire =
      count_failed
        (record q {
          tasks =
              update q.tasks id
                (written (λ h. record h { msg = some data_; state = some archived }) (q.tasks id));
        })
        day expire

  unfoldable pub archive_cmd : Queue R → ℕ → ℕ → ℕ → ℕ → ℕ → ℕ → ℕ → Queue R × Reply
  archive_cmd q id data_ died_at cutoff max_size day expire =
      if is_marked (q.tasks id)
      then (q, archive_unsupported)
      else release q id λ q. (buried (stored q id died_at cutoff max_size) id data_ day expire, ok)
