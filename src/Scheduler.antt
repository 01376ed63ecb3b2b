-- ===== src/Scheduler.antt =====
-- The scheduler (scheduler.go): its entries, which its own ids name, the jobs that cron runs, the
-- heartbeat, and the life of the whole. The table of cron, a library, is a parameter with its laws.
-- Texts and ids are numbers; the interval of the heartbeat is in nanoseconds.
pub mod Registry
pub mod Positions
pub mod Beat
pub mod Jobs
pub mod Life
mod Tests
use asynq.Common.{
  ℕ, zero, suc, ◌≡◌, Bool, true, false, List, [], ◌∷◌, ◌++◌, Option, none, some, ◌==◌,
  if◌then◌else◌, ind, is_some, count, All, ℤ, pos, negsuc,
}
use asynq.Task.{update}
use asynq.Client
use asynq.Client.{
  ClientOption, ClientError, BrokerCall, World, Result, error, value, enqueue_context,
}
use asynq.Server.{ServerState, srv_state_new, srv_state_active, srv_state_stopped, srv_state_closed}

-- enqueueJob; a task that is nil is left out.
pub record Job : Type 0 where
  pub id : ℕ
  pub cronspec : ℕ
  pub task : Client.Task
  pub opts : List ClientOption

-- cron.Entry.
pub record CronEntry : Type 0 where
  pub entry_id : ℕ
  pub job : Job
  pub next : ℕ
  pub prev : ℕ

abbrev pub entry_ids : List CronEntry → List ℕ
entry_ids [] = []
entry_ids (e ∷ es) = e.entry_id ∷ entry_ids es

-- Cron's table of entries: AddJob, which refuses a spec that it cannot parse, Remove and Entries. An
-- id is new when it is given, and names one entry.
pub record Cron : Type 1 where
  pub Table : Type 0
  pub empty : Table
  pub add_job : Table → ℕ → Job → Option (ℕ × Table)
  pub remove : Table → ℕ → Table
  pub entries : Table → List CronEntry
  pub job_of : Table → ℕ → Option Job
  pub job_of-empty : (i : ℕ) → job_of empty i ≡ none
  pub add_new :
      (t t' : Table) (spec i : ℕ) (j : Job) → add_job t spec j ≡ some (i, t') → job_of t i ≡ none
  pub job_of-add :
      (t t' : Table) (spec i k : ℕ) (j : Job)
      → add_job t spec j ≡ some (i, t')
      → job_of t' k ≡ (if i == k then some j else job_of t k)
  pub job_of-remove :
      (t : Table) (i k : ℕ) → job_of (remove t i) k ≡ (if i == k then none else job_of t k)
  pub count-entries :
      (t : Table) (i : ℕ) → count i (entry_ids (entries t)) ≡ ind (is_some (job_of t i))
  pub entries_known : (t : Table) → All (λ e. job_of t e.entry_id ≡ some e.job) (entries t)

-- `idmap` leads from the scheduler's ids to cron's. The callbacks are known by whether they are set.
pub record Scheduler (T : Type 0) : Type 0 where
  pub state : ServerState
  pub heartbeat_interval : ℕ
  pub cron : T
  pub idmap : ℕ → Option ℕ
  pub pre_enqueue_func : Bool
  pub post_enqueue_func : Bool
  pub err_handler : Bool

-- defaultHeartbeatInterval, 10 seconds.
abbrev pub default_heartbeat_interval : ℕ
default_heartbeat_interval = 10000000000

-- The interval that the options give, for zero and below the default.
unfoldable pub interval_of : ℤ → ℕ
interval_of (pos zero) = default_heartbeat_interval
interval_of (pos (suc n)) = suc n
interval_of (negsuc n) = default_heartbeat_interval

module _ (c : Cron) where
  open c use {Table, empty, add_job, remove, entries}

  -- newScheduler.
  unfoldable pub new_scheduler : ℤ → Bool → Bool → Bool → Scheduler Table
  unfolding interval_of
  new_scheduler interval pre post handler = record {
    state = srv_state_new;
    heartbeat_interval = interval_of interval;
    cron = empty;
    idmap = λ id. none;
    pre_enqueue_func = pre;
    post_enqueue_func = post;
    err_handler = handler;
  }

  -- Register, with the id that uuid makes; `none` is the error of AddJob.
  unfoldable pub register :
      Scheduler Table → ℕ → ℕ → Client.Task → List ClientOption → Scheduler Table × Option ℕ
  register s uuid cronspec task opts =
      elim (add_job s.cron cronspec
        (record { id = uuid; cronspec = cronspec; task = task; opts = opts })) [
          | none ↦ (s, none)
          | some (cron_id, t) ↦
              (record s { cron = t; idmap = update s.idmap uuid (some cron_id) }, some uuid)
        ]

  -- Unregister; `false` is the error that there is no such entry.
  unfoldable pub unregister : Scheduler Table → ℕ → Scheduler Table × Bool
  unregister s entry_id = elim (s.idmap entry_id) [
    | none ↦ (s, false)
    | some cron_id ↦
        (record s { idmap = update s.idmap entry_id none; cron = remove s.cron cron_id }, true)
  ]
