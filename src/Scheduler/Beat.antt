-- ===== src/Scheduler/Beat.antt =====
-- The heartbeat of a scheduler (beat, scheduler.go): the entries that it writes to Redis.
use asynq.Common.{
  ℕ, ◌+◌, ◌*◌, ◌≡◌, refl, List, [], ◌∷◌, none, some, inl, inr, arith, Option-cases, ==_iff, ind,
  is_some, count, All,
}
use asynq.Client.{ClientOption}
use asynq.Scheduler.{CronEntry, entry_ids, Cron, Scheduler}
use asynq.Scheduler.Registry.{IsSound}

-- base.SchedulerEntry.
pub record SchedulerEntry : Type 0 where
  pub id : ℕ
  pub spec : ℕ
  pub type_ : ℕ
  pub payload : ℕ
  pub opts : List ℕ
  pub next : ℕ
  pub prev : ℕ

-- `text` is Option.String.
abbrev pub stringify_options : (ClientOption → ℕ) → List ClientOption → List ℕ
stringify_options text [] = []
stringify_options text (opt ∷ opts) = text opt ∷ stringify_options text opts

abbrev pub snapshot : (ClientOption → ℕ) → CronEntry → SchedulerEntry
snapshot text e = record {
  id = e.job.id;
  spec = e.job.cronspec;
  type_ = e.job.task.type_;
  payload = e.job.task.payload;
  opts = stringify_options text e.job.opts;
  next = e.next;
  prev = e.prev;
}

abbrev pub snapshots : (ClientOption → ℕ) → List CronEntry → List SchedulerEntry
snapshots text [] = []
snapshots text (e ∷ es) = snapshot text e ∷ snapshots text es

abbrev pub written_ids : List SchedulerEntry → List ℕ
written_ids [] = []
written_ids (e ∷ es) = e.id ∷ written_ids es

module _ (c : Cron) (text : ClientOption → ℕ) where
  open c use {Table, entries, job_of, count-entries, entries_known}

  -- What is written, and the time to live that it is written with.
  unfoldable pub beat : Scheduler Table → List SchedulerEntry × ℕ
  beat s = (snapshots text (entries s.cron), s.heartbeat_interval * 2)

  -- Entries that are known to cron, of which those with one id are those of one entry of cron.
  count-snapshots :
      (s : Scheduler Table) (id i : ℕ) (es : List CronEntry)
      → IsSound c s
      → s.idmap id ≡ some i
      → All (λ e. job_of s.cron e.entry_id ≡ some e.job) es
      → count id (written_ids (snapshots text es)) ≡ count i (entry_ids es)
  count-snapshots s id i [] sound e known = refl
  count-snapshots s id i (x ∷ es) sound e known =
      let ih = count-snapshots s id i es sound e known.1 in
      ground (
        arith,
        ih,
        sound.named x.entry_id x.job known.0,
        sound.kept id i e,
        known.0,
        ==_iff x.job.id id,
        ==_iff x.entry_id i,
      )

  count-unknown :
      (s : Scheduler Table) (id : ℕ) (es : List CronEntry)
      → IsSound c s
      → s.idmap id ≡ none
      → All (λ e. job_of s.cron e.entry_id ≡ some e.job) es
      → count id (written_ids (snapshots text es)) ≡ 0
  count-unknown s id [] sound e known = refl
  count-unknown s id (x ∷ es) sound e known = ground (
    arith,
    count-unknown s id es sound e known.1,
    sound.named x.entry_id x.job known.0,
    ==_iff x.job.id id,
  )

  -- A heartbeat of a scheduler whose ids and entries are one to one writes every registered id once
  -- and no other, with a time to live of twice the interval between heartbeats.
  pub count-beat :
      (s : Scheduler Table) (id : ℕ)
      → IsSound c s
      → (count id (written_ids (beat s).0) ≡ ind (is_some (s.idmap id)))
        × ((beat s).1 ≡ s.heartbeat_interval + s.heartbeat_interval)
  unfolding beat
  count-beat s id sound = (
    elim (Option-cases (s.idmap id)) [
      | inl e ↦ rw e (count-unknown s id (entries s.cron) sound e (entries_known s.cron))
      | inr (i, e) ↦
          let known = sound.kept id i e in
          ground (
            arith,
            e,
            count-snapshots s id i (entries s.cron) sound e (entries_known s.cron),
            count-entries s.cron i,
            known.1,
          )
    ],
    omega arith,
  )
