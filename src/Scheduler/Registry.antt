-- ===== src/Scheduler/Registry.antt =====
-- The ids of a scheduler and of cron name the same jobs (Register and Unregister, scheduler.go).
use asynq.Common.{
  ℕ, ◌≡◌, refl, Bool, true, List, none, some, ◌==◌, inl, inr, arith, Option-cases, Bool-cases,
  ==_iff, ==_refl, ℤ, subst,
}
use asynq.Task.{update}
use asynq.Client
use asynq.Client.{ClientOption}
use asynq.Scheduler.{Job, Cron, Scheduler, new_scheduler, register, unregister}

module _ (c : Cron) where
  open c use {Table, add_job, remove, job_of, job_of-empty, add_new, job_of-add, job_of-remove}

  -- An id of the scheduler leads to the entry of cron that has its job, and every entry of cron has
  -- the id of its job lead to it.
  pub record IsSound (s : Scheduler Table) : Type 0 where
    pub kept :
        (id i : ℕ) → s.idmap id ≡ some i → (j : Job) × (job_of s.cron i ≡ some j) × (j.id ≡ id)
    pub named : (i : ℕ) (j : Job) → job_of s.cron i ≡ some j → s.idmap j.id ≡ some i

  -- A scheduler with an entry more.
  added-IsSound :
      (s : Scheduler Table) (t : Table) (i : ℕ) (j : Job)
      → IsSound s
      → s.idmap j.id ≡ none
      → add_job s.cron j.cronspec j ≡ some (i, t)
      → IsSound (record s { cron = t; idmap = update s.idmap j.id (some i) })
  added-IsSound s t i j sound new e = record {
    kept = λ id k h. elim (Bool-cases (j.id == id)) [
      | inl p ↦ (
        j,
        ground (arith, ==_iff j.id id, job_of-add s.cron t j.cronspec i k j e),
        (==_iff j.id id).0 p,
      )
      | inr p ↦
          let old = sound.kept id k (ground (arith, p, h)) in
          (
            old.0,
            ground (
              arith,
              old.1,
              job_of-add s.cron t j.cronspec i k j e,
              add_new s.cron t j.cronspec i j e,
            ),
            old.2,
          )
    ];
    named = λ k j' h. ground (
      arith,
      job_of-add s.cron t j.cronspec i k j e,
      sound.named k j',
      new,
      ==_iff j.id j'.id,
      h,
    );
  }

  -- A scheduler with an entry less.
  removed-IsSound :
      (s : Scheduler Table) (id i : ℕ)
      → IsSound s
      → s.idmap id ≡ some i
      → IsSound (record s { idmap = update s.idmap id none; cron = remove s.cron i })
  removed-IsSound s id i sound e = record {
    kept = λ id' k h. elim (Bool-cases (id == id')) [
      | inl p ↦ absurd (ground (arith, p, h))
      | inr p ↦
          let old = sound.kept id' k (ground (arith, p, h)) in
          let gone = sound.kept id i e in
          (old.0, ground (arith, old.1, old.2, gone.1, gone.2, job_of-remove s.cron i k, p), old.2)
    ];
    named = λ k j h. ground (
      arith,
      job_of-remove s.cron i k,
      sound.named k j,
      sound.kept id i e,
      ==_iff i k,
      ==_iff id j.id,
      h,
    );
  }

  pub new_scheduler-IsSound :
      (interval : ℤ) (pre post handler : Bool) → IsSound (new_scheduler c interval pre post handler)
  unfolding new_scheduler
  new_scheduler-IsSound interval pre post handler = record {
    kept = λ id i h. absurd (cc);
    named = λ i j h. absurd (ground (arith, job_of-empty i, h));
  }

  pub register-IsSound :
      (s : Scheduler Table) (uuid cronspec : ℕ) (task : Client.Task) (opts : List ClientOption)
      → IsSound s
      → s.idmap uuid ≡ none
      → IsSound (register c s uuid cronspec task opts).0
  unfolding register
  register-IsSound s uuid cronspec task opts sound new =
      let j : Job = record { id = uuid; cronspec = cronspec; task = task; opts = opts } in
      elim (Option-cases (add_job s.cron cronspec j)) [
        | inl e ↦ rw (e, register) sound
        | inr (r, e) ↦ rw (e, register) (added-IsSound s r.1 r.0 j sound new e)
      ]

  pub unregister-IsSound :
      (s : Scheduler Table) (id : ℕ) → IsSound s → IsSound (unregister c s id).0
  unfolding unregister
  unregister-IsSound s id sound = elim (Option-cases (s.idmap id)) [
    | inl e ↦ rw (e, unregister) sound
    | inr (i, e) ↦ rw (e, unregister) (removed-IsSound s id i sound e)
  ]

  -- Register with an id that is not in use, and Unregister with any.
  pub data Step : Scheduler Table → Scheduler Table → Type 0 where
    registers :
        (s : Scheduler Table) (uuid cronspec : ℕ) (task : Client.Task) (opts : List ClientOption)
        → s.idmap uuid ≡ none
        → Step s (register c s uuid cronspec task opts).0
    unregisters : (s : Scheduler Table) (id : ℕ) → Step s (unregister c s id).0

  pub data Reach (s : Scheduler Table) : Scheduler Table → Type 0 where
    here : Reach s s
    next : {t u : Scheduler Table} → Reach s t → Step t u → Reach s u

  Step-IsSound : {s t : Scheduler Table} → Step s t → IsSound s → IsSound t
  Step-IsSound (registers s uuid cronspec task opts new) sound =
      register-IsSound s uuid cronspec task opts sound new
  Step-IsSound (unregisters s id) sound = unregister-IsSound s id sound

  -- However tasks are registered, with ids that are not in use, and unregistered, from a new
  -- scheduler on, the scheduler's ids and cron's entries stay one to one: an id leads to the entry
  -- that has its job, and the id of every entry's job leads to that entry.
  pub Reach-IsSound :
      (interval : ℤ) (pre post handler : Bool) {s : Scheduler Table}
      → Reach (new_scheduler c interval pre post handler) s
      → IsSound s
  Reach-IsSound interval pre post handler here = new_scheduler-IsSound interval pre post handler
  Reach-IsSound interval pre post handler (next r st) =
      Step-IsSound st (Reach-IsSound interval pre post handler r)

  -- What Unregister does with the id of a task that was just registered: it finds the entry, and
  -- leaves every id and every entry of cron as before the task was registered, where the id was not
  -- in use.
  pub unregister-register :
      (s s' : Scheduler Table) (uuid cronspec : ℕ) (task : Client.Task) (opts : List ClientOption)
      → s.idmap uuid ≡ none
      → register c s uuid cronspec task opts ≡ (s', some uuid)
      → let r = unregister c s' uuid in
        (r.1 ≡ true)
        × ((id : ℕ) → r.0.idmap id ≡ s.idmap id)
        × ((i : ℕ) → job_of r.0.cron i ≡ job_of s.cron i)
  unfolding register unregister
  unregister-register s s' uuid cronspec task opts new h =
      let j : Job = record { id = uuid; cronspec = cronspec; task = task; opts = opts } in
      elim (Option-cases (add_job s.cron cronspec j)) [
        | inl e ↦ absurd (ground (arith, e, h))
        | inr (r, e) ↦
            let t : Scheduler Table = record s {
              cron = r.1;
              idmap = update s.idmap uuid (some r.0);
            } in
            let known : t ≡ s' = ground (arith, e, h) in
            subst
              (λ u.
                ((unregister c u uuid).1 ≡ true)
                × ((id : ℕ) → (unregister c u uuid).0.idmap id ≡ s.idmap id)
                × ((i : ℕ) → job_of (unregister c u uuid).0.cron i ≡ job_of s.cron i))
              known
              (rw (==_refl uuid, unregister)
                (
                  refl,
                  λ id. ground (arith, new, ==_iff uuid id),
                  λ i. ground (
                    arith,
                    job_of-remove r.1 r.0 i,
                    job_of-add s.cron r.1 cronspec r.0 i j e,
                    add_new s.cron r.1 cronspec r.0 j e,
                    ==_iff r.0 i,
                  ),
                ))
      ]
