-- ===== src/DefaultQueue/Refine/Run.antt =====
-- receiverTargetRunTaskCmd against runTaskCmd (internal/rdb/inspect.go).
use asynq.Common.{
  Option-cases, ℕ, ◌≡◌, refl, ap, sym, ◌⊎◌, inl, inr, true, false, List, Option, Bool, none, some,
  arith, Bool-cases, ◌==◌, if◌then◌else◌, subst,
}
use asynq.Redis.{Redis, zcard}
use asynq.Task.{
  TaskState, active, pending, scheduled, retry, archived, completed, aggregating, TaskHash,
  is_marked,
}
use asynq.Queue.{Queue, SetNames}
use asynq.Queue.Inspect.{
  Answer, done, not_found, is_active, is_pending, internal, unsupported, state_out, zset_out,
  group_out,
}
use asynq.Queue.Inspect.Run
use asynq.Queue.Invariant.Inspect.{Both, Out}
use asynq.Queue.Invariant.Inspect.One.{state_read}
use asynq.DefaultQueue.{
  DefaultQueue, ScriptReply, integer, minus, score_exhausted, membership_missing,
  inspector_unsupported, script_error, view, with_score, next_score,
}
use asynq.DefaultQueue.Run.{line_up, run_out, run_state, run_hash, run_task_cmd}
use asynq.DefaultQueue.Ends.{next_score-AllBelow, zadd_last}
use asynq.DefaultQueue.Refine.{Full, next_score-Full, InLine}

-- A queue with other lists.
abbrev with_lists : {R : Redis} → List ℕ → List ℕ → Queue R → Queue R
with_lists p a q = record q { pending = p; active = a }

abbrev mapped : {R : Redis} → List ℕ → List ℕ → Option (Queue R) → Option (Queue R)
mapped p a none = none
mapped p a (some q) = some (with_lists p a q)

-- Taking a task out of its set or group does not depend on the lists.
if-mapped :
    {R : Redis} (p a : List ℕ) (b : Bool) (q : Queue R)
    → (if b then some (with_lists p a q) else none) ≡ mapped p a (if b then some q else none)
if-mapped p a true q = refl
if-mapped p a false q = refl

state_out-lists :
    {R : Redis} (p a : List ℕ) (q : Queue R) (id : ℕ) (group : Option ℕ) (s : TaskState)
    → state_out (with_lists p a q) id group s ≡ mapped p a (state_out q id group s)
unfolding state_out zset_out group_out
state_out-lists p a q id group active = refl
state_out-lists p a q id group pending = refl
state_out-lists p a q id group scheduled = if-mapped p a _ _
state_out-lists p a q id group retry = if-mapped p a _ _
state_out-lists p a q id group archived = if-mapped p a _ _
state_out-lists p a q id group completed = if-mapped p a _ _
state_out-lists p a q id none aggregating = refl
state_out-lists {R} p a q id (some group) aggregating =
    elim (Bool-cases (zcard R (R.zrem id (q.groups group)) == 0)) [
      | inl e ↦ simp e (if-mapped p a _ _)
      | inr e ↦ simp e (if-mapped p a _ _)
    ]

-- The answer that runTaskCmd has for a reply.
abbrev pub as_answer : ScriptReply → Answer
as_answer (integer n) = if n == 1 then done else not_found
as_answer (minus n) = if n == 1 then is_active else is_pending
as_answer membership_missing = internal
as_answer script_error = internal
as_answer _ = unsupported

module _ {R : Redis} (d : DefaultQueue R) (id : ℕ) where
  -- The script refuses a marked task, finds no score, or does on the lists what its namesake does.
  abbrev pub RunsUnmarked : DefaultQueue R × ScriptReply → Queue R × Answer → Type 0
  RunsUnmarked r r' =
      (Full (R.zrange d.pending_set) × (r ≡ (d, score_exhausted)))
      ⊎ ((view r.0 ≡ r'.0) × (as_answer r.1 ≡ r'.1) × InLine r.0)

  abbrev pub Runs : DefaultQueue R × ScriptReply → Queue R × Answer → Type 0
  Runs r r' =
      ((is_marked (d.keys.tasks id) ≡ true) × (r ≡ (d, inspector_unsupported)))
      ⊎ ((is_marked (d.keys.tasks id) ≡ false) × RunsUnmarked r r')

module _ {R : Redis} (names : SetNames) (d : DefaultQueue R) (both : Both names (view d))
    (line : InLine d) (id : ℕ) where
  -- A script that looks for the next score.
  score-Runs :
      (next : ℕ → DefaultQueue R × ScriptReply) (r' : Queue R × Answer)
      → ((score : ℕ)
          → next_score (R.zrange d.pending_set) ≡ some score
          → RunsUnmarked d id (next score) r')
      → RunsUnmarked d id
          (with_score d score_exhausted (next_score (R.zrange d.pending_set)) next)
          r'
  unfolding with_score
  score-Runs next r' h = elim (Option-cases (next_score (R.zrange d.pending_set))) [
    | inl n ↦ inl (next_score-Full _ line.0 n, simp n refl)
    | inr (score, n) ↦ simp n (h score n)
  ]

  moved-Runs :
      (x : Option (Queue R)) (score : ℕ)
      → Out names (view d) id (mapped (view d).pending (view d).active x)
      → next_score (R.zrange d.pending_set) ≡ some score
      → RunsUnmarked d id
          (run_out d id score x)
          (Run.run_out (view d) id (mapped (view d).pending (view d).active x))
  unfolding run_out line_up view
  moved-Runs none score o n = inr (refl, refl, line)
  moved-Runs (some k) score o n =
      let last =
        zadd_last R id score d.pending_set o.free.no_pending line.0
          (next_score-AllBelow _ score line.0 n) in
      inr (simp last.0 (refl, refl, (last.1, line.1)))

  state-Runs :
      (h : TaskHash) (g : Option ℕ) (s : TaskState)
      → d.keys.tasks id ≡ some h
      → h.group ≡ g
      → h.state ≡ some s
      → RunsUnmarked d id
          (with_score d score_exhausted
            (next_score (R.zrange d.pending_set))
            λ score. run_out d id score (state_out d.keys id g s))
          (Run.run_out (view d) id (state_out (view d) id h.group s))
  unfolding view
  state-Runs h g s e eg es =
      let lists = state_out-lists (view d).pending (view d).active d.keys id h.group s in
      let r' = Run.run_out (view d) id (state_out (view d) id h.group s) in
      let f = λ (x : Option ℕ) (score : ℕ). run_out d id score (state_out d.keys id x s) in
      subst
        (λ x.
          RunsUnmarked d id
            (with_score d score_exhausted (next_score (R.zrange d.pending_set)) (f x)) r')
        eg
        (score-Runs (f h.group) r' λ score n.
          subst (λ x. RunsUnmarked d id (f h.group score) (Run.run_out (view d) id x)) (sym lists)
            (moved-Runs _ score
              (subst (Out names (view d) id) lists (state_read names (view d) both id h s e es)) n))

  no_group-Runs :
      (g : Option ℕ)
      → g ≡ none
      → RunsUnmarked d id
          (with_score d score_exhausted
            (next_score (R.zrange d.pending_set))
            λ score. (d, script_error))
          (Run.run_out (view d) id (group_out (view d) id g))
  unfolding group_out
  no_group-Runs none e = score-Runs _ _ λ score n. inr (refl, refl, line)
  no_group-Runs (some g) e = absurd (ground (arith, e))

  named-Runs :
      (h : TaskHash) (g : Option ℕ) (s : Option TaskState)
      → d.keys.tasks id ≡ some h
      → h.group ≡ g
      → h.state ≡ s
      → RunsUnmarked d id (run_state d id g s) (Run.run_state (view d) id h s)
  unfolding run_state Run.run_state view state_out
  named-Runs h g none e eg es = score-Runs _ _ λ score n. inr (refl, refl, line)
  named-Runs h g (some active) e eg es = inr (refl, refl, line)
  named-Runs h g (some pending) e eg es = inr (refl, refl, line)
  named-Runs h none (some aggregating) e eg es = no_group-Runs h.group eg
  named-Runs h (some g) (some aggregating) e eg es = state-Runs h (some g) aggregating e eg es
  named-Runs h g (some scheduled) e eg es = state-Runs h g scheduled e eg es
  named-Runs h g (some retry) e eg es = state-Runs h g retry e eg es
  named-Runs h g (some archived) e eg es = state-Runs h g archived e eg es
  named-Runs h g (some completed) e eg es = state-Runs h g completed e eg es

  unless-Runs :
      (b : Bool) (r : DefaultQueue R × ScriptReply) (r' : Queue R × Answer)
      → is_marked (d.keys.tasks id) ≡ b
      → RunsUnmarked d id r r'
      → Runs d id (if b then (d, inspector_unsupported) else r) r'
  unless-Runs true r r' m h = inl (m, refl)
  unless-Runs false r r' m h = inr (m, h)

  hash-Runs :
      (x : Option TaskHash)
      → d.keys.tasks id ≡ x
      → Runs d id (run_hash d id x) (Run.run_hash (view d) id x)
  unfolding run_hash Run.run_hash
  hash-Runs none e = inr (ap is_marked e, inr (refl, refl, line))
  hash-Runs (some h) e =
      unless-Runs _ _ _ (ap is_marked e) (named-Runs h h.group h.state e refl refl)

  -- In the queue `default`, with its invariants and its scores in line, running a task by hand does what
  -- it does in other queues, with the same answer; or it changes nothing, since the last pending score
  -- is at the end of its range. A marked task is refused, and nothing changes.
  pub run_task-Implements : Runs d id (run_task_cmd d id) (Run.run_task_cmd (view d) id)
  unfolding run_task_cmd Run.run_task_cmd view
  run_task-Implements = hash-Runs (d.keys.tasks id) refl
