-- ===== src/DefaultQueue/Refine/Forward.antt =====
-- receiverTargetForwardCmd against one round of forwardCmd.
use asynq.Common.{
  Option-cases, ℕ, ◌+◌, ◌-◌, ◌^◌, ◌≡◌, ◌<◌, ◌≤◌, refl, ◌⊎◌, inl, inr, true, false, List, [], ◌∷◌,
  Option, Bool, none, some, arith, Bool-cases, count, ◌==◌, leb, if◌then◌else◌,
}
use asynq.Redis.{Redis, members}
use asynq.Task.{msg_of, is_marked}
use asynq.Queue.Forward.{Delayed, scheduled_key, retry_key, group_of, delayed, forward_one}
use asynq.Queue.Invariant.{Inv}
use asynq.DefaultQueue.{DefaultQueue, ScriptReply, integer, view, with_score, last_score, highest}
use asynq.DefaultQueue.Forward.{
  first_upto, forward_to_group, forward_to_pending, forward_unmarked, forward_marked, forward_first,
  forward_cmd,
}
use asynq.DefaultQueue.Ends.{last_score-AllBelow, zadd_last}
use asynq.DefaultQueue.Refine.{Full, last_score-Full, last_score_room, InLine, Implements}

pub first_upto-member :
    (bound a s : ℕ) (l : List (ℕ × ℕ)) → first_upto bound l ≡ some (a, s) → 0 < count a (members l)
first_upto-member bound a s [] e = absurd (ground (arith, e))
first_upto-member bound a s ((b, t) ∷ r) e = elim (Bool-cases (leb t bound)) [
  | inl h ↦ ground (arith, e, h)
  | inr h ↦ ground (arith, first_upto-member bound a s r (ground (arith, e, h)))
]

module _ {R : Redis} (d : DefaultQueue R) (key : Delayed) (now now_ns : ℕ) where
  -- What a script did with a due task: it was kept where it is, because its time is out of range,
  -- it is of a receiver target or the pending tasks are full, or it was forwarded.
  abbrev pub Forwards : ℕ → ℕ → DefaultQueue R × ScriptReply → Type 0
  Forwards id s r =
      ((r.0 ≡ d)
        × ((2 ^ 53 - 1 < s) ⊎ (is_marked (d.keys.tasks id) ≡ true) ⊎ Full (R.zrange d.pending_set)))
      ⊎ ((s ≤ 2 ^ 53 - 1)
          × (is_marked (d.keys.tasks id) ≡ false)
          × ((0 < group_of (d.keys.tasks id)) ⊎ ¬ Full (R.zrange d.pending_set))
          × Implements r (forward_one (view d) key now now_ns id) (integer 1))

module _ {R : Redis} (d : DefaultQueue R) (inv : Inv (view d)) (line : InLine d) where
  -- A due task is not pending.
  due_free :
      (key : Delayed) (now id s : ℕ)
      → first_upto now (R.zrange (delayed d.keys key)) ≡ some (id, s)
      → count id (view d).pending ≡ 0
  unfolding view
  due_free scheduled_key now id s e = ground (
    arith,
    inv id,
    first_upto-member now id s (R.zrange d.keys.scheduled) e,
    R.zrange_once id d.keys.scheduled,
  )
  due_free retry_key now id s e = ground (
    arith,
    inv id,
    first_upto-member now id s (R.zrange d.keys.retry) e,
    R.zrange_once id d.keys.retry,
  )

  to_group :
      (key : Delayed) (now now_ns id : ℕ)
      → (group_of (d.keys.tasks id) == 0) ≡ false
      → Implements
          (forward_to_group d key now id (group_of (d.keys.tasks id)))
          (forward_one (view d) key now now_ns id)
          (integer 1)
  unfolding forward_to_group forward_one view
  to_group scheduled_key now now_ns id g = simp g (refl, refl, line)
  to_group retry_key now now_ns id g = simp g (refl, refl, line)

  to_pending :
      (key : Delayed) (now now_ns id score : ℕ)
      → (group_of (d.keys.tasks id) == 0) ≡ true
      → leb highest score ≡ false
      → count id (view d).pending ≡ 0
      → last_score (R.zrange d.pending_set) ≡ some score
      → Implements
          (forward_to_pending d key now_ns id score)
          (forward_one (view d) key now now_ns id)
          (integer 1)
  unfolding forward_to_pending forward_one view
  to_pending scheduled_key now now_ns id score g h free n =
      let last =
        zadd_last R id (score + 1) d.pending_set free line.0
          (last_score-AllBelow _ score line.0 n) in
      simp (g, h, last.0) (refl, refl, (last.1, line.1))
  to_pending retry_key now now_ns id score g h free n =
      let last =
        zadd_last R id (score + 1) d.pending_set free line.0
          (last_score-AllBelow _ score line.0 n) in
      simp (g, h, last.0) (refl, refl, (last.1, line.1))

  module _ (key : Delayed) (now now_ns : ℕ) where
    pending-Forwards :
        (id s score : ℕ)
        → first_upto now (R.zrange (delayed d.keys key)) ≡ some (id, s)
        → last_score (R.zrange d.pending_set) ≡ some score
        → (group_of (d.keys.tasks id) == 0) ≡ true
        → s ≤ 2 ^ 53 - 1
        → is_marked (d.keys.tasks id) ≡ false
        → Forwards d key now now_ns id s (forward_to_pending d key now_ns id score)
    unfolding forward_to_pending
    pending-Forwards id s score e n g le k = elim (Bool-cases (leb highest score)) [
      | inl h ↦
          inl (simp h refl, inr (inr ((last_score-Full _ line.0).1 score n (ground (arith, h)))))
      | inr h ↦ inr (
        le,
        k,
        inr (last_score_room _ score n h),
        to_pending key now now_ns id score g h (due_free key now id s e) n,
      )
    ]

    unmarked-Forwards :
        (id s : ℕ)
        → first_upto now (R.zrange (delayed d.keys key)) ≡ some (id, s)
        → s ≤ 2 ^ 53 - 1
        → is_marked (d.keys.tasks id) ≡ false
        → Forwards d key now now_ns id s (forward_unmarked d key now now_ns id)
    unfolding forward_unmarked with_score
    unmarked-Forwards id s e le k = elim (Option-cases (last_score (R.zrange d.pending_set))) [
      | inl n ↦ inl (simp n refl, inr (inr ((last_score-Full _ line.0).0 n)))
      | inr (score, n) ↦ elim (Bool-cases (group_of (d.keys.tasks id) == 0)) [
        | inl g ↦ simp (n, g) (pending-Forwards id s score e n g le k)
        | inr g ↦ inr (le, k, inl (ground (arith, g)), simp (n, g) (to_group key now now_ns id g))
      ]
    ]

    marked_unchanged : (id s : ℕ) (m : Option ℕ) → (forward_marked d id s m).0 ≡ d
    unfolding forward_marked
    marked_unchanged id s none = refl
    marked_unchanged id s (some m) = refl

    either-Forwards :
        (id s : ℕ) (b : Bool)
        → first_upto now (R.zrange (delayed d.keys key)) ≡ some (id, s)
        → is_marked (d.keys.tasks id) ≡ b
        → s ≤ 2 ^ 53 - 1
        → Forwards d key now now_ns id s (
            if b
            then forward_marked d id s (msg_of (d.keys.tasks id))
            else forward_unmarked d key now now_ns id)
    either-Forwards id s true e k le = inl (marked_unchanged id s _, inr (inl k))
    either-Forwards id s false e k le = unmarked-Forwards id s e le k

    first-Forwards :
        (x : Option (ℕ × ℕ))
        → first_upto now (R.zrange (delayed d.keys key)) ≡ x
        → let r = forward_first d key now now_ns x in
          ((x ≡ none) × (r ≡ (d, integer 0)))
          ⊎ ((id : ℕ) × (s : ℕ) × (x ≡ some (id, s)) × Forwards d key now now_ns id s r)
    unfolding forward_first
    first-Forwards none e = inl (refl, refl)
    first-Forwards (some (id, s)) e = inr (
      id,
      s,
      refl,
      elim (Bool-cases (leb s (2 ^ 53 - 1))) [
        | inr h ↦ inl (simp h refl, inl (ground (arith, h)))
        | inl h ↦
            simp h (either-Forwards id s (is_marked (d.keys.tasks id)) e refl (ground (arith, h)))
      ],
    )

    pub forward-Implements :
        let due = first_upto now (R.zrange (delayed d.keys key)) in
        let r = forward_cmd d key now now_ns in
        ((due ≡ none) × (r ≡ (d, integer 0)))
        ⊎ ((id : ℕ) × (s : ℕ) × (due ≡ some (id, s)) × Forwards d key now now_ns id s r)
    unfolding forward_cmd
    forward-Implements = first-Forwards (first_upto now (R.zrange (delayed d.keys key))) refl
