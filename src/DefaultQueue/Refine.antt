-- ===== src/DefaultQueue/Refine.antt =====
-- What it is for a script of internal/rdb/receiver_target_queue.go to do what its namesake for lists in
-- internal/rdb/rdb.go or internal/rdb/inspect.go does. Its children have a script or two each.
pub mod Enqueue
pub mod Work
pub mod Forward
pub mod Run
pub mod RunAll
use asynq.Common.{
  ℕ, ◌≤◌, ◌<◌, ◌≡◌, refl, sym, ◌⊎◌, inl, inr, List, Option, none, some, arith, ◌==◌, leb, false,
  if◌then◌else◌,
}
use asynq.Redis.{Redis}
use asynq.Queue.{Queue}
use asynq.DefaultQueue.{
  DefaultQueue, ScriptReply, view, tail_score, zcount, next_of, next_score, last_of, last_score,
  lowest, highest,
}
use asynq.DefaultQueue.Scores.{Rising, zcount_tail}

-- The last score is at the end of the range, or out of it.
abbrev pub Full : List (ℕ × ℕ) → Type 0
Full l = (s : ℕ) × (tail_score l ≡ some s) × ((s < lowest) ⊎ (highest ≤ s))

next_of-Full :
    (l : List (ℕ × ℕ)) (x : Option ℕ) → Rising l → tail_score l ≡ x → next_of l x ≡ none → Full l
next_of-Full l none h e n = absurd (ground (arith, n))
next_of-Full l (some s) h e n = (s, e, ground (arith, n, zcount_tail l s h e))

pub next_score-Full : (l : List (ℕ × ℕ)) → Rising l → next_score l ≡ none → Full l
unfolding next_score
next_score-Full l h n = next_of-Full l (tail_score l) h refl n

next_of_room :
    (l : List (ℕ × ℕ)) (x : Option ℕ) (s : ℕ) → tail_score l ≡ x → next_of l x ≡ some s → ¬ Full l
next_of_room l x s e n (t, k, out) = ground (arith, e, n, k, out)

-- Where there is a next score, the scores are not used up.
pub next_score_room : (l : List (ℕ × ℕ)) (s : ℕ) → Rising l → next_score l ≡ some s → ¬ Full l
unfolding next_score
next_score_room l s h n = next_of_room l (tail_score l) s refl n

last_of_room :
    (l : List (ℕ × ℕ)) (x : Option ℕ) (s : ℕ)
    → tail_score l ≡ x
    → last_of l x ≡ some s
    → leb highest s ≡ false
    → ¬ Full l
last_of_room l x s e n h (t, k, out) = ground (arith, e, n, k, out, h)

pub last_score_room :
    (l : List (ℕ × ℕ)) (s : ℕ) → last_score l ≡ some s → leb highest s ≡ false → ¬ Full l
unfolding last_score
last_score_room l s n h = last_of_room l (tail_score l) s refl n h

last_of-Full :
    (l : List (ℕ × ℕ)) (x : Option ℕ)
    → Rising l
    → tail_score l ≡ x
    → (last_of l x ≡ none → Full l) × ((s : ℕ) → last_of l x ≡ some s → highest ≤ s → Full l)
last_of-Full l none h e =
    (λ n. absurd (ground (arith, n)), λ s n le. absurd (ground (arith, n, le)))
last_of-Full l (some t) h e =
    (λ n. (t, e, ground (arith, n, zcount_tail l t h e)), λ s n le. (t, e, ground (arith, n, le)))

pub last_score-Full :
    (l : List (ℕ × ℕ))
    → Rising l
    → (last_score l ≡ none → Full l) × ((s : ℕ) → last_score l ≡ some s → highest ≤ s → Full l)
unfolding last_score
last_score-Full l h = last_of-Full l (tail_score l) h refl

module _ {R : Redis} where
  -- The scores of both sorted sets rise strictly.
  abbrev pub InLine : DefaultQueue R → Type 0
  InLine d = Rising (R.zrange d.pending_set) × Rising (R.zrange d.active_set)

  -- A script does on the lists what another has done, replies this, and leaves the scores in line.
  abbrev pub Implements : DefaultQueue R × ScriptReply → Queue R → ScriptReply → Type 0
  Implements r q' reply = (view r.0 ≡ q') × (r.1 ≡ reply) × InLine r.0
