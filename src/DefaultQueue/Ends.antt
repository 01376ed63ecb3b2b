-- ===== src/DefaultQueue/Ends.antt =====
-- A task that is added at an end of a sorted set, or taken out of it, in the order of its tasks
-- (internal/rdb/receiver_target_queue.go).
use asynq.Common.{
  ℕ, ◌+◌, ◌<◌, ◌≡◌, refl, sym, ap, ◌∙◌, subst, List, [], ◌∷◌, ◌++◌, Option, none, some, arith, ind,
  count, ==_refl,
}
use asynq.Redis.{Redis, holds, members, AllBelow, AllAbove}
use asynq.DefaultQueue.{tail_score, next_of, next_score, last_of, last_score, in_list}
use asynq.DefaultQueue.Work.{score_before}
use asynq.DefaultQueue.Scores.{
  Rising, Rising-last, Rising-drop_member, tail-AllBelow, AllAbove-mono, in_list-last,
  in_list-first, in_list-drop_member, count-in_list, drop_free, AllBelow-last, AllBelow-mono,
}

no_tail : (l : List (ℕ × ℕ)) → tail_score l ≡ none → l ≡ []
no_tail [] e = refl
no_tail ((a, s) ∷ []) e = absurd (ground (arith, e))
no_tail ((a, s) ∷ (b, t) ∷ r) e = absurd (ground (arith, no_tail ((b, t) ∷ r) e))

-- The score that a script adds a task with is above all others.
next_of-AllBelow :
    (l : List (ℕ × ℕ)) (x : Option ℕ) (s : ℕ)
    → Rising l
    → tail_score l ≡ x
    → next_of l x ≡ some s
    → AllBelow s l
next_of-AllBelow l none s h e n = subst (AllBelow s) (sym (no_tail l e)) tt
next_of-AllBelow l (some t) s h e n =
    subst (λ u. AllBelow u l) (ground (arith, n)) (tail-AllBelow l t h e)

pub next_score-AllBelow :
    (l : List (ℕ × ℕ)) (s : ℕ) → Rising l → next_score l ≡ some s → AllBelow s l
unfolding next_score
next_score-AllBelow l s h n = next_of-AllBelow l (tail_score l) s h refl n

last_of-AllBelow :
    (l : List (ℕ × ℕ)) (x : Option ℕ) (s : ℕ)
    → Rising l
    → tail_score l ≡ x
    → last_of l x ≡ some s
    → AllBelow (s + 1) l
last_of-AllBelow l none s h e n = subst (AllBelow (s + 1)) (sym (no_tail l e)) tt
last_of-AllBelow l (some t) s h e n =
    subst (λ u. AllBelow (u + 1) l) (ground (arith, n)) (tail-AllBelow l t h e)

pub last_score-AllBelow :
    (l : List (ℕ × ℕ)) (s : ℕ) → Rising l → last_score l ≡ some s → AllBelow (s + 1) l
unfolding last_score
last_score-AllBelow l s h n = last_of-AllBelow l (tail_score l) s h refl n

-- The score that a task is given back with is below all others.
pub score_before-AllAbove :
    (l : List (ℕ × ℕ)) (s : ℕ) → Rising l → score_before l ≡ some s → AllAbove s l
unfolding score_before
score_before-AllAbove [] s h n = tt
score_before-AllAbove ((a, t) ∷ r) s h n =
    let lt : s < t = ground (arith, n) in (lt, AllAbove-mono s t r (omega (arith, lt)) h.0)

module _ (R : Redis) where
  pub count-zrange : (j : ℕ) (z : R.Zset) → count j (in_list (R.zrange z)) ≡ ind (holds R j z)
  count-zrange j z = count-in_list j (R.zrange z) ∙ R.zrange_once j z

  absent : (a : ℕ) (z : R.Zset) → count a (in_list (R.zrange z)) ≡ 0 → R.zscore a z ≡ none
  absent a z e = ground (arith, e, count-zrange a z)

  module _ (a s : ℕ) (z : R.Zset) (free : count a (in_list (R.zrange z)) ≡ 0)
      (rising : Rising (R.zrange z)) where
    -- A new task behind all others is the first in the order of lists.
    pub zadd_last :
        AllBelow s (R.zrange z)
        → (in_list (R.zrange (R.zadd s a z)) ≡ R.lpush a (in_list (R.zrange z)))
          × Rising (R.zrange (R.zadd s a z))
    zadd_last h =
        rw (R.zrange_last s a z (absent a z free) h, R.lpush_law a (in_list (R.zrange z)))
          (in_list-last a s (R.zrange z), Rising-last a s (R.zrange z) rising h)

    pub zadd-AllBelow : AllBelow s (R.zrange z) → AllBelow (s + 1) (R.zrange (R.zadd s a z))
    zadd-AllBelow h = rw (R.zrange_last s a z (absent a z free) h) (
        AllBelow-last (s + 1) a s (R.zrange z) (omega arith)
          (AllBelow-mono s (s + 1) (R.zrange z) (omega arith) h))

    pub zadd_first :
        AllAbove s (R.zrange z)
        → (in_list (R.zrange (R.zadd s a z)) ≡ R.rpush a (in_list (R.zrange z)))
          × Rising (R.zrange (R.zadd s a z))
    zadd_first h =
        rw (R.zrange_first s a z (absent a z free) h, R.rpush_law a (in_list (R.zrange z)))
          (in_list-first a s (R.zrange z), (h, rising))

  pub zrem_lrem :
      (a : ℕ) (z : R.Zset) → in_list (R.zrange (R.zrem a z)) ≡ (R.lrem a (in_list (R.zrange z))).0
  zrem_lrem a z =
      rw (R.zrange_zrem a z, R.lrem_law a (in_list (R.zrange z)))
        (in_list-drop_member a (R.zrange z))

  pub zrem-Rising : (a : ℕ) (z : R.Zset) → Rising (R.zrange z) → Rising (R.zrange (R.zrem a z))
  zrem-Rising a z h = rw (R.zrange_zrem a z) (Rising-drop_member a (R.zrange z) h)

  -- The reply of LREM.
  pub lrem_count : (a : ℕ) (z : R.Zset) → (R.lrem a (in_list (R.zrange z))).1 ≡ ind (holds R a z)
  lrem_count a z = rw (R.lrem_law a (in_list (R.zrange z))) (count-zrange a z)

  -- The first of a sorted set is the last in the order of lists, and the others follow.
  pub head_last :
      (a s : ℕ) (r : List (ℕ × ℕ)) (z : R.Zset)
      → R.zrange z ≡ (a, s) ∷ r
      → in_list (R.zrange z) ≡ in_list (R.zrange (R.zrem a z)) ++ a ∷ []
  head_last a s r z e =
      let once : count a (members r) ≡ 0 =
        ground (arith, ap (λ l. count a (members l)) e, R.zrange_once a z) in
      rw (R.zrange_zrem a z, e) (simp (==_refl a, drop_free a r once) (in_list-first a s r))
