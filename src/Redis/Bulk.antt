-- ===== src/Redis/Bulk.antt =====
-- Removing several members at once, and reading those up to a score.
use asynq.Common.{
  ℕ, ◌+◌, ◌≤◌, ◌<◌, ◌≡◌, refl, zero, suc, ap, some, List, [], ◌∷◌, true, false, none, arith, ltb,
  if◌then◌else◌, ind, count, length, take, count-take-le,
}
use asynq.Redis.{Redis, holds, zcard, zrem_all, members, members_upto, zrangebyscore}
use asynq.Redis.Laws.{holds-zrem}

pub length-members : (l : List (ℕ × ℕ)) → length (members l) ≡ length l
length-members [] = refl
length-members ((a, s) ∷ r) = omega (arith, length-members r)

pub count-members_upto-le :
    (j bound : ℕ) (l : List (ℕ × ℕ)) → count j (members_upto bound l) ≤ count j (members l)
count-members_upto-le j bound [] = omega arith
count-members_upto-le j bound ((a, s) ∷ r) = ground (arith, count-members_upto-le j bound r)

module _ (R : Redis) where
  -- The ids of a list are members, each once.
  abbrev pub Within : List ℕ → R.Zset → Type 0
  Within ids z = (j : ℕ) → count j ids ≤ ind (holds R j z)

  pub Within-tail :
      (a : ℕ) (ids : List ℕ) (z : R.Zset) → Within (a ∷ ids) z → Within ids (R.zrem a z)
  Within-tail a ids z w j = ground (arith, w j, holds-zrem R j a z)

  pub holds_head : (a : ℕ) (ids : List ℕ) (z : R.Zset) → Within (a ∷ ids) z → holds R a z ≡ true
  holds_head a ids z w = ground (arith, w a)

  pub holds-zrem_all :
      (j : ℕ) (ids : List ℕ) (z : R.Zset)
      → holds R j (zrem_all R ids z) ≡ (if ltb 0 (count j ids) then false else holds R j z)
  unfolding zrem_all
  holds-zrem_all j [] z = refl
  holds-zrem_all j (a ∷ ids) z =
      ground (arith, holds-zrem_all j ids (R.zrem a z), holds-zrem R j a z)

  pub zscore-zrem_all :
      (j : ℕ) (ids : List ℕ) (z : R.Zset)
      → R.zscore j (zrem_all R ids z) ≡ (if ltb 0 (count j ids) then none else R.zscore j z)
  unfolding zrem_all
  zscore-zrem_all j [] z = refl
  zscore-zrem_all j (a ∷ ids) z =
      ground (arith, zscore-zrem_all j ids (R.zrem a z), R.zscore_zrem j a z)

  pub zcard-zrem_all :
      (ids : List ℕ) (z : R.Zset)
      → Within ids z
      → zcard R z ≡ zcard R (zrem_all R ids z) + length ids
  unfolding zrem_all
  zcard-zrem_all [] z w = omega arith
  zcard-zrem_all (a ∷ ids) z w = ground (
    arith,
    holds_head a ids z w,
    R.zcard_zrem a z,
    zcard-zrem_all ids (R.zrem a z) (Within-tail a ids z w),
  )

  pub members-Within : (z : R.Zset) → Within (members (R.zrange z)) z
  members-Within z j = omega (arith, R.zrange_once j z)

  pub take-Within : (n : ℕ) (ids : List ℕ) (z : R.Zset) → Within ids z → Within (take n ids) z
  take-Within n ids z w j = omega (arith, count-take-le j n ids, w j)

  pub members_upto-Within : (bound : ℕ) (z : R.Zset) → Within (members_upto bound (R.zrange z)) z
  members_upto-Within bound z j =
      omega (arith, count-members_upto-le j bound (R.zrange z), R.zrange_once j z)

  pub zrangebyscore-Within :
      (bound limit : ℕ) (z : R.Zset) → Within (zrangebyscore R bound limit z) z
  unfolding zrangebyscore
  zrangebyscore-Within bound limit z =
      take-Within limit (members_upto bound (R.zrange z)) z (members_upto-Within bound z)

-- A batch that is cut at a limit and is empty was empty.
take_empty : (limit : ℕ) (l : List ℕ) → 0 < limit → length (take limit l) ≡ 0 → l ≡ []
take_empty limit [] h e = refl
take_empty zero (x ∷ l) h e = absurd (omega arith)
take_empty (suc limit) (x ∷ l) h e = absurd (omega arith)

pub length_zero : (l : List ℕ) → length l ≡ 0 → l ≡ []
length_zero [] e = refl
length_zero (x ∷ l) e = absurd (omega arith)

-- No member of a set has a score of at most a bound.
abbrev pub AllAfter : (R : Redis) → ℕ → R.Zset → Type 0
AllAfter R bound z = (j s : ℕ) → R.zscore j z ≡ some s → bound < s

pub none_due :
    (R : Redis) (bound limit : ℕ) (z : R.Zset)
    → 0 < limit
    → length (zrangebyscore R bound limit z) ≡ 0
    → AllAfter R bound z
unfolding zrangebyscore
none_due R bound limit z pos e j s h = ground (
  arith,
  h,
  ap (count j) (take_empty limit (members_upto bound (R.zrange z)) pos e),
  R.zrange_upto j bound z,
)
