-- ===== src/Redis.antt =====
-- What the Lua scripts of internal/rdb/rdb.go and x/rate/semaphore.go ask of Redis. Redis is no code
-- of this repository, so its list and sorted set commands are the fields of a record, with their
-- documented behaviour as laws. Texts (ids, members) are numbers, and so are scores in Unix time.
pub mod Laws
pub mod Bulk
pub mod Model
use asynq.Common.{
  ℕ, ◌≤◌, ◌<◌, ◌≡◌, Bool, List, [], ◌∷◌, ◌++◌, Option, none, some, ◌==◌, leb, if◌then◌else◌, ind,
  is_some, count, without, erase, ltb, take, drop, length, ◌+◌, ◌-◌, ℤ, pos, negsuc,
}

-- The members of a listing with scores, and those with a score of at most a bound.
abbrev pub members : List (ℕ × ℕ) → List ℕ
members [] = []
members ((a, s) ∷ r) = a ∷ members r

abbrev pub members_upto : ℕ → List (ℕ × ℕ) → List ℕ
members_upto bound [] = []
members_upto bound ((a, s) ∷ r) =
    let rest = members_upto bound r in if leb s bound then a ∷ rest else rest

-- Each score of a listing is at least a bound, and at least those before it.
abbrev pub AscendFrom : ℕ → List (ℕ × ℕ) → Type 0
AscendFrom bound [] = Unit {0}
AscendFrom bound ((a, s) ∷ r) = (bound ≤ s) × AscendFrom s r

-- A listing without a member.
abbrev pub drop_member : ℕ → List (ℕ × ℕ) → List (ℕ × ℕ)
drop_member a [] = []
drop_member a ((b, t) ∷ r) = let rest = drop_member a r in if b == a then rest else (b, t) ∷ rest

-- Each score of a listing is below a bound, or above it.
abbrev pub AllBelow : ℕ → List (ℕ × ℕ) → Type 0
AllBelow bound [] = Unit {0}
AllBelow bound ((a, s) ∷ r) = (s < bound) × AllBelow bound r

abbrev pub AllAbove : ℕ → List (ℕ × ℕ) → Type 0
AllAbove bound [] = Unit {0}
AllAbove bound ((a, s) ∷ r) = (bound < s) × AllAbove bound r

-- What LRANGE and ZRANGE read between two indices, both included; below 0 an index counts from the end.
abbrev pub first_index : ℕ → ℤ → ℕ
first_index size (pos n) = n
first_index size (negsuc n) = size - (n + 1)

abbrev pub end_index : ℕ → ℤ → ℕ
end_index size (pos n) = n + 1
end_index size (negsuc n) = size - n

unfoldable pub slice {ℓ} : {A : Type ℓ} → ℤ → ℤ → List A → List A
slice start stop l = drop (first_index (length l) start) (take (end_index (length l) stop) l)

pub record Redis : Type 1 where
  -- Lists, read as LRANGE key 0 -1: from the left end.
  pub lpush : ℕ → List ℕ → List ℕ
  pub rpush : ℕ → List ℕ → List ℕ
  -- LREM key 0 a, with its reply.
  pub lrem : ℕ → List ℕ → List ℕ × ℕ
  -- LREM key 1 a.
  pub lrem_first : ℕ → List ℕ → List ℕ × ℕ
  -- The pop of RPOPLPUSH.
  pub rpop : List ℕ → Option (ℕ × List ℕ)
  -- Sorted sets. ZREM's reply is ZSCORE's answer before it; ZRANGE is with scores, over all ranks.
  pub Zset : Type 0
  pub zempty : Zset
  pub zadd : ℕ → ℕ → Zset → Zset
  pub zrem : ℕ → Zset → Zset
  pub zscore : ℕ → Zset → Option ℕ
  pub zrange : Zset → List (ℕ × ℕ)
  pub lrange : ℤ → ℤ → List ℕ → List ℕ
  -- ZRANGE key start stop WITHSCORES.
  pub zrange_between : ℤ → ℤ → Zset → List (ℕ × ℕ)
  pub lpush_law : (a : ℕ) (l : List ℕ) → lpush a l ≡ a ∷ l
  pub rpush_law : (a : ℕ) (l : List ℕ) → rpush a l ≡ l ++ a ∷ []
  pub lrem_law : (a : ℕ) (l : List ℕ) → lrem a l ≡ (without a l, count a l)
  pub lrem_first_law : (a : ℕ) (l : List ℕ) → lrem_first a l ≡ (erase a l, ind (ltb 0 (count a l)))
  pub rpop_empty : rpop [] ≡ none
  pub rpop_last : (a : ℕ) (l : List ℕ) → rpop (l ++ a ∷ []) ≡ some (a, l)
  pub zscore_empty : (j : ℕ) → zscore j zempty ≡ none
  pub zscore_zadd :
      (j s a : ℕ) (z : Zset) → zscore j (zadd s a z) ≡ (if a == j then some s else zscore j z)
  pub zscore_zrem :
      (j a : ℕ) (z : Zset) → zscore j (zrem a z) ≡ (if a == j then none else zscore j z)
  pub zrange_once : (j : ℕ) (z : Zset) → count j (members (zrange z)) ≡ ind (is_some (zscore j z))
  pub zrange_upto :
      (j bound : ℕ) (z : Zset)
      → count j (members_upto bound (zrange z))
        ≡ (elim (zscore j z) [ none ↦ 0 | some s ↦ ind (leb s bound) ])
  -- ZCARD is the length of the listing.
  pub zcard_zadd :
      (s a : ℕ) (z : Zset)
      → length (zrange (zadd s a z))
        ≡ (if is_some (zscore a z) then length (zrange z) else length (zrange z) + 1)
  pub zcard_zrem :
      (a : ℕ) (z : Zset)
      → length (zrange z) ≡ length (zrange (zrem a z)) + (if is_some (zscore a z) then 1 else 0)
  pub zrange_ascends : (z : Zset) → AscendFrom 0 (zrange z)
  -- The order of a listing is that of the scores.
  pub zrange_last :
      (s a : ℕ) (z : Zset)
      → zscore a z ≡ none
      → AllBelow s (zrange z)
      → zrange (zadd s a z) ≡ zrange z ++ (a, s) ∷ []
  pub zrange_first :
      (s a : ℕ) (z : Zset)
      → zscore a z ≡ none
      → AllAbove s (zrange z)
      → zrange (zadd s a z) ≡ (a, s) ∷ zrange z
  pub zrange_zrem : (a : ℕ) (z : Zset) → zrange (zrem a z) ≡ drop_member a (zrange z)
  pub lrange_law : (start stop : ℤ) (l : List ℕ) → lrange start stop l ≡ slice start stop l
  pub zrange_between_law :
      (start stop : ℤ) (z : Zset) → zrange_between start stop z ≡ slice start stop (zrange z)
  pub zrange_empty : zrange zempty ≡ []

module _ (R : Redis) where
  -- A set has a member.
  abbrev pub holds : ℕ → R.Zset → Bool
  holds j z = is_some (R.zscore j z)

  -- ZRANGEBYSCORE key -inf bound LIMIT 0 limit.
  abbrev pub zcard : R.Zset → ℕ
  zcard z = length (R.zrange z)

  -- ZREM key a₁ … aₙ.
  unfoldable pub zrem_all : List ℕ → R.Zset → R.Zset
  zrem_all [] z = z
  zrem_all (a ∷ rest) z = zrem_all rest (R.zrem a z)

  unfoldable pub zrangebyscore : ℕ → ℕ → R.Zset → List ℕ
  zrangebyscore bound limit z = take limit (members_upto bound (R.zrange z))
