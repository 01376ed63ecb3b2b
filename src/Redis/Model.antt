-- ===== src/Redis/Model.antt =====
-- A value of `Redis`: lists as lists, and a sorted set as the list of its members with their scores,
-- in the order of ZRANGE. It shows that the laws can be met, and the examples run on it.
use mathlib.Core.List.{reverse, reverse-append, reverse-reverse}
use asynq.Common.{
  ℕ, ◌+◌, ◌≤◌, ◌≡◌, refl, Bool, List, [], ◌∷◌, ◌++◌, Option, none, some, arith, ◌==◌, ◌||◌, ◌&&◌,
  ltb, leb, if◌then◌else◌, ind, is_some, count, without, erase, length, Bool-cases, inl, inr, ap,
  ◌∙◌,
}
use asynq.Redis.{Redis, AscendFrom, AllBelow, AllAbove, drop_member, slice, members, members_upto}

abbrev pub Listing : Type 0
Listing = List (ℕ × ℕ)

pub score_of : ℕ → Listing → Option ℕ
score_of j [] = none
score_of j ((a, s) ∷ r) = if a == j then some s else score_of j r

-- Equal scores are ordered by member.
pub comes_before : ℕ → ℕ → ℕ → ℕ → Bool
comes_before s a t b = ltb s t || (s == t && ltb a b)

pub insert : ℕ → ℕ → Listing → Listing
unfolding comes_before
insert s a [] = (a, s) ∷ []
insert s a ((b, t) ∷ r) =
    let rest = insert s a r in if comes_before s a t b then (a, s) ∷ (b, t) ∷ r else (b, t) ∷ rest

-- No member stands twice.
abbrev pub Distinct : Listing → Type 0
Distinct [] = Unit {0}
Distinct ((a, s) ∷ r) = (count a (members r) ≡ 0) × Distinct r

pub score_of-drop_member :
    (j a : ℕ) (l : Listing) → score_of j (drop_member a l) ≡ (if a == j then none else score_of j l)
unfolding score_of
score_of-drop_member j a [] = ground arith
score_of-drop_member j a ((b, t) ∷ r) = ground (arith, score_of-drop_member j a r)

score_of-insert :
    (j s a : ℕ) (l : Listing)
    → score_of a l ≡ none
    → score_of j (insert s a l) ≡ (if a == j then some s else score_of j l)
unfolding score_of insert
score_of-insert j s a [] e = refl
score_of-insert j s a ((b, t) ∷ r) e = ground (arith, score_of-insert j s a r)

pub members-drop_member :
    (j a : ℕ) (l : Listing)
    → count j (members (drop_member a l)) ≡ (if a == j then 0 else count j (members l))
members-drop_member j a [] = ground arith
members-drop_member j a ((b, t) ∷ r) = ground (arith, members-drop_member j a r)

members-insert :
    (j s a : ℕ) (l : Listing)
    → count j (members (insert s a l)) ≡ ind (a == j) + count j (members l)
unfolding insert
members-insert j s a [] = refl
members-insert j s a ((b, t) ∷ r) = ground (arith, members-insert j s a r)

pub drop_member-Distinct : (a : ℕ) (l : Listing) → Distinct l → Distinct (drop_member a l)
drop_member-Distinct a [] d = tt
drop_member-Distinct a ((b, t) ∷ r) d =
    ground (arith, drop_member-Distinct a r d.1, members-drop_member b a r)

pub insert-Distinct :
    (s a : ℕ) (l : Listing) → count a (members l) ≡ 0 → Distinct l → Distinct (insert s a l)
unfolding insert
insert-Distinct s a [] e d = (refl, tt)
insert-Distinct s a ((b, t) ∷ r) e d = ground (arith, insert-Distinct s a r, members-insert b s a r)

pub drop_member-AscendFrom :
    (a bound : ℕ) (l : Listing) → AscendFrom bound l → AscendFrom bound (drop_member a l)
drop_member-AscendFrom a bound [] h = tt
drop_member-AscendFrom a bound ((b, t) ∷ r) h =
    ground (arith, drop_member-AscendFrom a t r h.1, AscendFrom-mono bound t (drop_member a r) h.0)
  where
    AscendFrom-mono :
        (low high : ℕ) (l : Listing) → low ≤ high → AscendFrom high l → AscendFrom low l
    AscendFrom-mono low high [] le h = tt
    AscendFrom-mono low high ((c, u) ∷ l) le h = (omega arith, h.1)

pub insert-AscendFrom :
    (s a bound : ℕ) (l : Listing) → bound ≤ s → AscendFrom bound l → AscendFrom bound (insert s a l)
unfolding insert
insert-AscendFrom s a bound [] le h = (le, tt)
insert-AscendFrom s a bound ((b, t) ∷ r) le h = ground (arith, insert-AscendFrom s a t r)

pub count-members :
    (j : ℕ) (l : Listing) → Distinct l → count j (members l) ≡ ind (is_some (score_of j l))
unfolding score_of
count-members j [] d = refl
count-members j ((a, s) ∷ r) d = ground (arith, d, count-members j r d.1)

pub count-members_upto :
    (j bound : ℕ) (l : Listing)
    → Distinct l
    → count j (members_upto bound l)
      ≡ (elim (score_of j l) [ none ↦ 0 | some s ↦ ind (leb s bound) ])
unfolding score_of
count-members_upto j bound [] d = refl
count-members_upto j bound ((a, s) ∷ r) d =
    ground (arith, d, count-members_upto j bound r d.1, count-members j r d.1)

pub length-drop_member :
    (a : ℕ) (l : Listing)
    → Distinct l
    → length l ≡ length (drop_member a l) + (if is_some (score_of a l) then 1 else 0)
unfolding score_of
length-drop_member a [] d = refl
length-drop_member a ((b, t) ∷ r) d =
    ground (arith, d, length-drop_member a r d.1, count-members a r d.1)

length-insert : (s a : ℕ) (l : Listing) → length (insert s a l) ≡ length l + 1
unfolding insert
length-insert s a [] = refl
length-insert s a ((b, t) ∷ r) = ground (arith, length-insert s a r)

abbrev pub Zset : Type 0
Zset = (l : Listing) × Distinct l × AscendFrom 0 l

absent : (a : ℕ) (l : Listing) → score_of a (drop_member a l) ≡ none
absent a l = ground (arith, score_of-drop_member a a l)

pub zadd : ℕ → ℕ → Zset → Zset
unfolding insert
zadd s a z = (
  insert s a (drop_member a z.0),
  insert-Distinct s a (drop_member a z.0) (ground (arith, members-drop_member a a z.0))
      (drop_member-Distinct a z.0 z.1),
  insert-AscendFrom s a 0 (drop_member a z.0) (omega arith) (drop_member-AscendFrom a 0 z.0 z.2),
)

pub zrem : ℕ → Zset → Zset
zrem a z = (drop_member a z.0, drop_member-Distinct a z.0 z.1, drop_member-AscendFrom a 0 z.0 z.2)

pub zscore_zadd :
    (j s a : ℕ) (z : Zset) → score_of j (zadd s a z).0 ≡ (if a == j then some s else score_of j z.0)
unfolding zadd
zscore_zadd j s a z =
    ground (
      arith,
      score_of-insert j s a (drop_member a z.0) (absent a z.0),
      score_of-drop_member j a z.0,
    )

pub zcard_zadd :
    (s a : ℕ) (z : Zset)
    → length (zadd s a z).0 ≡ (if is_some (score_of a z.0) then length z.0 else length z.0 + 1)
unfolding zadd
zcard_zadd s a z =
    ground (arith, length-insert s a (drop_member a z.0), length-drop_member a z.0 z.1)

-- A new member whose score is above all others is listed last, and one below them first.
drop_absent : (a : ℕ) (l : Listing) → score_of a l ≡ none → drop_member a l ≡ l
unfolding score_of
drop_absent a [] e = refl
drop_absent a ((b, t) ∷ r) e = elim (Bool-cases (b == a)) [
  | inl h ↦ absurd (ground (arith, e, h))
  | inr h ↦ rw (h, drop_absent a r (ground (arith, e, h))) refl
]

insert_last : (s a : ℕ) (l : Listing) → AllBelow s l → insert s a l ≡ l ++ (a, s) ∷ []
unfolding insert comes_before
insert_last s a [] h = refl
insert_last s a ((b, t) ∷ r) h = ground (arith, insert_last s a r h.1)

insert_first : (s a : ℕ) (l : Listing) → AllAbove s l → insert s a l ≡ (a, s) ∷ l
unfolding insert comes_before
insert_first s a [] h = refl
insert_first s a ((b, t) ∷ r) h = ground arith

pub zrange_last :
    (s a : ℕ) (z : Zset)
    → score_of a z.0 ≡ none
    → AllBelow s z.0
    → (zadd s a z).0 ≡ z.0 ++ (a, s) ∷ []
unfolding zadd
zrange_last s a z e h = ap (insert s a) (drop_absent a z.0 e) ∙ insert_last s a z.0 h

pub zrange_first :
    (s a : ℕ) (z : Zset) → score_of a z.0 ≡ none → AllAbove s z.0 → (zadd s a z).0 ≡ (a, s) ∷ z.0
unfolding zadd
zrange_first s a z e h = ap (insert s a) (drop_absent a z.0 e) ∙ insert_first s a z.0 h

pop_first : List ℕ → Option (ℕ × List ℕ)
pop_first [] = none
pop_first (a ∷ m) = some (a, reverse m)

pub pop_last : List ℕ → Option (ℕ × List ℕ)
unfolding pop_first
pop_last l = pop_first (reverse l)

pub pop_last-append : (a : ℕ) (l : List ℕ) → pop_last (l ++ a ∷ []) ≡ some (a, l)
unfolding pop_last
pop_last-append a l = rw (reverse-append l (a ∷ []), reverse-reverse l)

unfoldable pub model : Redis
unfolding score_of zadd zrem pop_last slice
model = record {
  lpush = λ a l. a ∷ l;
  rpush = λ a l. l ++ a ∷ [];
  lrem = λ a l. (without a l, count a l);
  lrem_first = λ a l. (erase a l, ind (ltb 0 (count a l)));
  rpop = pop_last;
  Zset = Zset;
  zempty = ([], tt, tt);
  zadd = zadd;
  zrem = zrem;
  zscore = λ j z. score_of j z.0;
  zrange = λ z. z.0;
  lrange = λ start stop l. slice start stop l;
  zrange_between = λ start stop z. slice start stop z.0;
  lpush_law = λ a l. refl;
  rpush_law = λ a l. refl;
  lrem_law = λ a l. refl;
  lrem_first_law = λ a l. refl;
  rpop_empty = refl;
  rpop_last = pop_last-append;
  zscore_empty = λ j. refl;
  zscore_zadd = zscore_zadd;
  zscore_zrem = λ j a z. score_of-drop_member j a z.0;
  zrange_once = λ j z. count-members j z.0 z.1;
  zrange_upto = λ j bound z. count-members_upto j bound z.0 z.1;
  zcard_zadd = zcard_zadd;
  zcard_zrem = λ a z. length-drop_member a z.0 z.1;
  zrange_ascends = λ z. z.2;
  zrange_last = zrange_last;
  zrange_first = zrange_first;
  zrange_zrem = λ a z. refl;
  lrange_law = λ start stop l. refl;
  zrange_between_law = λ start stop z. refl;
  zrange_empty = refl;
}
