-- ===== src/DefaultQueue/Scores.antt =====
-- Listings whose scores rise strictly, and the orders of their members
-- (internal/rdb/receiver_target_queue.go).
use mathlib.Core.List.{reverse, reverse-append, reverse-cons, append-nil}
use asynq.Common.{
  ℕ, ◌+◌, ◌≤◌, ◌<◌, ◌≡◌, refl, sym, ap, ◌∙◌, inl, inr, List, [], ◌∷◌, ◌++◌, some, arith, ◌==◌,
  count, count-append, without, Bool-cases,
}
use asynq.Redis.{members, AllBelow, AllAbove, drop_member}
use asynq.DefaultQueue.{tail_score, zcount, in_list}

-- Each score is below all that follow it.
abbrev pub Rising : List (ℕ × ℕ) → Type 0
Rising [] = Unit {0}
Rising ((a, s) ∷ r) = AllAbove s r × Rising r

pub AllBelow-mono :
    (low high : ℕ) (l : List (ℕ × ℕ)) → low ≤ high → AllBelow low l → AllBelow high l
AllBelow-mono low high [] le h = tt
AllBelow-mono low high ((a, s) ∷ r) le h = (omega (arith, h), AllBelow-mono low high r le h.1)

pub AllAbove-mono :
    (low high : ℕ) (l : List (ℕ × ℕ)) → low ≤ high → AllAbove high l → AllAbove low l
AllAbove-mono low high [] le h = tt
AllAbove-mono low high ((a, s) ∷ r) le h = (omega (arith, h), AllAbove-mono low high r le h.1)

AllAbove-last :
    (low a s : ℕ) (l : List (ℕ × ℕ)) → low < s → AllAbove low l → AllAbove low (l ++ (a, s) ∷ [])
AllAbove-last low a s [] lt h = (lt, tt)
AllAbove-last low a s ((b, t) ∷ r) lt h = (h.0, AllAbove-last low a s r lt h.1)

AllAbove-drop_member :
    (low a : ℕ) (l : List (ℕ × ℕ)) → AllAbove low l → AllAbove low (drop_member a l)
AllAbove-drop_member low a [] h = tt
AllAbove-drop_member low a ((b, t) ∷ r) h = ground (arith, AllAbove-drop_member low a r h.1)

pub Rising-last : (a s : ℕ) (l : List (ℕ × ℕ)) → Rising l → AllBelow s l → Rising (l ++ (a, s) ∷ [])
Rising-last a s [] h b = (tt, tt)
Rising-last a s ((c, t) ∷ r) h b = (AllAbove-last t a s r b.0 h.0, Rising-last a s r h.1 b.1)

pub Rising-drop_member : (a : ℕ) (l : List (ℕ × ℕ)) → Rising l → Rising (drop_member a l)
Rising-drop_member a [] h = tt
Rising-drop_member a ((b, t) ∷ r) h =
    ground (arith, Rising-drop_member a r h.1, AllAbove-drop_member t a r h.0)

pub AllBelow-last :
    (bound a s : ℕ) (l : List (ℕ × ℕ))
    → s < bound
    → AllBelow bound l
    → AllBelow bound (l ++ (a, s) ∷ [])
AllBelow-last bound a s [] lt h = (lt, tt)
AllBelow-last bound a s ((b, t) ∷ r) lt h = (h.0, AllBelow-last bound a s r lt h.1)

-- No score of a rising listing is above its last.
pub tail-AllBelow :
    (l : List (ℕ × ℕ)) (s : ℕ) → Rising l → tail_score l ≡ some s → AllBelow (s + 1) l
tail-AllBelow [] s h e = tt
tail-AllBelow ((a, t) ∷ []) s h e = ground (arith, e)
tail-AllBelow ((a, t) ∷ (b, u) ∷ r) s h e =
    let ih = tail-AllBelow ((b, u) ∷ r) s h.1 e in (omega (arith, ih.0, h.0.0), ih)

zcount_above : (s : ℕ) (l : List (ℕ × ℕ)) → AllAbove s l → zcount s l ≡ 0
zcount_above s [] h = refl
zcount_above s ((a, t) ∷ r) h = ground (arith, h, zcount_above s r h.1)

-- The last score of a rising listing, and the first, stand once.
pub zcount_tail : (l : List (ℕ × ℕ)) (s : ℕ) → Rising l → tail_score l ≡ some s → zcount s l ≡ 1
zcount_tail [] s h e = absurd (ground (arith, e))
zcount_tail ((a, t) ∷ []) s h e = ground (arith, e)
zcount_tail ((a, t) ∷ (b, u) ∷ r) s h e =
    let ih = zcount_tail ((b, u) ∷ r) s h.1 e in
    let below = tail-AllBelow ((b, u) ∷ r) s h.1 e in ground (arith, ih, below, h)

pub zcount_head : (a s : ℕ) (r : List (ℕ × ℕ)) → Rising ((a, s) ∷ r) → zcount s ((a, s) ∷ r) ≡ 1
zcount_head a s r h = ground (arith, zcount_above s r h.0)

members-append : (l m : List (ℕ × ℕ)) → members (l ++ m) ≡ members l ++ members m
members-append [] m = refl
members-append ((a, s) ∷ r) m = ap (λ x. a ∷ x) (members-append r m)

members-drop_member : (a : ℕ) (l : List (ℕ × ℕ)) → members (drop_member a l) ≡ without a (members l)
members-drop_member a [] = refl
members-drop_member a ((b, t) ∷ r) = ground (arith, members-drop_member a r)

pub drop_free : (a : ℕ) (l : List (ℕ × ℕ)) → count a (members l) ≡ 0 → drop_member a l ≡ l
drop_free a [] e = refl
drop_free a ((b, t) ∷ r) e = ground (arith, e, drop_free a r)

without-append : (a : ℕ) (xs ys : List ℕ) → without a (xs ++ ys) ≡ without a xs ++ without a ys
without-append a [] ys = refl
without-append a (x ∷ xs) ys = ground (arith, without-append a xs ys)

without-reverse : (a : ℕ) (xs : List ℕ) → without a (reverse xs) ≡ reverse (without a xs)
without-reverse a [] = refl
without-reverse a (x ∷ xs) = elim (Bool-cases (x == a)) [
  | inl e ↦
      rw (reverse-cons x xs, without-append a (reverse xs) (x ∷ []), without-reverse a xs)
        (simp e (append-nil (reverse (without a xs))))
  | inr e ↦
      rw (reverse-cons x xs, without-append a (reverse xs) (x ∷ []), without-reverse a xs)
        (simp e (sym (reverse-cons x (without a xs))))
]

pub in_list-last : (a s : ℕ) (l : List (ℕ × ℕ)) → in_list (l ++ (a, s) ∷ []) ≡ a ∷ in_list l
unfolding in_list
in_list-last a s l =
    ap reverse (members-append l ((a, s) ∷ [])) ∙ reverse-append (members l) (a ∷ [])

pub in_list-first : (a s : ℕ) (l : List (ℕ × ℕ)) → in_list ((a, s) ∷ l) ≡ in_list l ++ a ∷ []
unfolding in_list
in_list-first a s l = reverse-cons a (members l)

pub in_list-drop_member :
    (a : ℕ) (l : List (ℕ × ℕ)) → in_list (drop_member a l) ≡ without a (in_list l)
unfolding in_list
in_list-drop_member a l = ap reverse (members-drop_member a l) ∙ sym (without-reverse a (members l))

count-reverse : (j : ℕ) (xs : List ℕ) → count j (reverse xs) ≡ count j xs
count-reverse j [] = refl
count-reverse j (x ∷ xs) =
    rw (reverse-cons x xs) (omega (arith, count-append j (reverse xs) (x ∷ []), count-reverse j xs))

pub count-in_list : (j : ℕ) (l : List (ℕ × ℕ)) → count j (in_list l) ≡ count j (members l)
unfolding in_list
count-in_list j l = count-reverse j (members l)
