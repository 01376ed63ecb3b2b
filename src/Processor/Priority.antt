-- ===== src/Processor/Priority.antt =====
-- The queues that a worker reads, and in which order: normalizeQueues, gcd, uniq and queues
-- (processor.go). A map from names to priorities is the list of its pairs, in an order of iteration.
pub mod Divisors
pub mod Names
use Prim.Native.Nat.{ℕ, zero, suc, ◌%◌, ◌/◌, ◌<◌}
use mathlib.Core.WellFounded.{Acc}
use asynq.Common.{
  Bool, true, false, List, [], ◌∷◌, ◌++◌, arith, ◌==◌, ltb, if◌then◌else◌, length, count, Option,
  none, some, replicate,
}

Acc-below : (k n : ℕ) → n < k → Acc ◌<◌ n
Acc-below zero n h = elim h [ ]
Acc-below (suc k) n h = Acc.intro n (λ m hm. Acc-below k m (omega arith))

unfoldable pub lt_acc : (n : ℕ) → Acc ◌<◌ n
unfolding Acc-below
lt_acc n = Acc-below (suc n) n (omega arith)

-- for y > 0 { x, y = y, x%y }
unfoldable pub gcd_loop : (x y : ℕ) → Acc ◌<◌ y → ℕ
gcd_loop x zero w = x
gcd_loop x (suc y) (Acc.intro _ smaller) =
    gcd_loop (suc y) (x % suc y) (smaller (x % suc y) (omega arith))

unfoldable pub gcd_two : ℕ → ℕ → ℕ
unfolding gcd_loop lt_acc
gcd_two x y = gcd_loop x y (lt_acc y)

-- The loop of gcd, with its early return.
unfoldable pub gcd_from : ℕ → List ℕ → ℕ
gcd_from res [] = res
gcd_from res (x ∷ xs) =
    let r = gcd_two x res in let rest = gcd_from r xs in if r == 1 then 1 else rest

-- xs[0] panics on no numbers: `none`.
unfoldable pub gcd : List ℕ → Option ℕ
gcd [] = none
gcd (x ∷ xs) = some (gcd_from x (x ∷ xs))

abbrev pub priorities : List (ℕ × ℕ) → List ℕ
priorities [] = []
priorities ((q, p) ∷ r) = p ∷ priorities r

abbrev pub names : List (ℕ × ℕ) → List ℕ
names [] = []
names ((q, p) ∷ r) = q ∷ names r

abbrev pub divided : ℕ → List (ℕ × ℕ) → List (ℕ × ℕ)
divided d [] = []
divided d ((q, p) ∷ r) = (q, p / d) ∷ divided d r

-- normalizeQueues: a division by 0 panics too.
unfoldable pub normalize_queues : List (ℕ × ℕ) → Option (List (ℕ × ℕ))
normalize_queues queues = elim (gcd (priorities queues)) [
  | none ↦ none
  | some d ↦ if d == 0 then none else some (divided d queues)
]

-- uniq, over the names left and the names found; the map `seen` holds the names found.
unfoldable pub uniq_loop : List ℕ → List ℕ → ℕ → List ℕ
uniq_loop [] res l = res
uniq_loop (s ∷ rest) res l =
    let res' = if ltb 0 (count s res) then res else res ++ s ∷ [] in
    let more = uniq_loop rest res' l in if length res' == l then res' else more

unfoldable pub uniq : List ℕ → ℕ → List ℕ
unfolding uniq_loop
uniq xs l = uniq_loop xs [] l

-- Each name as often as its priority says.
unfoldable pub expanded : List (ℕ × ℕ) → List ℕ
expanded [] = []
expanded ((q, p) ∷ r) = replicate p q ++ expanded r

-- `ordered` is set in strict-priority mode, and `shuffle` is the random permutation.
unfoldable pub queues : List (ℕ × ℕ) → Option (List ℕ) → (List ℕ → List ℕ) → List ℕ
queues ((q, p) ∷ []) ordered shuffle = q ∷ []
queues config (some qs) shuffle = qs
queues config none shuffle = uniq (shuffle (expanded config)) (length config)
