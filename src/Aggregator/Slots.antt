-- ===== src/Aggregator/Slots.antt =====
-- The checks of an aggregator that run at once (start, exec and shutdown, aggregator.go): each holds a
-- token of a channel of capacity 3, and the end waits until it holds all. Without a GroupAggregator
-- nothing is started.
use asynq.Common.{
  ℕ, ◌+◌, ◌-◌, ◌≤◌, ◌<◌, ◌≡◌, refl, ap, ◌∙◌, ◌≢◌, ◌⊎◌, inl, inr, arith, ltb, if◌then◌else◌,
  Bool-cases, ltb→lt,
}

-- maxConcurrentAggregationChecks.
abbrev pub max_concurrent_aggregation_checks : ℕ
max_concurrent_aggregation_checks = 3

-- The goroutine serves ticks, waits with some tokens of its own, or has ended.
pub data Phase : Type 0 where
  serves ended : Phase
  waits : ℕ → Phase

-- `sema` is the number of tokens in the channel, and `running` that of the checks.
pub record Aggregator : Type 0 where
  pub phase : Phase
  pub sema : ℕ
  pub running : ℕ

abbrev pub new_aggregator : Aggregator
new_aggregator = record { phase = serves; sema = 0; running = 0 }

-- exec: a tick starts a check if there is a token, and else is skipped.
unfoldable pub exec : Aggregator → Aggregator
exec a =
    if ltb a.sema max_concurrent_aggregation_checks
    then record a { sema = a.sema + 1; running = a.running + 1 }
    else a

-- A tick, the end of a check, the signal to end, a token that the end takes, and the end. The loop of
-- the end takes as many tokens as the channel has places.
pub data Step : Aggregator → Aggregator → Type 0 where
  ticks : (a : Aggregator) → a.phase ≡ serves → Step a (exec a)
  finishes :
      (a : Aggregator)
      → 0 < a.running
      → Step a (record a { sema = a.sema - 1; running = a.running - 1 })
  is_told : (a : Aggregator) → a.phase ≡ serves → Step a (record a { phase = waits 0 })
  takes :
      (a : Aggregator) (n : ℕ)
      → a.phase ≡ waits n
      → n < max_concurrent_aggregation_checks
      → a.sema < max_concurrent_aggregation_checks
      → Step a (record a { phase = waits (n + 1); sema = a.sema + 1 })
  ends :
      (a : Aggregator)
      → a.phase ≡ waits max_concurrent_aggregation_checks
      → Step a (record a { phase = ended })

pub data Reach (a : Aggregator) : Aggregator → Type 0 where
  here : Reach a a
  next : {b c : Aggregator} → Reach a b → Step b c → Reach a c

-- The tokens that the end holds.
abbrev pub held : Phase → ℕ
held serves = 0
held (waits n) = n
held ended = max_concurrent_aggregation_checks

-- Every token in the channel is that of a check or of the end, and there are no more than its places.
pub record IsCounted (a : Aggregator) : Type 0 where
  pub counted : a.sema ≡ a.running + held a.phase
  pub bounded : a.sema ≤ max_concurrent_aggregation_checks

Step-IsCounted : {a b : Aggregator} → Step a b → IsCounted a → IsCounted b
unfolding exec
Step-IsCounted (ticks a e) v = ground (arith, v, e)
Step-IsCounted (finishes a h) v = ground (arith, v, h)
Step-IsCounted (is_told a e) v = let h = ap held e in omega (arith, v, h)
Step-IsCounted (takes a n e h room) v = let k = ap held e in omega (arith, v, h, room, k)
Step-IsCounted (ends a e) v = let h = ap held e in omega (arith, v, h)

reached : {a : Aggregator} → Reach new_aggregator a → IsCounted a
reached here = omega arith
reached (next r st) = Step-IsCounted st (reached r)

-- Whatever the order of ticks, checks and the end is: the checks that run hold one token each, there
-- are three at most, and none runs when the aggregator has ended.
pub Reach-IsCounted :
    {a : Aggregator}
    → Reach new_aggregator a
    → IsCounted a × (a.running ≤ 3) × ((a.phase ≢ ended) ⊎ (a.running ≡ 0))
Reach-IsCounted {a} r = let v = reached r in (v, omega (arith, v), at_end a.phase refl)
  where
    at_end : (p : Phase) → a.phase ≡ p → (a.phase ≢ ended) ⊎ (a.running ≡ 0)
    at_end serves e = inl (λ h. cc)
    at_end (waits n) e = inl (λ h. cc)
    at_end ended e = let h = ap held e in let v = reached r in inr (omega (arith, v, h))

-- What the end still has to do: to wait for the checks that run, to take its tokens, and to return.
abbrev pub left_of : ℕ → Phase → ℕ
left_of running serves = running + 5
left_of running (waits n) = running + (4 - n)
left_of running ended = 0

abbrev pub left : Aggregator → ℕ
left a = left_of a.running a.phase

goes_on : (a : Aggregator) (n : ℕ) → IsCounted a → a.phase ≡ waits n → (b : Aggregator) × Step a b
goes_on a n v e =
    let h : held a.phase ≡ n = ap held e in
    elim (Bool-cases (ltb 0 a.running)) [
      | inl runs ↦ (_, finishes a (ltb→lt 0 a.running runs))
      | inr idle ↦
          let none_left : a.running ≡ 0 = ground (arith, idle) in
          elim (Bool-cases (ltb n max_concurrent_aggregation_checks)) [
            | inl more ↦
                let fewer = ltb→lt n 3 more in
                (_, takes a n e fewer (omega (arith, v, h, none_left, fewer)))
            | inr all ↦
                let full : n ≡ 3 = ground (arith, all, v, h) in (_, ends a (e ∙ ap waits full))
          ]
    ]

-- A state from which there is a step, each step leaves less to do, and none goes back to ticks.
abbrev pub Ends : Aggregator → Type 0
Ends a =
    ((b : Aggregator) × Step a b)
    × ((b : Aggregator) → Step a b → (left b < left a) × (b.phase ≢ serves))

Step-left :
    {a b : Aggregator} (n : ℕ)
    → a.phase ≡ waits n
    → Step a b
    → (left b < left a) × (b.phase ≢ serves)
Step-left n e (ticks a serving) = absurd (cc)
Step-left n e (finishes a h) = (simp e (omega (arith, h)), λ k. cc)
Step-left n e (is_told a serving) = absurd (cc)
Step-left n e (takes a m waiting h room) = (simp waiting (omega (arith, h)), λ k. cc)
Step-left n e (ends a waiting) = (simp waiting (omega arith), λ k. cc)

-- From the moment that the aggregator is told to end, as long as it waits, there is a next step, with
-- whatever checks still running; every step leaves less to do, and it never serves ticks again. So it
-- ends.
pub Reach-Ends : {a : Aggregator} (n : ℕ) → Reach new_aggregator a → a.phase ≡ waits n → Ends a
Reach-Ends {a} n r e = (goes_on a n (reached r) e, λ b st. Step-left n e st)
