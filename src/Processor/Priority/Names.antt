-- ===== src/Processor/Priority/Names.antt =====
-- uniq and queues (processor.go): every configured queue is read, once.
use asynq.Common.{
  ℕ, ◌+◌, ◌≤◌, ◌<◌, ◌≡◌, ◌⊎◌, inl, inr, refl, List, [], ◌∷◌, ◌++◌, none, arith, ◌==◌, ltb, ind,
  ==_iff, if◌then◌else◌, length, count, count-append, count-replicate, replicate, pigeonhole,
  Bool-cases,
}
use asynq.Processor.Priority.{uniq_loop, uniq, expanded, names, queues}

-- One round: a name that is new goes to the end.
abbrev grown : ℕ → List ℕ → List ℕ
grown s res = if ltb 0 (count s res) then res else res ++ s ∷ []

-- The names after a round: none twice, and s among them.
grown_facts :
    (j s : ℕ) (res : List ℕ)
    → count j res ≤ 1
    → (count j (grown s res) ≤ 1)
      × (count j res ≤ count j (grown s res))
      × (count j (grown s res) ≤ count j res + ind (s == j))
      × (0 < count j res + ind (s == j) → 0 < count j (grown s res))
grown_facts j s res h = ground (arith, count-append j res (s ∷ []))

-- What uniq finds has no name twice, only names that it was given, and all of them unless it has
-- stopped at the length it was given.
pub record IsUniq (given : ℕ → ℕ) (l : ℕ) (r : List ℕ) : Type 0 where
  pub once : (j : ℕ) → count j r ≤ 1
  pub known : (j : ℕ) → count j r ≤ given j
  pub all : (length r ≡ l) ⊎ ((j : ℕ) → 0 < given j → 0 < count j r)

widen :
    (P : Type 0) (given given' : ℕ → ℕ) (r : List ℕ)
    → P ⊎ ((j : ℕ) → 0 < given j → 0 < count j r)
    → ((j : ℕ) → 0 < given' j → 0 < given j)
    → P ⊎ ((j : ℕ) → 0 < given' j → 0 < count j r)
widen P given given' r (inl p) w = inl p
widen P given given' r (inr a) w = inr (λ j p. a j (w j p))

uniq_loop-IsUniq :
    (xs res : List ℕ) (l : ℕ)
    → ((j : ℕ) → count j res ≤ 1)
    → IsUniq (λ j. count j res + count j xs) l (uniq_loop xs res l)
unfolding uniq_loop
uniq_loop-IsUniq [] res l h = record {
  once = h;
  known = λ j. omega arith;
  all = inr (λ j p. omega arith);
}
uniq_loop-IsUniq (s ∷ xs) res l h =
    let f = λ (j : ℕ). grown_facts j s res (h j) in
    let ih = uniq_loop-IsUniq xs (grown s res) l (λ j. (f j).0) in
    elim (Bool-cases (length (grown s res) == l)) [
      | inl stop ↦ rw stop (record {
        once = λ j. (f j).0;
        known = λ j. omega (arith, f j);
        all = inl ((==_iff _ l).0 stop);
      })
      | inr more ↦ rw more (record {
        once = ih.once;
        known = λ j. omega (arith, f j, ih.known j);
        all = widen _ _ _ _ ih.all (λ j p. ground (arith, f j, p));
      })
    ]

pub uniq-IsUniq : (xs : List ℕ) (l : ℕ) → IsUniq (λ j. count j xs) l (uniq xs l)
unfolding uniq
uniq-IsUniq xs l =
    let u = uniq_loop-IsUniq xs [] l (λ j. omega arith) in
    record {
      once = u.once;
      known = λ j. omega (arith, u.known j);
      all = widen _ _ _ _ u.all (λ j p. omega arith);
    }

-- The configured names: none twice, and every priority positive, as newProcessor's caller sees to.
abbrev pub Positive : List (ℕ × ℕ) → Type 0
Positive [] = Unit {0}
Positive ((q, p) ∷ r) = (0 < p) × Positive r

count-expanded :
    (j : ℕ) (config : List (ℕ × ℕ))
    → Positive config
    → (0 < count j (names config) → 0 < count j (expanded config))
      × (0 < count j (expanded config) → 0 < count j (names config))
unfolding expanded
count-expanded j [] h = (λ p. p, λ p. p)
count-expanded j ((q, p) ∷ r) h = ground (
  arith,
  h,
  count-expanded j r h.1,
  count-append j (replicate p q) (expanded r),
  count-replicate j p q,
)

length-names : (config : List (ℕ × ℕ)) → length (names config) ≡ length config
length-names [] = refl
length-names ((q, p) ∷ r) = omega (arith, length-names r)

-- The general case, for any function that permutes a list.
module _ (config : List (ℕ × ℕ)) (shuffle : List ℕ → List ℕ)
    (distinct : (j : ℕ) → count j (names config) ≤ 1) (positive : Positive config)
    (permutes : (xs : List ℕ) (j : ℕ) → count j (shuffle xs) ≡ count j xs) where
  abbrev shuffled : List ℕ
  shuffled = shuffle (expanded config)

  read_once : (j : ℕ) → count j (uniq shuffled (length config)) ≡ count j (names config)
  read_once j = pick (uniq-IsUniq shuffled (length config)).all
    where
      u : IsUniq (λ j. count j shuffled) (length config) (uniq shuffled (length config))
      u = uniq-IsUniq shuffled (length config)

      le : (k : ℕ) → count k (uniq shuffled (length config)) ≤ count k (names config)
      le k = ground (
        arith,
        u.once k,
        u.known k,
        permutes (expanded config) k,
        count-expanded k config positive,
      )

      pick :
          (length (uniq shuffled (length config)) ≡ length config)
            ⊎ ((k : ℕ) → 0 < count k shuffled → 0 < count k (uniq shuffled (length config)))
          → count j (uniq shuffled (length config)) ≡ count j (names config)
      pick (inl e) =
          pigeonhole (uniq shuffled (length config)) (names config) le
            (omega (arith, length-names config)) j
      pick (inr a) = ground (
        arith,
        a j,
        le j,
        distinct j,
        permutes (expanded config) j,
        count-expanded j config positive,
      )

-- Without strict priority, and with queues of distinct names and positive priorities, a worker reads
-- every configured queue and no other, each once, in whatever order the shuffle gives: `shuffle` may
-- be any function that permutes a list.
pub queues_once :
    (config : List (ℕ × ℕ)) (shuffle : List ℕ → List ℕ)
    → ((j : ℕ) → count j (names config) ≤ 1)
    → Positive config
    → ((xs : List ℕ) (j : ℕ) → count j (shuffle xs) ≡ count j xs)
    → (j : ℕ) → count j (queues config none shuffle) ≡ count j (names config)
unfolding queues
queues_once [] shuffle d p perm j = read_once [] shuffle d p perm j
queues_once ((q, n) ∷ []) shuffle d p perm j = refl
queues_once ((q, n) ∷ (q', n') ∷ r) shuffle d p perm j =
    read_once ((q, n) ∷ (q', n') ∷ r) shuffle d p perm j
