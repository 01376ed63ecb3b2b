-- ===== src/Periodic/Sync.antt =====
-- What a sync comes to.
use asynq.Common.{
  ℕ, ◌≤◌, ◌<◌, ◌≡◌, refl, Bool, true, List, [], ◌∷◌, Option, none, some, arith, ◌==◌, ltb,
  if◌then◌else◌, Bool-cases, inl, inr, count, is_some, ind, count-without, not, ◌&&◌, ◌||◌,
}
use asynq.Periodic.{
  Config, Manager, hashes, all_valid, add_one, add, remove_one, remove, diff_removed, diff_added,
  sync,
}

-- The map and the scheduler's entries name each other, and no id is there before it is made.
pub record LinkedAt (mgr : Manager) (hash id : ℕ) : Type 0 where
  pub registered : mgr.m hash ≡ some id → mgr.entries id ≡ some hash
  pub mapped : mgr.entries id ≡ some hash → mgr.m hash ≡ some id
  pub unused : mgr.next_id ≤ id → mgr.entries id ≡ none

abbrev pub Linked : Manager → Type 0
Linked mgr = (hash id : ℕ) → LinkedAt mgr hash id

add_one-Linked :
    (mgr : Manager) (c : Config) → Linked mgr → mgr.m c.hash ≡ none → Linked (add_one mgr c)
unfolding add_one
add_one-Linked mgr c l new hash id = ground (arith, l hash id, l c.hash id, l hash mgr.next_id, new)

remove_one-Linked :
    (mgr : Manager) (h i : ℕ) → Linked mgr → mgr.m h ≡ some i → Linked (remove_one mgr h i)
unfolding remove_one
remove_one-Linked mgr h i l there hash id =
    ground (arith, l hash id, l h id, l hash i, l h i, there)

-- The keys of a loop over the map are its hashes, each once.
abbrev pub Listed : Manager → Type 0
Listed mgr = (j : ℕ) → count j mgr.keys ≡ ind (is_some (mgr.m j))

abbrev pub firsts : List (ℕ × ℕ) → List ℕ
firsts [] = []
firsts ((a, b) ∷ r) = a ∷ firsts r

abbrev find : ℕ → List (ℕ × ℕ) → Option ℕ
find j [] = none
find j ((a, b) ∷ r) = if a == j then some b else find j r

find_there : (j v : ℕ) (l : List (ℕ × ℕ)) → find j l ≡ some v → 0 < count j (firsts l)
find_there j v [] e = absurd (ground (arith, e))
find_there j v ((a, b) ∷ r) e = elim (Bool-cases (a == j)) [
  | inl f ↦ ground (arith, f)
  | inr f ↦ ground (arith, f, find_there j v r (ground (arith, e, f)))
]

-- All pairs are removed.
remove_lem :
    (mgr : Manager) (pairs : List (ℕ × ℕ))
    → Linked mgr
    → Listed mgr
    → ((j v : ℕ) → find j pairs ≡ some v → mgr.m j ≡ some v)
    → ((j : ℕ) → count j (firsts pairs) ≤ 1)
    → Linked (remove mgr pairs)
      × Listed (remove mgr pairs)
      × ((j : ℕ)
          → (remove mgr pairs).m j ≡ (if ltb 0 (count j (firsts pairs)) then none else mgr.m j))
unfolding remove
remove_lem mgr [] l k a once = (l, k, λ j. refl)
remove_lem mgr ((h, i) ∷ rest) l k a once =
    let there : mgr.m h ≡ some i = a h i (ground arith) in
    let mapped : (j : ℕ) → (remove_one mgr h i).m j ≡ (if h == j then none else mgr.m j) =
      λ j. unfold remove_one in ground (arith, there, l h i) in
    let listed : Listed (remove_one mgr h i) =
      λ j. unfold remove_one in ground (arith, there, l h i, k j, count-without j h mgr.keys) in
    let ih =
      remove_lem (remove_one mgr h i) rest (remove_one-Linked mgr h i l there) listed
        (λ j v e. ground (arith, e, mapped j, a j v, once j, find_there j v rest e))
        (λ j. ground (arith, once j)) in
    (ih.0, ih.1, λ j. ground (arith, ih.2 j, mapped j))

find-diff_removed :
    (m : ℕ → Option ℕ) (ks : List ℕ) (cs : List Config) (j v : ℕ)
    → find j (diff_removed m ks cs) ≡ some v
    → m j ≡ some v
unfolding diff_removed
find-diff_removed m [] cs j v e = absurd (ground (arith, e))
find-diff_removed m (k ∷ ks) cs j v e = ground (arith, e, find-diff_removed m ks cs j v)

count-diff_removed :
    (m : ℕ → Option ℕ) (ks : List ℕ) (cs : List Config) (j : ℕ)
    → count j (firsts (diff_removed m ks cs))
      ≡ (if ltb 0 (count j (hashes cs)) then 0 else if is_some (m j) then count j ks else 0)
unfolding diff_removed
count-diff_removed m [] cs j = ground arith
count-diff_removed m (k ∷ ks) cs j = elim (Bool-cases (k == j)) [
  | inl e ↦ ground (arith, e, count-diff_removed m ks cs j)
  | inr e ↦ ground (arith, e, count-diff_removed m ks cs j)
]

count-diff_added :
    (m : ℕ → Option ℕ) (cs : List Config) (j : ℕ)
    → count j (hashes (diff_added m cs)) ≡ (if is_some (m j) then 0 else count j (hashes cs))
unfolding diff_added
count-diff_added m [] j = ground arith
count-diff_added m (c ∷ cs) j = elim (Bool-cases (c.hash == j)) [
  | inl e ↦ ground (arith, e, count-diff_added m cs j)
  | inr e ↦ ground (arith, e, count-diff_added m cs j)
]

abbrev pub all_accepted : List Config → Bool
all_accepted [] = true
all_accepted (c ∷ cs) = c.is_accepted && all_accepted cs

accepted-diff_added :
    (m : ℕ → Option ℕ) (cs : List Config)
    → all_accepted cs ≡ true
    → all_accepted (diff_added m cs) ≡ true
unfolding diff_added
accepted-diff_added m [] a = refl
accepted-diff_added m (c ∷ cs) a = ground (arith, a, accepted-diff_added m cs (ground (arith, a)))

-- All configs are added, and those that were there keep their entries.
add_lem :
    (mgr : Manager) (cs : List Config)
    → Linked mgr
    → Listed mgr
    → all_accepted cs ≡ true
    → ((j : ℕ) → count j (hashes cs) ≤ ind (not (is_some (mgr.m j))))
    → Linked (add mgr cs)
      × Listed (add mgr cs)
      × ((j : ℕ) → is_some ((add mgr cs).m j) ≡ is_some (mgr.m j) || ltb 0 (count j (hashes cs)))
      × ((j : ℕ) → (if is_some (mgr.m j) then (add mgr cs).m j else mgr.m j) ≡ mgr.m j)
unfolding add
add_lem mgr [] l k a new = (l, k, λ j. ground arith, λ j. ground arith)
add_lem mgr (c ∷ cs) l k a new =
    let absent : mgr.m c.hash ≡ none = ground (arith, new c.hash) in
    let mapped : (j : ℕ)
        → (add_one mgr c).m j ≡ (if c.hash == j then some mgr.next_id else mgr.m j) =
      λ j. unfold add_one in ground (arith, a) in
    let listed : Listed (add_one mgr c) = λ j. unfold add_one in ground (arith, a, absent, k j) in
    let ih =
      add_lem (add_one mgr c) cs (add_one-Linked mgr c l absent) listed (ground (arith, a))
        (λ j. ground (arith, new j, mapped j)) in
    (
      ih.0,
      ih.1,
      λ j. ground (arith, ih.2 j, mapped j),
      λ j. ground (arith, ih.3 j, mapped j, absent),
    )

-- Where the map and the scheduler's entries name each other, a sync with valid configs of different
-- hashes that the scheduler accepts leaves them so, with no entry that the map does not have; the map
-- then has exactly the hashes of the configs, and those that it had before keep their entries, which
-- are not registered anew.
pub sync_lem :
    (mgr : Manager) (configs : List Config)
    → Linked mgr
    → Listed mgr
    → all_valid configs ≡ true
    → all_accepted configs ≡ true
    → ((j : ℕ) → count j (hashes configs) ≤ 1)
    → let r = sync mgr (some configs) in
      Linked r
      × Listed r
      × ((j : ℕ) → is_some (r.m j) ≡ ltb 0 (count j (hashes configs)))
      × ((j : ℕ)
          → (if is_some (mgr.m j) && ltb 0 (count j (hashes configs)) then r.m j else mgr.m j)
            ≡ mgr.m j)
unfolding sync
sync_lem mgr configs l k v a once =
    let removed = diff_removed mgr.m mgr.keys configs in
    let added = diff_added mgr.m configs in
    let gone = λ (j : ℕ). count-diff_removed mgr.m mgr.keys configs j in
    let new = λ (j : ℕ). count-diff_added mgr.m configs j in
    let x =
      remove_lem mgr removed l k (find-diff_removed mgr.m mgr.keys configs)
        (λ j. ground (arith, gone j, k j)) in
    let y =
      add_lem (remove mgr removed) added x.0 x.1 (accepted-diff_added mgr.m configs a)
        (λ j. ground (arith, x.2 j, gone j, new j, once j)) in
    rw v (
      y.0,
      y.1,
      λ j. ground (arith, y.2 j, x.2 j, gone j, new j, k j),
      λ j. ground (arith, y.3 j, x.2 j, gone j),
    )
