-- ===== src/Listing/Pages.antt =====
-- What a page is: the tasks of a listing from its first on, so many at a time
-- (internal/rdb/inspect.go).
use mathlib.Core.List.{reverse, reverse-cons, reverse-reverse}
use asynq.Common.{
  ℕ, zero, suc, ◌+◌, ◌-◌, ◌*◌, ◌≤◌, ◌<◌, ◌≡◌, refl, sym, ap, ◌∙◌, pos, negsuc, sub, neg, ◌+ℤ◌, List,
  [], ◌∷◌, ◌++◌, arith, length, take, drop, length-append,
}
use asynq.Redis.{slice}
use asynq.Listing.{Pagination, start, stop}

abbrev pub page_of : ℕ → ℕ → Pagination
page_of size n = record { size = size; page = pos n }

stop_lem : (size n : ℕ) → 0 < size → stop (page_of size n) ≡ pos (size * n + (size - 1))
stop_lem size n h =
    let e : sub size 1 ≡ pos (size - 1) = ground (arith, h) in ap (λ z. pos (size * n) +ℤ z) e

back_lem : (k : ℕ) → neg (pos k) +ℤ neg (pos 1) ≡ negsuc k
back_lem zero = refl
back_lem (suc k) = ground arith

module _ {ℓ} {A : Type ℓ} where
  take_all : (n : ℕ) (l : List A) → length l ≤ n → take n l ≡ l
  take_all zero [] h = refl
  take_all zero (x ∷ l) h = absurd (omega (arith, h))
  take_all (suc n) [] h = refl
  take_all (suc n) (x ∷ l) h = ap (λ r. x ∷ r) (take_all n l (omega (arith, h)))

  drop_all : (n : ℕ) (l : List A) → length l ≤ n → drop n l ≡ []
  drop_all zero [] h = refl
  drop_all zero (x ∷ l) h = absurd (omega (arith, h))
  drop_all (suc n) [] h = refl
  drop_all (suc n) (x ∷ l) h = drop_all n l (omega (arith, h))

  length-reverse : (l : List A) → length (reverse l) ≡ length l
  length-reverse [] = refl
  length-reverse (x ∷ l) =
      rw (reverse-cons x l) (omega (arith, length-append (reverse l) (x ∷ []), length-reverse l))

  take_front : (n : ℕ) (l : List A) (x : A) → n ≤ length l → take n (l ++ x ∷ []) ≡ take n l
  take_front zero l x h = refl
  take_front (suc n) [] x h = absurd (omega (arith, h))
  take_front (suc n) (y ∷ l) x h = ap (λ r. y ∷ r) (take_front n l x (omega (arith, h)))

  drop_front :
      (n : ℕ) (l : List A) (x : A) → n ≤ length l → drop n (l ++ x ∷ []) ≡ drop n l ++ x ∷ []
  drop_front zero l x h = refl
  drop_front (suc n) [] x h = absurd (omega (arith, h))
  drop_front (suc n) (y ∷ l) x h = drop_front n l x (omega (arith, h))

  -- The first elements of a reversed list are the last ones, and the others the first ones.
  take-reverse : (k : ℕ) (r : List A) → take (length r - k) (reverse r) ≡ reverse (drop k r)
  take-reverse zero r = take_all (length r - 0) (reverse r) (omega (arith, length-reverse r))
  take-reverse (suc k) [] = take_all _ [] (omega arith)
  take-reverse (suc k) (x ∷ r) = rw (reverse-cons x r) (
      ap (λ n. take n (reverse r ++ x ∷ [])) (omega arith)
      ∙ take_front (length r - k) (reverse r) x (omega (arith, length-reverse r))
      ∙ take-reverse k r)

  drop-reverse : (m : ℕ) (r : List A) → drop (length r - m) (reverse r) ≡ reverse (take m r)
  drop-reverse zero r = drop_all (length r - 0) (reverse r) (omega (arith, length-reverse r))
  drop-reverse (suc m) [] = drop_all _ [] (omega arith)
  drop-reverse (suc m) (x ∷ r) =
      rw (reverse-cons x r, reverse-cons x (take m r))
        (ap (λ n. drop n (reverse r ++ x ∷ [])) (omega arith)
          ∙ drop_front (length r - m) (reverse r) x (omega (arith, length-reverse r))
          ∙ ap (λ l. l ++ x ∷ []) (drop-reverse m r))

  -- The element at the right end.
  pub slice_last : (l : List A) (x : A) → slice (negsuc 0) (negsuc 0) (l ++ x ∷ []) ≡ x ∷ []
  unfolding slice
  slice_last l x =
      let size : length (l ++ x ∷ []) - (0 + 1) ≡ length l =
        omega (arith, length-append l (x ∷ [])) in
      let all : take (length (l ++ x ∷ []) - 0) (l ++ x ∷ []) ≡ l ++ x ∷ [] =
        take_all (length (l ++ x ∷ []) - 0) (l ++ x ∷ []) (omega arith) in
      ap (drop (length (l ++ x ∷ []) - (0 + 1))) all
      ∙ ap (λ n. drop n (l ++ x ∷ [])) size
      ∙ drop_front (length l) l x (omega arith)
      ∙ ap (λ r. r ++ x ∷ []) (drop_all (length l) l (omega arith))

  drop-take : (n m : ℕ) (l : List A) → drop n (take (n + m) l) ≡ take m (drop n l)
  drop-take zero m l = ap (λ k. take k l) (omega arith)
  drop-take (suc n) m [] =
      ap (drop (suc n)) (take_all (suc n + m) [] (omega arith)) ∙ sym (take_all m [] (omega arith))
  drop-take (suc n) m (x ∷ l) =
      let e : suc n + m ≡ suc (n + m) = omega arith in
      ap (λ k. drop (suc n) (take k (x ∷ l))) e ∙ drop-take n m l

  length-drop : (n : ℕ) (l : List A) → length (drop n l) ≡ length l - n
  length-drop zero l = omega arith
  length-drop (suc n) [] = omega arith
  length-drop (suc n) (x ∷ l) = omega (arith, length-drop n l)

  -- A page counted from the left end.
  pub slice_page :
      (size n : ℕ) (l : List A)
      → 0 < size
      → slice (start (page_of size n)) (stop (page_of size n)) l ≡ take size (drop (size * n) l)
  unfolding slice
  slice_page size n l h =
      let e : size * n + (size - 1) + 1 ≡ size * n + size = omega (arith, h) in
      rw (stop_lem size n h) (ap (λ k. drop (size * n) (take k l)) e ∙ drop-take (size * n) size l)

  -- The elements before the last k, without those before the last k + m.
  middle :
      (k m : ℕ) (l : List A)
      → reverse (drop (length l - (k + m)) (take (length l - k) l)) ≡ take m (drop k (reverse l))
  middle k m l =
      let r = reverse l in
      let front : take (length l - k) l ≡ reverse (drop k r) =
        sym (ap (λ n. take (n - k) l) (length-reverse l))
        ∙ sym (ap (take (length r - k)) (reverse-reverse l))
        ∙ take-reverse k r in
      let size : length l - (k + m) ≡ length (drop k r) - m =
        omega (arith, length-drop k r, length-reverse l) in
      ap (λ x. reverse (drop (length l - (k + m)) x)) front
      ∙ ap (λ n. reverse (drop n (reverse (drop k r)))) size
      ∙ ap reverse (drop-reverse m (drop k r))
      ∙ reverse-reverse (take m (drop k r))

  -- A page counted from the right end, and turned round.
  pub slice_page_back :
      (size n : ℕ) (l : List A)
      → 0 < size
      → reverse (
          slice
            (neg (stop (page_of size n)) +ℤ neg (pos 1))
            (neg (start (page_of size n)) +ℤ neg (pos 1))
            l)
        ≡ take size (drop (size * n) (reverse l))
  unfolding slice
  slice_page_back size n l h =
      let e : size * n + (size - 1) + 1 ≡ size * n + size = omega (arith, h) in
      rw (stop_lem size n h, back_lem (size * n + (size - 1)), back_lem (size * n))
        (ap (λ k. reverse (drop (length l - k) (take (length l - size * n) l))) e
          ∙ middle (size * n) size l)

  -- The first n pages one after another, as a function of each page.
  abbrev pub joined : (ℕ → List A) → ℕ → List A
  joined page_at zero = []
  joined page_at (suc n) = joined page_at n ++ page_at n

  pub joined_same : (f g : ℕ → List A) → ((i : ℕ) → f i ≡ g i) → (n : ℕ) → joined f n ≡ joined g n
  joined_same f g h zero = refl
  joined_same f g h (suc n) =
      ap (λ l. l ++ f n) (joined_same f g h n) ∙ ap (λ l. joined g n ++ l) (h n)

  take_more : (n m : ℕ) (l : List A) → take n l ++ take m (drop n l) ≡ take (n + m) l
  take_more zero m l = ap (λ k. take k l) (omega arith)
  take_more (suc n) m [] = take_all m [] (omega arith) ∙ sym (take_all (suc n + m) [] (omega arith))
  take_more (suc n) m (x ∷ l) =
      let e : suc (n + m) ≡ suc n + m = omega arith in
      ap (λ r. x ∷ r) (take_more n m l) ∙ ap (λ k. take k (x ∷ l)) e

  joined_lem :
      (size n : ℕ) (l : List A) → joined (λ i. take size (drop (size * i) l)) n ≡ take (size * n) l
  joined_lem size zero l = let e : 0 ≡ size * 0 = omega arith in ap (λ k. take k l) e
  joined_lem size (suc n) l =
      let e : size * n + size ≡ size * suc n = omega arith in
      ap (λ r. r ++ take size (drop (size * n) l)) (joined_lem size n l)
      ∙ take_more (size * n) size l
      ∙ ap (λ k. take k l) e

  -- Enough pages, one after another, are the whole list.
  pub joined_whole :
      (size n : ℕ) (l : List A)
      → length l ≤ size * n
      → joined (λ i. take size (drop (size * i) l)) n ≡ l
  joined_whole size n l h = joined_lem size n l ∙ take_all (size * n) l h
