-- ===== src/Mux/Match.antt =====
-- The pattern that wins is the longest registered prefix of the task's type (servemux.go).
use asynq.Common.{
  ℕ, ◌≤◌, ◌≡◌, ◌↔◌, ◌⊎◌, inl, inr, refl, ap, subst, Bool, true, false, List, [], ◌∷◌, Option, none,
  some, arith, length, Bool-cases, Option-cases,
}
use asynq.Mux.{
  Text, eq_text, has_prefix, ServeMux, new_serve_mux, lookup, first_prefix, match_, append_sorted,
  register, handle, ok, panic, invalid_pattern, nil_handler, multiple_registrations,
}

-- The two tests.
eq_text→≡ : (s t : Text) → eq_text s t ≡ true → s ≡ t
unfolding eq_text
eq_text→≡ [] [] h = refl
eq_text→≡ [] (y ∷ ys) h = cc
eq_text→≡ (x ∷ xs) [] h = cc
eq_text→≡ (x ∷ xs) (y ∷ ys) h = ground (arith, eq_text→≡ xs ys)

eq_text_refl : (s : Text) → eq_text s s ≡ true
unfolding eq_text
eq_text_refl [] = refl
eq_text_refl (x ∷ xs) = ground (arith, eq_text_refl xs)

has_prefix_self : (s : Text) → has_prefix s s ≡ true
unfolding has_prefix
has_prefix_self [] = refl
has_prefix_self (x ∷ xs) = ground (arith, has_prefix_self xs)

has_prefix-le : (s p : Text) → has_prefix s p ≡ true → length p ≤ length s
unfolding has_prefix
has_prefix-le s [] h = omega arith
has_prefix-le [] (y ∷ ys) h = cc
has_prefix-le (x ∷ xs) (y ∷ ys) h = ground (arith, has_prefix-le xs ys)

module _ {H : Type 0} where
  -- An entry stands in a list.
  abbrev pub In : Text × H → List (Text × H) → Type 0
  In e [] = ⊥
  In e (x ∷ r) = (e ≡ x) ⊎ In e r

  -- No pattern of a list is longer than a bound; the longest pattern is first.
  abbrev pub UpTo : ℕ → List (Text × H) → Type 0
  UpTo n [] = Unit {0}
  UpTo n (x ∷ r) = (length x.0 ≤ n) × UpTo n r

  abbrev pub Descending : List (Text × H) → Type 0
  Descending [] = Unit {0}
  Descending (x ∷ r) = UpTo (length x.0) r × Descending r

  UpTo-mono : (m n : ℕ) (l : List (Text × H)) → m ≤ n → UpTo m l → UpTo n l
  UpTo-mono m n [] le u = tt
  UpTo-mono m n (x ∷ r) le u = (omega arith, UpTo-mono m n r le u.1)

  In-UpTo : (n : ℕ) (l : List (Text × H)) (x : Text × H) → UpTo n l → In x l → length x.0 ≤ n
  In-UpTo n [] x u i = elim i [ ]
  In-UpTo n (y ∷ r) x u (inl e) = rw e u.0
  In-UpTo n (y ∷ r) x u (inr i) = In-UpTo n r x u.1 i

  append_sorted-UpTo :
      (n : ℕ) (l : List (Text × H)) (e : Text × H)
      → UpTo n l
      → length e.0 ≤ n
      → UpTo n (append_sorted l e)
  unfolding append_sorted
  append_sorted-UpTo n [] e u h = (h, tt)
  append_sorted-UpTo n (x ∷ r) e u h = ground (arith, append_sorted-UpTo n r e u.1 h)

  -- Inserting an entry keeps the order, and the entries are the old ones and the new one.
  pub append_sorted-Descending :
      (l : List (Text × H)) (e : Text × H) → Descending l → Descending (append_sorted l e)
  unfolding append_sorted
  append_sorted-Descending [] e d = (tt, tt)
  append_sorted-Descending (x ∷ r) e d = ground (
    arith,
    append_sorted-Descending r e d.1,
    append_sorted-UpTo (length x.0) r e d.0,
    UpTo-mono (length x.0) (length e.0) r,
  )

  In-append_sorted :
      (l : List (Text × H)) (e x : Text × H) → In x (append_sorted l e) ↔ In x (e ∷ l)
  unfolding append_sorted
  In-append_sorted [] e x = ground arith
  In-append_sorted (y ∷ r) e x = ground (arith, In-append_sorted r e x)

  -- What the loop over the entries finds: an entry that is a prefix, with no longer one in the
  -- list; nothing where the list has no prefix.
  abbrev pub Best : Text → List (Text × H) → Option (Text × H) → Type 0
  Best t l none = (x : Text × H) → In x l → has_prefix t x.0 ≡ false
  Best t l (some e) =
      In e l
      × (has_prefix t e.0 ≡ true)
      × ((x : Text × H) → In x l → has_prefix t x.0 ≡ true → length x.0 ≤ length e.0)

  Best-cons :
      (t : Text) (y : Text × H) (r : List (Text × H)) (o : Option (Text × H))
      → has_prefix t y.0 ≡ false
      → Best t r o
      → Best t (y ∷ r) o
  Best-cons t y r none n b = go
    where
      go : (x : Text × H) → In x (y ∷ r) → has_prefix t x.0 ≡ false
      go x (inl e) = rw e n
      go x (inr i) = b x i
  Best-cons t y r (some e) n b = (inr b.0, b.1, go)
    where
      go : (x : Text × H) → In x (y ∷ r) → has_prefix t x.0 ≡ true → length x.0 ≤ length e.0
      go x (inl same) p = absurd (ground (arith, ap (λ z. has_prefix t z.0) same))
      go x (inr i) p = b.2 x i p

  first_prefix-Best : (t : Text) (l : List (Text × H)) → Descending l → Best t l (first_prefix t l)
  unfolding first_prefix
  first_prefix-Best t [] d = λ x i. elim i [ ]
  first_prefix-Best t (y ∷ r) d = elim (Bool-cases (has_prefix t y.0)) [
    | inl p ↦ rw p (inl refl, p, go)
    | inr n ↦ rw n (Best-cons t y r (first_prefix t r) n (first_prefix-Best t r d.1))
  ]
    where
      go : (x : Text × H) → In x (y ∷ r) → has_prefix t x.0 ≡ true → length x.0 ≤ length y.0
      go x (inl e) p = rw e (omega arith)
      go x (inr i) p = In-UpTo (length y.0) r x d.0 i

  lookup-In :
      (t : Text) (l : List (Text × H)) (e : Text × H) → lookup t l ≡ some e → In e l × (e.0 ≡ t)
  unfolding lookup
  lookup-In t [] e h = cc
  lookup-In t (y ∷ r) e h = ground (arith, eq_text→≡ y.0 t, lookup-In t r e)

  -- The slice is in order, and has the entries of the map.
  pub record IsSound (mux : ServeMux H) : Type 0 where
    pub descending : Descending mux.es
    pub same : (x : Text × H) → In x mux.m ↔ In x mux.es

  pub new-IsSound : IsSound new_serve_mux
  new-IsSound = record { descending = tt; same = λ x. (λ i. i, λ i. i) }

  register-IsSound :
      (mux : ServeMux H) (p : Text) (h : H) → IsSound mux → IsSound (register mux p h)
  unfolding register
  register-IsSound mux p h s = record {
    descending = append_sorted-Descending mux.es (p, h) s.descending;
    same = λ x. ground (arith, s.same x, In-append_sorted mux.es (p, h) x);
  }

  -- Every registration that does not panic keeps the slice in order, with the map's entries.
  pub handle-IsSound :
      (is_blank : Text → Bool) (mux mux' : ServeMux H) (p : Text) (h : Option H)
      → IsSound mux
      → handle is_blank mux p h ≡ ok mux'
      → IsSound mux'
  unfolding handle
  handle-IsSound is_blank mux mux' p none s e = absurd (ground (arith, e))
  handle-IsSound is_blank mux mux' p (some h) s e =
      subst IsSound (ground (arith, e)) (register-IsSound mux p h s)

  from_map :
      (mux : ServeMux H) (t : Text) (o : Option (Text × H))
      → IsSound mux
      → lookup t mux.m ≡ o
      → Best t mux.m (elim o [ some e ↦ some e | none ↦ first_prefix t mux.es ])
  from_map mux t none s e = over (first_prefix t mux.es) (first_prefix-Best t mux.es s.descending)
    where
      over : (o : Option (Text × H)) → Best t mux.es o → Best t mux.m o
      over none b = λ x i. b x ((s.same x).0 i)
      over (some y) b = ((s.same y).1 b.0, b.1, λ x i p. b.2 x ((s.same x).0 i) p)
  from_map mux t (some y) s e =
      let found = lookup-In t mux.m y e in
      (found.0, rw found.1 (has_prefix_self t), λ x i p. rw found.1 (has_prefix-le t x.0 p))

  -- In a multiplexer in order, the pattern that wins is a registered prefix of the type's name, and
  -- no registered prefix is longer; there is none only where no registered pattern is a prefix.
  pub match-Best : (mux : ServeMux H) (t : Text) → IsSound mux → Best t mux.m (match_ mux t)
  unfolding match_
  match-Best mux t s = from_map mux t (lookup t mux.m) s refl

  match_registered :
      (mux : ServeMux H) (p : Text) (h : H) → match_ (register mux p h) p ≡ some (p, h)
  unfolding match_ register lookup
  match_registered mux p h = ground (arith, eq_text_refl p)

  -- A registration panics for a blank pattern, for a nil handler and for a pattern that the map
  -- has; otherwise tasks of that very type go to the handler from then on.
  pub handle_cases :
      (is_blank : Text → Bool) (mux : ServeMux H) (p : Text) (h : Option H)
      → ((is_blank p ≡ true) × (handle is_blank mux p h ≡ panic invalid_pattern))
        ⊎ ((h ≡ none) × (handle is_blank mux p h ≡ panic nil_handler))
        ⊎ (((e : Text × H) × (lookup p mux.m ≡ some e))
            × (handle is_blank mux p h ≡ panic multiple_registrations))
        ⊎ ((h' : H) × (mux' : ServeMux H) × (h ≡ some h')
            × (handle is_blank mux p h ≡ ok mux')
            × (match_ mux' p ≡ some (p, h')))
  unfolding handle
  handle_cases is_blank mux p none = ground arith
  handle_cases is_blank mux p (some h) = elim (Bool-cases (is_blank p)) [
    | inl b ↦ inl (b, simp b)
    | inr b ↦ elim (Option-cases (lookup p mux.m)) [
      | inl e ↦
          inr
            (inr (inr (h, register mux p h, refl, ground (arith, b, e), match_registered mux p h)))
      | inr (x, e) ↦ inr (inr (inl ((x, e), ground (arith, b, e))))
    ]
  ]
