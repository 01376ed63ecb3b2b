-- ===== src/Mux.antt =====
-- The task multiplexer of servemux.go. A text is the list of its bytes, and `H` the handlers; nil is
-- `none`. `is_blank` is the standard library's test strings.TrimSpace(s) == "".
pub mod Match
mod Tests
use asynq.Common.{
  ℕ, Bool, true, false, ◌&&◌, List, [], ◌∷◌, ◌++◌, Option, none, some, ◌==◌, ltb, if◌then◌else◌,
  length,
}

abbrev pub Text : Type 0
Text = List ℕ

unfoldable pub eq_text : Text → Text → Bool
eq_text [] [] = true
eq_text [] (y ∷ ys) = false
eq_text (x ∷ xs) [] = false
eq_text (x ∷ xs) (y ∷ ys) = x == y && eq_text xs ys

-- strings.HasPrefix(s, prefix).
unfoldable pub has_prefix : Text → Text → Bool
has_prefix s [] = true
has_prefix [] (y ∷ ys) = false
has_prefix (x ∷ xs) (y ∷ ys) = x == y && has_prefix xs ys

-- Why Handle panics.
pub data Panic : Type 0 where
  invalid_pattern nil_handler multiple_registrations : Panic

pub data Handled (A : Type 0) : Type 0 where
  ok : A → Handled A
  panic : Panic → Handled A

-- The map by its pairs, the slice of entries with the longest pattern first, and the middlewares.
pub record ServeMux (H : Type 0) : Type 0 where
  pub m : List (Text × H)
  pub es : List (Text × H)
  pub mws : List (H → H)

module _ {H : Type 0} where
  abbrev pub new_serve_mux : ServeMux H
  new_serve_mux = record { m = []; es = []; mws = [] }

  unfoldable pub lookup : Text → List (Text × H) → Option (Text × H)
  lookup t [] = none
  lookup t ((p, h) ∷ r) = if eq_text p t then some (p, h) else lookup t r

  -- The loop over the entries.
  unfoldable pub first_prefix : Text → List (Text × H) → Option (Text × H)
  first_prefix t [] = none
  first_prefix t ((p, h) ∷ r) = if has_prefix t p then some (p, h) else first_prefix t r

  -- An exact match, or else the first entry that is a prefix.
  unfoldable pub match_ : ServeMux H → Text → Option (Text × H)
  match_ mux typename = elim (lookup typename mux.m) [
    | some e ↦ some e
    | none ↦ first_prefix typename mux.es
  ]

  -- The entry goes before the first shorter pattern; sort.Search finds its place.
  unfoldable pub append_sorted : List (Text × H) → Text × H → List (Text × H)
  append_sorted [] e = e ∷ []
  append_sorted (x ∷ r) e =
      let rest = append_sorted r e in if ltb (length x.0) (length e.0) then e ∷ x ∷ r else x ∷ rest

  -- The registration of a handler that is there.
  unfoldable pub register : ServeMux H → Text → H → ServeMux H
  register mux pattern_ h = record mux {
    m = (pattern_, h) ∷ mux.m;
    es = append_sorted mux.es (pattern_, h);
  }

  is_there : Option (Text × H) → Bool
  is_there none = false
  is_there (some e) = true

  unfoldable pub handle : (Text → Bool) → ServeMux H → Text → Option H → Handled (ServeMux H)
  unfolding is_there
  handle is_blank mux pattern_ none =
      if is_blank pattern_ then panic invalid_pattern else panic nil_handler
  handle is_blank mux pattern_ (some h) =
      if is_blank pattern_
      then panic invalid_pattern
      else if is_there (lookup pattern_ mux.m)
      then panic multiple_registrations
      else ok (register mux pattern_ h)

  -- The middlewares are applied from the last to the first, so the first is the outermost.
  unfoldable pub wrapped : List (H → H) → H → H
  wrapped [] h = h
  wrapped (w ∷ ws) h = w (wrapped ws h)

  unfoldable pub use_ : ServeMux H → List (H → H) → ServeMux H
  use_ mux mws = record mux { mws = mux.mws ++ mws }

  found : H → Option (Text × H) → H × Text
  found not_found none = (not_found, [])
  found not_found (some (p, h)) = (h, p)

  -- Handler: the handler for a task, with its middlewares, and the pattern.
  unfoldable pub handler : H → ServeMux H → Text → H × Text
  unfolding found
  handler not_found mux typename =
      let r = found not_found (match_ mux typename) in (wrapped mux.mws r.0, r.1)
