-- ===== src/Errors/Chain.antt =====
-- What E keeps of its arguments, and what a chain of errors is taken for (internal/errors/errors.go).
use asynq.Common.{
  ℕ, ◌≡◌, ◌≢◌, refl, ◌⊎◌, inl, inr, Bool, true, false, ◌||◌, List, [], ◌∷◌, none, some, ◌∙◌,
}
use asynq.Errors.{
  Code, unspecified, not_found, failed_precondition, internal, already_exists, unknown, GoError,
  nil, wrapped, plain, Arg, op, text, code, err, other, unknown_type, e_loop, e, code_or,
  canonical_code, is_task_not_found, is_queue_not_found, is_queue_not_empty,
  is_task_already_archived, is_redis_command_error, is_panic_error,
}

-- An argument that E does not know.
abbrev pub is_unknown : Arg → Bool
is_unknown (err nil) = true
is_unknown other = true
is_unknown arg = false

abbrev pub any_unknown : List Arg → Bool
any_unknown [] = false
any_unknown (a ∷ args) = is_unknown a || any_unknown args

-- The last code, operation and error among arguments, or what is given.
abbrev pub last_code : Code → List Arg → Code
last_code c [] = c
last_code c (code c' ∷ args) = last_code c' args
last_code c (a ∷ args) = last_code c args

abbrev pub last_op : ℕ → List Arg → ℕ
last_op o [] = o
last_op o (op o' ∷ args) = last_op o' args
last_op o (a ∷ args) = last_op o args

abbrev pub last_err : GoError → List Arg → GoError
last_err e [] = e
last_err e (err e' ∷ args) = last_err e' args
last_err e (text t ∷ args) = last_err (plain t) args
last_err e (a ∷ args) = last_err e args

-- What E comes to: an error that it makes up, if there is an argument that it does not know.
abbrev pub Recorded : Bool → Code → ℕ → GoError → GoError → Type 0
Recorded true c o e r = r ≡ unknown_type
Recorded false c o e r = r ≡ wrapped c o e

e_loop-Recorded :
    (c : Code) (o : ℕ) (g : GoError) (args : List Arg)
    → Recorded
        (any_unknown args)
        (last_code c args)
        (last_op o args)
        (last_err g args)
        (e_loop c o g args)
unfolding e_loop
e_loop-Recorded c o g [] = refl
e_loop-Recorded c o g (op o' ∷ args) = e_loop-Recorded c o' g args
e_loop-Recorded c o g (text t ∷ args) = e_loop-Recorded c o (plain t) args
e_loop-Recorded c o g (code c' ∷ args) = e_loop-Recorded c' o g args
e_loop-Recorded c o g (err nil ∷ args) = refl
e_loop-Recorded c o g (err e' ∷ args) = e_loop-Recorded c o e' args
e_loop-Recorded c o g (other ∷ args) = refl

-- The answers of the tests on the chain of an error.
abbrev pub kinds : GoError → List Bool
kinds g =
    is_task_not_found g
    ∷ is_queue_not_found g
    ∷ is_queue_not_empty g
    ∷ is_task_already_archived g
    ∷ is_redis_command_error g
    ∷ is_panic_error g
    ∷ []

abbrev pub no_kind : List Bool
no_kind = false ∷ false ∷ false ∷ false ∷ false ∷ false ∷ []

wrapped-kinds : (c : Code) (o : ℕ) (g : GoError) → kinds (wrapped c o g) ≡ kinds g
unfolding is_task_not_found is_queue_not_found is_queue_not_empty is_task_already_archived
    is_redis_command_error is_panic_error
wrapped-kinds c o g = refl

plain-kinds : (t : ℕ) → (canonical_code (plain t) ≡ unspecified) × (kinds (plain t) ≡ no_kind)
unfolding canonical_code is_task_not_found is_queue_not_found is_queue_not_empty
    is_task_already_archived is_redis_command_error is_panic_error
plain-kinds t = (refl, refl)

-- What an error that E makes is taken for: nothing, if there was an argument that E does not know, or
-- else by the last code and the last error among the arguments.
abbrev pub TakenFor : Bool → Code → GoError → GoError → Type 0
TakenFor true c g r = (canonical_code r ≡ unspecified) × (kinds r ≡ no_kind)
TakenFor false c g r = (canonical_code r ≡ code_or c (canonical_code g)) × (kinds r ≡ kinds g)

Recorded-TakenFor :
    (bad : Bool) (c : Code) (o : ℕ) (g r : GoError) → Recorded bad c o g r → TakenFor bad c g r
unfolding canonical_code
Recorded-TakenFor true c o g r h = rw h (plain-kinds 0)
Recorded-TakenFor false c o g r h = rw h (refl, wrapped-kinds c o g)

-- E panics exactly without arguments. With an argument of a type that it does not know, a nil error
-- included, it makes an error of no code and no type. Otherwise the error has the last operation, the
-- last code, or if that is unspecified the code of the last error or text, and each test on its chain
-- answers as on that last error.
pub e_lem :
    (args : List Arg)
    → ((args ≡ []) × (e args ≡ none))
      ⊎ ((args ≢ [])
          × (r : GoError) × (e args ≡ some r)
          × Recorded
              (any_unknown args)
              (last_code unspecified args)
              (last_op 0 args)
              (last_err nil args)
              r
          × TakenFor (any_unknown args) (last_code unspecified args) (last_err nil args) r)
unfolding e
e_lem [] = inl (refl, refl)
e_lem (a ∷ args) =
    let r = e_loop-Recorded unspecified 0 nil (a ∷ args) in
    inr (λ n. cc, _, refl, r, Recorded-TakenFor _ _ _ _ _ r)

-- Layers of Error around an error, the outermost first.
abbrev pub around : List (Code × ℕ) → GoError → GoError
around [] g = g
around ((c, o) ∷ layers) g = wrapped c o (around layers g)

-- The first code of some layers that is specified, or one that is given.
abbrev pub first_code : List (Code × ℕ) → Code → Code
first_code [] c = c
first_code ((unspecified, o) ∷ layers) c = first_code layers c
first_code ((c', o) ∷ layers) c = c'

-- However many times an error is wrapped, its canonical code is that of the outermost layer which has
-- one, or else the code of the error itself, and every test on the chain answers as on the error.
pub around_lem :
    (layers : List (Code × ℕ)) (g : GoError)
    → (canonical_code (around layers g) ≡ first_code layers (canonical_code g))
      × (kinds (around layers g) ≡ kinds g)
unfolding canonical_code
around_lem [] g = (refl, refl)
around_lem ((c, o) ∷ layers) g =
    let ih = around_lem layers g in (by_code c ih.0, wrapped-kinds c o (around layers g) ∙ ih.1)
  where
    by_code :
        (c : Code)
        → canonical_code (around layers g) ≡ first_code layers (canonical_code g)
        → code_or c (canonical_code (around layers g))
          ≡ first_code ((c, o) ∷ layers) (canonical_code g)
    by_code unspecified h = h
    by_code not_found h = refl
    by_code failed_precondition h = refl
    by_code internal h = refl
    by_code already_exists h = refl
    by_code unknown h = refl
