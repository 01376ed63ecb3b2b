-- ===== src/Errors/Tests.antt =====
-- The errors of a package, on the one that is made for a task that is missing.
use asynq.Common.{◌≡◌, ◌≢◌, ◌⊎◌, refl, List, [], ◌∷◌, none, some}
use asynq.Errors.{
  not_found, unspecified, internal, GoError, nil, task_not_found, Arg, op, code, err, e,
  canonical_code,
}
use asynq.Errors.Chain.{
  any_unknown, last_code, last_op, last_err, Recorded, kinds, TakenFor, e_lem, around, first_code,
  around_lem,
}

abbrev args : List Arg
args = op 4 ∷ code not_found ∷ err (task_not_found 3 5) ∷ []

e_lem_example :
    ((args ≡ []) × (e args ≡ none))
    ⊎ ((args ≢ [])
        × (r : GoError) × (e args ≡ some r)
        × Recorded
            (any_unknown args)
            (last_code unspecified args)
            (last_op 0 args)
            (last_err nil args)
            r
        × TakenFor (any_unknown args) (last_code unspecified args) (last_err nil args) r)
e_lem_example = e_lem args

-- A nil error makes E forget the code.
forgotten : e (code internal ∷ err nil ∷ []) ≡ some (GoError.plain 0)
unfolding e
forgotten = refl

around_lem_example :
    let g = around ((unspecified, 4) ∷ (not_found, 5) ∷ []) (task_not_found 3 5) in
    (canonical_code g ≡ first_code ((unspecified, 4) ∷ (not_found, 5) ∷ []) unspecified)
    × (kinds g ≡ kinds (task_not_found 3 5))
around_lem_example = around_lem ((unspecified, 4) ∷ (not_found, 5) ∷ []) (task_not_found 3 5)
