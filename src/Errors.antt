-- ===== src/Errors.antt =====
-- The errors of the internal packages (internal/errors/errors.go): E, CanonicalCode and the tests on
-- the chain of an error. Texts are numbers, 0 the empty one; strings of errors are left out.
pub mod Chain
mod Tests
use asynq.Common.{ℕ, Bool, true, false, List, [], ◌∷◌, Option, none, some, ◌||◌}

pub data Code : Type 0 where
  unspecified not_found failed_precondition internal already_exists unknown : Code

-- error, by the types of this package: `wrapped` is Error with its code, operation and Err, and
-- `plain` any error of another package that wraps none, such as those of errors.New.
pub data GoError : Type 0 where
  nil : GoError
  wrapped : Code → ℕ → GoError → GoError
  redis_command : ℕ → GoError → GoError
  task_not_found task_already_archived : ℕ → ℕ → GoError
  queue_not_found queue_not_empty panicked plain : ℕ → GoError

-- An argument of E; `other` is of a type that it does not know.
pub data Arg : Type 0 where
  op text : ℕ → Arg
  code : Code → Arg
  err : GoError → Arg
  other : Arg

-- The error that E returns for an argument that it does not know; fmt.Errorf makes a text of it.
abbrev pub unknown_type : GoError
unknown_type = plain 0

-- The loop of E over the arguments that are left. A nil error has no type, and is not known.
unfoldable pub e_loop : Code → ℕ → GoError → List Arg → GoError
e_loop c o e [] = wrapped c o e
e_loop c o e (op o' ∷ args) = e_loop c o' e args
e_loop c o e (text t ∷ args) = e_loop c o (plain t) args
e_loop c o e (code c' ∷ args) = e_loop c' o e args
e_loop c o e (err nil ∷ args) = unknown_type
e_loop c o e (err e' ∷ args) = e_loop c o e' args
e_loop c o e (other ∷ args) = unknown_type

-- E; it panics without arguments: `none`.
unfoldable pub e : List Arg → Option GoError
unfolding e_loop
e [] = none
e (arg ∷ args) = some (e_loop unspecified 0 nil (arg ∷ args))

-- The code of an error, or else that of what it wraps.
unfoldable pub code_or : Code → Code → Code
code_or unspecified rest = rest
code_or c rest = c

unfoldable pub canonical_code : GoError → Code
unfolding code_or
canonical_code (wrapped c o e) = code_or c (canonical_code e)
canonical_code e = unspecified

-- Unwrap.
unfoldable pub unwrap : GoError → GoError
unwrap (wrapped c o e) = e
unwrap (redis_command c e) = e
unwrap e = nil

-- errors.As for a type that the test knows: the error or one that it wraps is of the type.
unfoldable pub as_type : (GoError → Bool) → GoError → Bool
as_type is nil = false
as_type is (wrapped c o e) = is (wrapped c o e) || as_type is e
as_type is (redis_command c e) = is (redis_command c e) || as_type is e
as_type is e = is e

abbrev pub of_task_not_found : GoError → Bool
of_task_not_found (task_not_found q id) = true
of_task_not_found e = false

abbrev pub of_queue_not_found : GoError → Bool
of_queue_not_found (queue_not_found q) = true
of_queue_not_found e = false

abbrev pub of_queue_not_empty : GoError → Bool
of_queue_not_empty (queue_not_empty q) = true
of_queue_not_empty e = false

abbrev pub of_task_already_archived : GoError → Bool
of_task_already_archived (task_already_archived q id) = true
of_task_already_archived e = false

abbrev pub of_redis_command : GoError → Bool
of_redis_command (redis_command c e) = true
of_redis_command e = false

abbrev pub of_panicked : GoError → Bool
of_panicked (panicked t) = true
of_panicked e = false

unfoldable pub is_task_not_found : GoError → Bool
unfolding as_type
is_task_not_found = as_type of_task_not_found

unfoldable pub is_queue_not_found : GoError → Bool
unfolding as_type
is_queue_not_found = as_type of_queue_not_found

unfoldable pub is_queue_not_empty : GoError → Bool
unfolding as_type
is_queue_not_empty = as_type of_queue_not_empty

unfoldable pub is_task_already_archived : GoError → Bool
unfolding as_type
is_task_already_archived = as_type of_task_already_archived

unfoldable pub is_redis_command_error : GoError → Bool
unfolding as_type
is_redis_command_error = as_type of_redis_command

unfoldable pub is_panic_error : GoError → Bool
unfolding as_type
is_panic_error = as_type of_panicked
