-- ===== src/Task/States.antt =====
-- The names of task states: TaskState.String and TaskStateFromString (internal/base/base.go).
mod Tests
use Prim.Native.String.{String}
use text.Mathlib.Text.{◌==◌ as str_eq}
use text.Mathlib.TextEquality.{eq_iff}
use text.Mathlib.TextPositions.{eq_refl}
use asynq.Common.{
  ◌≡◌, ◌↔◌, refl, Option, none, some, if◌then◌else◌, ap, ◌∙◌, Bool-cases, inl, inr, arith,
}
use asynq.Task.{TaskState, active, pending, scheduled, retry, archived, completed, aggregating}

unfoldable pub string : TaskState → String
string active = "active"
string pending = "pending"
string scheduled = "scheduled"
string retry = "retry"
string archived = "archived"
string completed = "completed"
string aggregating = "aggregating"

-- `none` is the error FailedPrecondition.
unfoldable pub task_state_from_string : String → Option TaskState
task_state_from_string s =
    if str_eq s "active"
    then some active
    else if str_eq s "pending"
    then some pending
    else if str_eq s "scheduled"
    then some scheduled
    else if str_eq s "retry"
    then some retry
    else if str_eq s "archived"
    then some archived
    else if str_eq s "completed"
    then some completed
    else if str_eq s "aggregating"
    then some aggregating
    else none

-- The name of a state is read back as that state.
read_back : (t : TaskState) → task_state_from_string (string t) ≡ some t
unfolding string task_state_from_string
read_back active = refl
read_back pending = refl
read_back scheduled = refl
read_back retry = refl
read_back archived = refl
read_back completed = refl
read_back aggregating = refl

-- One comparison of the switch, and those after it.
one_case :
    (s : String) (t t' : TaskState) (rest : Option TaskState)
    → (rest ≡ some t' → s ≡ string t')
    → (if str_eq s (string t) then some t else rest) ≡ some t'
    → s ≡ string t'
one_case s t t' rest later h = elim (Bool-cases (str_eq s (string t))) [
  | inl e ↦ let same : t ≡ t' = ground (arith, e, h) in (eq_iff s (string t)).0 e ∙ ap string same
  | inr e ↦ later (ground (arith, e, h))
]

found_name : (s : String) (t : TaskState) → task_state_from_string s ≡ some t → s ≡ string t
unfolding task_state_from_string string
found_name s t = one_case s active t _ (
    one_case s pending t _ (
      one_case s scheduled t _ (
        one_case s retry t _ (
          one_case s archived t _ (
            one_case s completed t _
              (one_case s aggregating t none (λ h. absurd (ground (arith, h)))))))))

-- TaskStateFromString gives a state exactly on the name that String gives to it.
pub task_state_from_string_lem :
    (s : String) (t : TaskState) → (task_state_from_string s ≡ some t) ↔ (s ≡ string t)
task_state_from_string_lem s t = (found_name s t, λ e. ap task_state_from_string e ∙ read_back t)
