-- ===== src/Task.antt =====
-- Tasks (internal/base/base.go): the states, and the hash that Redis keeps at a task's key.
pub mod States
use asynq.Common.{ℕ, Bool, false, Option, none, some, ◌==◌, if◌then◌else◌, is_some}

-- TaskState.
pub data TaskState : Type 0 where
  active pending scheduled retry archived completed aggregating : TaskState

-- The numbers of the constants, iota + 1.
abbrev pub code : TaskState → ℕ
code active = 1
code pending = 2
code scheduled = 3
code retry = 4
code archived = 5
code completed = 6
code aggregating = 7

-- The fields that the scripts read and write at asynq:{<qname>}:t:<task_id>.
pub record TaskHash : Type 0 where
  pub msg : Option ℕ
  pub state : Option TaskState
  pub pending_since : Option ℕ
  pub unique_key : Option ℕ
  pub group : Option ℕ
  pub result : Option ℕ
  pub source_id_digest : Option ℕ

abbrev pub no_fields : TaskHash
no_fields = record {
  msg = none;
  state = none;
  pending_since = none;
  unique_key = none;
  group = none;
  result = none;
  source_id_digest = none;
}

-- HSET writes into the hash, or into a new one.
abbrev pub written : (TaskHash → TaskHash) → Option TaskHash → Option TaskHash
written f none = some (f no_fields)
written f (some h) = some (f h)

-- HGET key "msg" and HEXISTS key "sourceIdDigest".
abbrev pub msg_of : Option TaskHash → Option ℕ
msg_of none = none
msg_of (some h) = h.msg

abbrev pub is_marked : Option TaskHash → Bool
is_marked none = false
is_marked (some h) = is_some h.source_id_digest

-- HGET key "group".
abbrev pub group_field : Option TaskHash → Option ℕ
group_field none = none
group_field (some h) = h.group

-- The number of the state at a task's key, 0 where there is none.
abbrev pub code? : Option TaskState → ℕ
code? none = 0
code? (some s) = code s

abbrev pub state_code : Option TaskHash → ℕ
state_code none = 0
state_code (some h) = code? h.state

-- A map from texts, written at one of them.
abbrev pub update {ℓ} : {A : Type ℓ} → (ℕ → A) → ℕ → A → ℕ → A
update f k v j = if k == j then v else f j
