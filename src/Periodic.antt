-- ===== src/Periodic.antt =====
-- The periodic task manager (periodic_task_manager.go) over the entries of its scheduler
-- (scheduler.go): a sync registers the configs that are new and unregisters those that are gone. A
-- hash is a number, and so are entry ids; the ids that uuid makes are counted up.
pub mod Sync
mod Tests
use asynq.Common.{
  ℕ, ◌+◌, Bool, true, false, List, [], ◌∷◌, Option, none, some, ◌==◌, ltb, if◌then◌else◌, count,
  is_some, without,
}
use asynq.Task.{update}

-- A config: its hash, whether validatePeriodicTaskConfig accepts it, and whether the scheduler does.
pub record Config : Type 0 where
  pub hash : ℕ
  pub is_valid : Bool
  pub is_accepted : Bool

-- `m` maps hashes to entry ids, with its keys in the order of a loop over it; `entries` are the
-- scheduler's, by id, with the hash of what is registered.
pub record Manager : Type 0 where
  pub m : ℕ → Option ℕ
  pub keys : List ℕ
  pub entries : ℕ → Option ℕ
  pub next_id : ℕ

abbrev pub hashes : List Config → List ℕ
hashes [] = []
hashes (c ∷ cs) = c.hash ∷ hashes cs

unfoldable pub all_valid : List Config → Bool
all_valid [] = true
all_valid (c ∷ cs) = let rest = all_valid cs in if c.is_valid then rest else false

-- Register, and the entry of the map.
unfoldable pub add_one : Manager → Config → Manager
add_one mgr c =
    if c.is_accepted
    then record {
      m = update mgr.m c.hash (some mgr.next_id);
      keys = if is_some (mgr.m c.hash) then mgr.keys else c.hash ∷ mgr.keys;
      entries = update mgr.entries mgr.next_id (some c.hash);
      next_id = mgr.next_id + 1;
    }
    else mgr

unfoldable pub add : Manager → List Config → Manager
add mgr [] = mgr
add mgr (c ∷ cs) = add (add_one mgr c) cs

-- Unregister, and then the entry of the map goes; an unknown id is an error, and it stays.
unfoldable pub remove_one : Manager → ℕ → ℕ → Manager
remove_one mgr hash id =
    if is_some (mgr.entries id)
    then record mgr {
      m = update mgr.m hash none;
      keys = without hash mgr.keys;
      entries = update mgr.entries id none;
    }
    else mgr

unfoldable pub remove : Manager → List (ℕ × ℕ) → Manager
remove mgr [] = mgr
remove mgr ((hash, id) ∷ rest) = remove (remove_one mgr hash id) rest

-- Hashes and ids that no config has.
unfoldable pub diff_removed : (ℕ → Option ℕ) → List ℕ → List Config → List (ℕ × ℕ)
diff_removed m [] configs = []
diff_removed m (k ∷ ks) configs =
    let rest = diff_removed m ks configs in
    if ltb 0 (count k (hashes configs))
    then rest
    else elim (m k) [ none ↦ rest | some id ↦ (k, id) ∷ rest ]

-- Configs that the map does not have.
unfoldable pub diff_added : (ℕ → Option ℕ) → List Config → List Config
diff_added m [] = []
diff_added m (c ∷ cs) = let rest = diff_added m cs in if is_some (m c.hash) then rest else c ∷ rest

-- GetConfigs may fail, and then nothing is done.
unfoldable pub sync : Manager → Option (List Config) → Manager
unfolding all_valid add remove diff_removed diff_added
sync mgr none = mgr
sync mgr (some configs) =
    if all_valid configs
    then add (remove mgr (diff_removed mgr.m mgr.keys configs)) (diff_added mgr.m configs)
    else mgr

-- The sync at the start, after which nothing runs where it fails.
unfoldable pub initial_sync : Manager → Option (List Config) → Manager
unfolding all_valid add
initial_sync mgr none = mgr
initial_sync mgr (some configs) = if all_valid configs then add mgr configs else mgr
