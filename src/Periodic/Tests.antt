-- ===== src/Periodic/Tests.antt =====
-- Syncs on a small manager, and the theorem at one.
use asynq.Common.{
  ℕ, ◌≡◌, refl, true, ◌&&◌, List, [], ◌∷◌, none, some, arith, ltb, if◌then◌else◌, count, is_some,
}
use asynq.Task.{update}
use asynq.Periodic.{
  initial_sync, Config, Manager, hashes, all_valid, add, add_one, remove, remove_one, diff_removed,
  diff_added, sync,
}
use asynq.Periodic.Sync.{Linked, Listed, sync_lem}

abbrev config : ℕ → Config
config h = record { hash = h; is_valid = true; is_accepted = true }

abbrev nothing : Manager
nothing = record { m = λ h. none; keys = []; entries = λ i. none; next_id = 0 }

-- Hashes 4 and 5 are registered as entries 0 and 1.
abbrev two_entries : Manager
two_entries = record {
  m = update (update (λ h. none) 4 (some 0)) 5 (some 1);
  keys = 5 ∷ 4 ∷ [];
  entries = update (update (λ i. none) 0 (some 4)) 1 (some 5);
  next_id = 2;
}

linked : Linked two_entries
linked hash id = ground arith

listed : Listed two_entries
listed j = ground arith

-- Hash 4 goes, 5 stays and 6 comes.
abbrev configs : List Config
configs = config 5 ∷ config 6 ∷ []

sync_lem_example :
    let r = sync two_entries (some configs) in
    Linked r
    × Listed r
    × ((j : ℕ) → is_some (r.m j) ≡ ltb 0 (count j (hashes configs)))
    × ((j : ℕ)
        → (if is_some (two_entries.m j) && ltb 0 (count j (hashes configs))
            then r.m j
            else two_entries.m j)
          ≡ two_entries.m j)
sync_lem_example =
    sync_lem two_entries configs linked listed (unfold all_valid in refl) refl (λ j. ground arith)

-- Two configs with the same hash are both registered, and the map has the second only.
both_registered :
    let r = sync nothing (some (config 6 ∷ config 6 ∷ [])) in
    (r.m 6 ≡ some 1) × (r.entries 0 ≡ some 6) × (r.entries 1 ≡ some 6)
unfolding sync all_valid add add_one remove remove_one diff_removed diff_added
both_registered = (refl, refl, refl)

-- The first sync does so too.
both_at_first : (initial_sync nothing (some (config 6 ∷ config 6 ∷ []))).entries 0 ≡ some 6
unfolding initial_sync all_valid add add_one
both_at_first = refl
