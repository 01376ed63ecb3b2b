-- ===== src/Aggregator/Trace.antt =====
-- What a check of an aggregator did, read off its events (aggregator.go).
use asynq.Common.{ℕ, ◌≡◌, refl, ap, ◌⊎◌, true, false, List, [], ◌∷◌, ◌++◌, if◌then◌else◌, All}
use mathlib.Core.List.{append_assoc}
use asynq.Client.{BrokerCall}
use asynq.Client.Message.{message_of}
use asynq.Aggregator.{Event, listed, checked, enqueued, deleted}

abbrev pub pairs : ℕ → List ℕ → List (ℕ × ℕ)
pairs q [] = []
pairs q (g ∷ gs) = (q, g) ∷ pairs q gs

-- The groups that a check was told, and those that it checked, in order.
abbrev pub listed_groups : List Event → List (ℕ × ℕ)
listed_groups [] = []
listed_groups (listed q gs ∷ es) = pairs q gs ++ listed_groups es
listed_groups (e ∷ es) = listed_groups es

abbrev pub checked_groups : List Event → List (ℕ × ℕ)
checked_groups [] = []
checked_groups (checked q g ∷ es) = (q, g) ∷ checked_groups es
checked_groups (e ∷ es) = checked_groups es

-- The sets whose aggregated task was added, and those that were deleted, in order.
abbrev pub added_sets : List Event → List (ℕ × ℕ × ℕ)
added_sets [] = []
added_sets (enqueued q g id calls ok ∷ es) =
    let rest = added_sets es in if ok then (q, g, id) ∷ rest else rest
added_sets (e ∷ es) = added_sets es

abbrev pub deleted_sets : List Event → List (ℕ × ℕ × ℕ)
deleted_sets [] = []
deleted_sets (deleted q g id ∷ es) = (q, g, id) ∷ deleted_sets es
deleted_sets (e ∷ es) = deleted_sets es

-- The calls for a set are for a task of its queue, and a task was added by one call.
abbrev pub IsForQueue : Event → Type 0
IsForQueue (enqueued q g id calls ok) =
    All (λ c. (message_of c).queue ≡ q) calls
    × ((ok ≡ false) ⊎ ((c : BrokerCall) × (calls ≡ c ∷ [])))
IsForQueue (listed q gs) = Unit {0}
IsForQueue (checked q g) = Unit {0}
IsForQueue (deleted q g id) = Unit {0}

-- A part of a check that checks some groups.
pub record IsFair (gs : List (ℕ × ℕ)) (told : List (ℕ × ℕ)) (es : List Event) : Type 0 where
  pub checks : checked_groups es ≡ gs
  pub tells : listed_groups es ≡ told
  pub deletes : deleted_sets es ≡ added_sets es
  pub calls : All IsForQueue es

listed_groups-append :
    (es fs : List Event) → listed_groups (es ++ fs) ≡ listed_groups es ++ listed_groups fs
listed_groups-append [] fs = refl
listed_groups-append (listed q gs ∷ es) fs = simp (listed_groups-append es fs, append_assoc)
listed_groups-append (checked q g ∷ es) fs = listed_groups-append es fs
listed_groups-append (enqueued q g id calls ok ∷ es) fs = listed_groups-append es fs
listed_groups-append (deleted q g id ∷ es) fs = listed_groups-append es fs

checked_groups-append :
    (es fs : List Event) → checked_groups (es ++ fs) ≡ checked_groups es ++ checked_groups fs
checked_groups-append [] fs = refl
checked_groups-append (listed q gs ∷ es) fs = checked_groups-append es fs
checked_groups-append (checked q g ∷ es) fs = ap ((q, g) ∷◌) (checked_groups-append es fs)
checked_groups-append (enqueued q g id calls ok ∷ es) fs = checked_groups-append es fs
checked_groups-append (deleted q g id ∷ es) fs = checked_groups-append es fs

added_sets-append : (es fs : List Event) → added_sets (es ++ fs) ≡ added_sets es ++ added_sets fs
added_sets-append [] fs = refl
added_sets-append (listed q gs ∷ es) fs = added_sets-append es fs
added_sets-append (checked q g ∷ es) fs = added_sets-append es fs
added_sets-append (enqueued q g id calls true ∷ es) fs =
    ap ((q, g, id) ∷◌) (added_sets-append es fs)
added_sets-append (enqueued q g id calls false ∷ es) fs = added_sets-append es fs
added_sets-append (deleted q g id ∷ es) fs = added_sets-append es fs

deleted_sets-append :
    (es fs : List Event) → deleted_sets (es ++ fs) ≡ deleted_sets es ++ deleted_sets fs
deleted_sets-append [] fs = refl
deleted_sets-append (listed q gs ∷ es) fs = deleted_sets-append es fs
deleted_sets-append (checked q g ∷ es) fs = deleted_sets-append es fs
deleted_sets-append (enqueued q g id calls ok ∷ es) fs = deleted_sets-append es fs
deleted_sets-append (deleted q g id ∷ es) fs = ap ((q, g, id) ∷◌) (deleted_sets-append es fs)

All-append : (P : Event → Type 0) (es fs : List Event) → All P es → All P fs → All P (es ++ fs)
All-append P [] fs h k = k
All-append P (e ∷ es) fs h k = (h.0, All-append P es fs h.1 k)

pub IsFair-append :
    {gs hs told told' : List (ℕ × ℕ)} {es fs : List Event}
    → IsFair gs told es
    → IsFair hs told' fs
    → IsFair (gs ++ hs) (told ++ told') (es ++ fs)
IsFair-append {es} {fs} a b = record {
  checks = simp (checked_groups-append es fs, a.checks, b.checks);
  tells = simp (listed_groups-append es fs, a.tells, b.tells);
  deletes = simp (deleted_sets-append es fs, added_sets-append es fs, a.deletes, b.deletes);
  calls = All-append IsForQueue es fs a.calls b.calls;
}
