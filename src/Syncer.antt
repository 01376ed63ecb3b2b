-- ===== src/Syncer.antt =====
-- The syncer (syncer.go): the requests that failed at first, and the rounds that make them again.
-- What a request does is a number, `fn`; whether its call fails is given to a round by the calls'
-- outcomes, and so is the clock, which is read at each request.
pub mod Requests
mod Tests
use asynq.Common.{ℕ, ◌+◌, Bool, List, [], ◌∷◌, ◌++◌, if◌then◌else◌, ltb}

pub record SyncRequest : Type 0 where
  pub fn : ℕ
  pub deadline : ℕ

-- case req := <-s.requestsCh.
unfoldable pub received : List SyncRequest → SyncRequest → List SyncRequest
received requests req = requests ++ req ∷ []

-- What a round does with its requests: those that are kept for the next, those whose call did not
-- fail, and those that were dropped.
pub record Round : Type 0 where
  pub kept : List SyncRequest
  pub synced : List SyncRequest
  pub dropped : List SyncRequest

-- The loop of a round, from its request number k on: `now k` is the clock there, and `fails k` says
-- whether the call fails.
unfoldable pub sync_round : (ℕ → ℕ) → (ℕ → Bool) → ℕ → List SyncRequest → Round
sync_round now fails k [] = record { kept = []; synced = []; dropped = [] }
sync_round now fails k (req ∷ rest) =
    let r = sync_round now fails (k + 1) rest in
    if ltb req.deadline (now k)
    then record r { dropped = req ∷ r.dropped }
    else if fails k
    then record r { kept = req ∷ r.kept }
    else record r { synced = req ∷ r.synced }
