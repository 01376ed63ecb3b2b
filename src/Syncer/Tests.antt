-- ===== src/Syncer/Tests.antt =====
-- Two requests, and a round in which the second is stale and the call of the first fails.
use asynq.Common.{◌≡◌, refl, true, List, [], ◌∷◌, arith}
use asynq.Syncer.{SyncRequest, received, sync_round}
use asynq.Syncer.Requests.{Life, started, receives, syncs}

abbrev first : SyncRequest
first = record { fn = 1; deadline = 50 }

abbrev second : SyncRequest
second = record { fn = 2; deadline = 20 }

abbrev waiting : List SyncRequest
waiting = received (received [] first) second

two_received : Life 0 (first ∷ second ∷ []) [] [] waiting
two_received = receives second (receives first started)

one_round :
    Life 30
      (first ∷ second ∷ [])
      (sync_round (λ i. 30) (λ i. true) 0 waiting).synced
      (sync_round (λ i. 30) (λ i. true) 0 waiting).dropped
      (sync_round (λ i. 30) (λ i. true) 0 waiting).kept
one_round = syncs (λ i. 30) (λ i. true) 30 two_received (omega arith) (λ i. omega arith)

second_dropped : (sync_round (λ i. 30) (λ i. true) 0 waiting).dropped ≡ second ∷ []
unfolding sync_round received
second_dropped = refl
