-- ===== src/Heartbeat.antt =====
-- The heartbeater (heartbeat.go): the workers of a server, and the beat that extends their leases. All
-- workers are on one queue. The clock is read for each worker when its lease is checked, when it is
-- told, and when its lease is reset: `check`, `tell` and `renew` are these readings, by the task's id.
pub mod Beat
mod Tests
use asynq.Common.{
  ℕ, Bool, List, [], ◌∷◌, Option, none, some, ◌==◌, ◌||◌, ltb, if◌then◌else◌, count, length,
}
use asynq.Redis.{Redis}
use asynq.Lease.{Lease, is_valid, reset, notify_expiration}
use asynq.Rdb.{Db, extend_leases}

-- workerInfo: the task's id and its lease.
pub record Worker : Type 0 where
  pub id : ℕ
  pub lease : Lease

-- The map of workers, as the list of its values.
abbrev pub ids_of : List Worker → List ℕ
ids_of [] = []
ids_of (w ∷ ws) = w.id ∷ ids_of ws

unfoldable pub finished : List Worker → ℕ → List Worker
finished [] id = []
finished (w ∷ ws) id = let rest = finished ws id in if w.id == id then rest else w ∷ rest

unfoldable pub starting : List Worker → Worker → List Worker
unfolding finished
starting ws w = w ∷ finished ws w.id

pub record Readings : Type 0 where
  pub check : ℕ → ℕ
  pub tell : ℕ → ℕ
  pub renew : ℕ → ℕ

-- A worker whose lease has expired is told; the ids of the others are collected.
unfoldable pub checked : Readings → List Worker → List Worker × List ℕ
checked t [] = ([], [])
checked t (w ∷ ws) =
    let rest = checked t ws in
    if is_valid w.lease (t.check w.id)
    then (w ∷ rest.0, w.id ∷ rest.1)
    else (record w { lease = (notify_expiration w.lease (t.tell w.id)).0 } ∷ rest.0, rest.1)

-- Reset of the leases of the ids.
unfoldable pub renewed : Readings → ℕ → List ℕ → List Worker → List Worker
renewed t expire_at ids [] = []
renewed t expire_at ids (w ∷ ws) =
    let rest = renewed t expire_at ids ws in
    if ltb 0 (count w.id ids)
    then record w { lease = (reset w.lease (t.renew w.id) expire_at).0 } ∷ rest
    else w ∷ rest

-- Without a valid lease there is no call; `fails` is whether ExtendLease returns an error, of its
-- connection. WriteServerState touches no key of the queue.
unfoldable pub beat : {R : Redis} → Readings → Bool → Db R → ℕ → List Worker → Db R × List Worker
unfolding checked renewed
beat t fails db now ws =
    let c = checked t ws in
    if length c.1 == 0 || fails
    then (db, c.0)
    else ((extend_leases db now c.1).0, renewed t (extend_leases db now c.1).1 c.1 c.0)
