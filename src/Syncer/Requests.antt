-- ===== src/Syncer/Requests.antt =====
-- What becomes of a request (syncer.go).
use asynq.Common.{
  ℕ, ◌+◌, ◌<◌, ◌≤◌, ◌≡◌, refl, Bool, List, [], ◌∷◌, ◌++◌, arith, if◌then◌else◌, ◌==◌,
}
use asynq.Syncer.{SyncRequest, received, sync_round}

-- How often the request j is in a list.
abbrev pub times : ℕ → List SyncRequest → ℕ
times j [] = 0
times j (req ∷ rest) = (if req.fn == j then 1 else 0) + times j rest

-- A list's requests have a deadline before a bound.
abbrev pub AllBefore : ℕ → List SyncRequest → Type 0
AllBefore bound [] = Unit {0}
AllBefore bound (req ∷ rest) = (req.deadline < bound) × AllBefore bound rest

times-append : (j : ℕ) (xs ys : List SyncRequest) → times j (xs ++ ys) ≡ times j xs + times j ys
times-append j [] ys = omega arith
times-append j (x ∷ xs) ys = omega (arith, times-append j xs ys)

times-received :
    (j : ℕ) (requests : List SyncRequest) (req : SyncRequest)
    → times j (received requests req) ≡ times j requests + times j (req ∷ [])
unfolding received
times-received j requests req = times-append j requests (req ∷ [])

times-sync_round :
    (now : ℕ → ℕ) (fails : ℕ → Bool) (k j : ℕ) (requests : List SyncRequest)
    → let r = sync_round now fails k requests in
      times j requests ≡ times j r.kept + times j r.synced + times j r.dropped
unfolding sync_round
times-sync_round now fails k j [] = refl
times-sync_round now fails k j (req ∷ rest) =
    ground (arith, times-sync_round now fails (k + 1) j rest)

dropped-AllBefore :
    (now : ℕ → ℕ) (fails : ℕ → Bool) (k bound : ℕ) (requests : List SyncRequest)
    → ((i : ℕ) → now i ≤ bound)
    → AllBefore bound (sync_round now fails k requests).dropped
unfolding sync_round
dropped-AllBefore now fails k bound [] h = tt
dropped-AllBefore now fails k bound (req ∷ rest) h =
    ground (arith, h k, dropped-AllBefore now fails (k + 1) bound rest h)

-- The life of a syncer up to a time: the requests that it got, those whose call did not fail, those
-- that it dropped, and those it still has.
pub data Life
    : ℕ → List SyncRequest → List SyncRequest → List SyncRequest → List SyncRequest → Type 0 where
  started : Life 0 [] [] [] []
  receives :
      {t : ℕ} {got synced dropped requests : List SyncRequest} (req : SyncRequest)
      → Life t got synced dropped requests
      → Life t (got ++ req ∷ []) synced dropped (received requests req)
  syncs :
      {t : ℕ} {got synced dropped requests : List SyncRequest} (now : ℕ → ℕ) (fails : ℕ → Bool)
      (until : ℕ)
      → Life t got synced dropped requests
      → t ≤ until
      → ((i : ℕ) → now i ≤ until)
      → Life until got
          (synced ++ (sync_round now fails 0 requests).synced)
          (dropped ++ (sync_round now fails 0 requests).dropped)
          (sync_round now fails 0 requests).kept

AllBefore-append :
    (t bound : ℕ) (xs ys : List SyncRequest)
    → AllBefore t xs
    → t ≤ bound
    → AllBefore bound ys
    → AllBefore bound (xs ++ ys)
AllBefore-append t bound [] ys a le b = b
AllBefore-append t bound (x ∷ xs) ys a le b =
    (omega (arith, a.0), AllBefore-append t bound xs ys a.1 le b)

-- The syncer loses no request and doubles none: each that it got has been made without an error, is
-- still waiting, or was dropped, and it drops only requests whose deadline has passed.
pub requests_kept :
    {t : ℕ} {got synced dropped requests : List SyncRequest}
    → Life t got synced dropped requests
    → ((j : ℕ) → times j got ≡ times j synced + times j dropped + times j requests)
      × AllBefore t dropped
requests_kept started = (λ j. refl, tt)
requests_kept (receives {got = got} {requests = requests} req life) =
    let ih = requests_kept life in
    (λ j. omega (arith, ih.0 j, times-append j got (req ∷ []), times-received j requests req), ih.1)
requests_kept
      (syncs {t = t} {synced = synced} {dropped = dropped} {requests = requests} now fails until
        life le clock) =
    let ih = requests_kept life in
    let r = sync_round now fails 0 requests in
    (
      λ j. omega (
        arith,
        ih.0 j,
        times-sync_round now fails 0 j requests,
        times-append j synced r.synced,
        times-append j dropped r.dropped,
      ),
      AllBefore-append t until dropped r.dropped ih.1 le
          (dropped-AllBefore now fails 0 until requests clock),
    )
