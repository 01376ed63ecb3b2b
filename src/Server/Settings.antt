-- ===== src/Server/Settings.antt =====
-- The settings of a server are in order (server.go).
use Prim.Native.Nat.{◌∣◌}
use native.Mathlib.Nat.{dvd_refl, eq-zero_of_zero-dvd}
use asynq.Common.{
  ℕ, ◌*◌, ◌≤◌, ◌<◌, ◌≡◌, ◌≢◌, refl, Bool, false, List, [], ◌∷◌, none, some, ◌==◌, arith, ltb,
  ltb→lt, ==_iff, subst, zero, suc, ◌⊎◌, ℤ, pos, negsuc, All, Option-cases, Bool-cases, inl, inr,
}
use asynq.Client.{second, default_queue_name}
use asynq.Server.Config.{
  Config, Settings, if_not_positive, if_zero, weighted, valid_queues, or_default, grace_period,
  settings, new_server_from_redis_client, info_level, fatal_level, to_internal_log_level,
}
use asynq.Processor.Priority.{normalize_queues, gcd, priorities, divided}
use asynq.Processor.Priority.Divisors.{normalize_queues_lem, IsScaled, gcd_dvd}

-- A queue that a server works on.
abbrev pub IsWorkable : (ℕ → Bool) → ℕ × ℕ → Type 0
IsWorkable is_blank q = (is_blank q.0 ≡ false) × (0 < q.1)

-- Settings in order: no part is given zero where the code has a default.
pub record IsInOrder (is_blank : ℕ → Bool) (st : Settings) : Type 0 where
  pub concurrency : 0 < st.concurrency
  pub task_check_interval : 0 < st.task_check_interval
  pub queues : All (IsWorkable is_blank) st.queues
  pub some_queue : st.queues ≢ []
  pub shutdown_timeout : st.shutdown_timeout ≢ pos 0
  pub health_check_interval : st.health_check_interval ≢ pos 0
  pub delayed_task_check_interval : st.delayed_task_check_interval ≢ pos 0
  pub log_level : (0 < st.log_level) × (st.log_level ≤ fatal_level)
  pub group_grace_period : second ≤ st.group_grace_period
  pub janitor_interval : st.janitor_interval ≢ pos 0
  pub janitor_batch_size : st.janitor_batch_size ≢ pos 0

if_not_positive_pos : (d : ℕ) (n : ℤ) → 0 < d → 0 < if_not_positive d n
unfolding if_not_positive
if_not_positive_pos d n h = ground arith

if_zero_ne : (d : ℕ) (n : ℤ) → 0 < d → if_zero d n ≢ pos 0
unfolding if_zero
if_zero_ne d n h = ground arith

valid_queues-All :
    (is_blank : ℕ → Bool) (qs : List (ℕ × ℤ)) → All (IsWorkable is_blank) (valid_queues is_blank qs)
unfolding valid_queues weighted
valid_queues-All is_blank [] = tt
valid_queues-All is_blank ((q, p) ∷ r) = let ih = valid_queues-All is_blank r in ground (arith, ih)

or_default-All :
    (is_blank : ℕ → Bool) (qs : List (ℕ × ℕ))
    → is_blank default_queue_name ≡ false
    → All (IsWorkable is_blank) qs
    → All (IsWorkable is_blank) (or_default qs) × (or_default qs ≢ [])
unfolding or_default
or_default-All is_blank [] named all = (((named, omega arith), tt), ground arith)
or_default-All is_blank (q ∷ qs) named all = (all, ground arith)

-- A duration of less than a second that is not zero.
abbrev pub IsTooShort : ℤ → Type 0
IsTooShort (pos n) = (0 < n) × (n < second)
IsTooShort (negsuc n) = Unit {0}

grace_period_cases :
    (n : ℤ)
    → ((grace_period (if_zero (60 * second) n) ≡ none) × IsTooShort n)
      ⊎ ((g : ℕ) × (grace_period (if_zero (60 * second) n) ≡ some g) × (second ≤ g))
unfolding grace_period if_zero
grace_period_cases (pos zero) = inr (60 * second, refl, omega arith)
grace_period_cases (pos (suc n)) = elim (Bool-cases (ltb (suc n) second)) [
  | inl e ↦ inl (rw e refl, (omega arith, ltb→lt (suc n) second e))
  | inr e ↦ inr (suc n, rw e refl, ground (arith, e))
]
grace_period_cases (negsuc n) = inl (refl, tt)

-- A level that is neither unspecified nor one of the five.
abbrev pub IsUnknown : ℤ → Type 0
IsUnknown (pos n) = fatal_level < n
IsUnknown (negsuc n) = Unit {0}

log_level_cases :
    (n : ℤ)
    → ((to_internal_log_level (if_zero info_level n) ≡ none) × IsUnknown n)
      ⊎ ((l : ℕ) × (to_internal_log_level (if_zero info_level n) ≡ some l)
          × ((0 < l) × (l ≤ fatal_level)))
unfolding to_internal_log_level if_zero
log_level_cases (pos zero) = inr (2, refl, (omega arith, omega arith))
log_level_cases (pos (suc n)) = elim (Bool-cases (ltb fatal_level (suc n))) [
  | inl e ↦ inl (rw e refl, ltb→lt fatal_level (suc n) e)
  | inr e ↦ inr (suc n, rw e refl, (omega arith, ground (arith, e)))
]
log_level_cases (negsuc n) = inl (refl, tt)

-- The queues of a processor: those that are given, with positive priorities still.
scaled_pos :
    (is_blank : ℕ → Bool) (d : ℕ) (xs ys : List (ℕ × ℕ))
    → IsScaled d xs ys
    → All (IsWorkable is_blank) ys
    → All (IsWorkable is_blank) xs
scaled_pos is_blank d [] [] s h = tt
scaled_pos is_blank d [] (y ∷ ys) s h = absurd s
scaled_pos is_blank d (x ∷ xs) [] s h = absurd s
scaled_pos is_blank d (x ∷ xs) (y ∷ ys) s h =
    ((rw s.0 h.0.0, positive x.1 (rw s.1 at h.0.1)), scaled_pos is_blank d xs ys s.2 h.1)
  where
    positive : (p : ℕ) → 0 < p * d → 0 < p
    positive zero k = absurd (omega (arith, k))
    positive (suc p) k = omega arith

normalize_total :
    (is_blank : ℕ → Bool) (qs : List (ℕ × ℕ))
    → All (IsWorkable is_blank) qs
    → qs ≢ []
    → (qs' : List (ℕ × ℕ)) × (normalize_queues qs ≡ some qs') × All (IsWorkable is_blank) qs'
unfolding normalize_queues gcd
normalize_total is_blank [] all more = absurd (more refl)
normalize_total is_blank ((q, p) ∷ r) all more =
    let qs : List (ℕ × ℕ) = (q, p) ∷ r in
    elim (Option-cases (gcd (priorities qs))) [
      | inl e ↦ absurd (ground (arith, e))
      | inr (d, e) ↦ elim (Bool-cases (d == 0)) [
        | inl z ↦ absurd (nonzero d e ((==_iff d 0).0 z))
        | inr nz ↦
            let made : normalize_queues qs ≡ some (divided d qs) = ground (arith, e, nz) in
            let n = normalize_queues_lem qs (divided d qs) made in
            (divided d qs, made, scaled_pos is_blank n.0 (divided d qs) qs n.2 all)
      ]
    ]
  where
    nonzero : (d : ℕ) → gcd (p ∷ priorities r) ≡ some d → d ≡ 0 → ⊥
    nonzero d e z =
        let none_divides = (gcd_dvd d d (p ∷ priorities r) e).0 (dvd_refl d) in
        let is_zero : p ≡ 0 = eq-zero_of_zero-dvd (subst (λ k. k ∣ p) z none_divides.0) in
        absurd (omega (arith, is_zero, all.0.1))

-- A server's configuration panics, and then its grace period is less than a second and not zero, or
-- its log level is not zero and not one of the five; or it comes to settings in which nothing that has
-- a default is zero, every queue has a valid name and a positive priority, there is a queue, the log
-- level is one of the five, and the grace period is a second at least. The processor can
-- then divide the priorities by their greatest common divisor, and they stay positive. The default
-- queue's name must be valid, and there is a CPU.
pub new_server_lem :
    (is_blank : ℕ → Bool) (cpus : ℕ) (cfg : Config)
    → is_blank default_queue_name ≡ false
    → 0 < cpus
    → let made = new_server_from_redis_client is_blank cpus cfg in
      ((made ≡ none) × (IsTooShort cfg.group_grace_period ⊎ IsUnknown cfg.log_level))
      ⊎ ((st : Settings) × (made ≡ some st)
          × IsInOrder is_blank st
          × ((qs : List (ℕ × ℕ)) × (normalize_queues st.queues ≡ some qs)
              × All (IsWorkable is_blank) qs))
unfolding new_server_from_redis_client settings
new_server_lem is_blank cpus cfg named some_cpu = elim (grace_period_cases cfg.group_grace_period) [
  | inl short ↦ inl (rw (short.0, new_server_from_redis_client) refl, inl short.1)
  | inr (g, e, long) ↦ elim (log_level_cases cfg.log_level) [
    | inl unknown ↦ inl (rw (e, unknown.0, new_server_from_redis_client) refl, inr unknown.1)
    | inr (l, e', level) ↦
        let qs =
          or_default-All is_blank (valid_queues is_blank cfg.queues) named
            (valid_queues-All is_blank cfg.queues) in
        inr (
          settings is_blank cpus cfg g l,
          rw (e, e', new_server_from_redis_client) refl,
          record {
            concurrency = if_not_positive_pos cpus cfg.concurrency some_cpu;
            task_check_interval = if_not_positive_pos second cfg.task_check_interval (omega arith);
            queues = qs.0;
            some_queue = qs.1;
            shutdown_timeout = if_zero_ne (8 * second) cfg.shutdown_timeout (omega arith);
            health_check_interval =
                if_zero_ne (15 * second) cfg.health_check_interval (omega arith);
            delayed_task_check_interval =
                if_zero_ne (5 * second) cfg.delayed_task_check_interval (omega arith);
            log_level = level;
            group_grace_period = long;
            janitor_interval = if_zero_ne (8 * second) cfg.janitor_interval (omega arith);
            janitor_batch_size = if_zero_ne 100 cfg.janitor_batch_size (omega arith);
          },
          normalize_total is_blank (or_default (valid_queues is_blank cfg.queues)) qs.0 qs.1,
        )
  ]
]
