-- ===== src/Client/Options.antt =====
-- What composeOptions lets through (client.go).
use asynq.Common.{
  ℕ, ◌+◌, ◌≤◌, ◌≡◌, ◌⊎◌, inl, inr, refl, Bool, true, false, ◌||◌, List, [], ◌∷◌, arith, ltb,
  if◌then◌else◌,
}
use asynq.Client.{
  ClientOption, max_retry, queue, task_id, timeout, deadline, unique, process_at, process_in,
  retention, group, receiver_target, unexpected, Composed, ClientError, Result, error, value,
  second, default_queue_name, compose_one, compose_loop, compose_options,
}

-- An option that composeOptions refuses.
abbrev pub is_bad : (ℕ → Bool) → ClientOption → Bool
is_bad is_blank (queue q) = is_blank q
is_bad is_blank (task_id id) = is_blank id
is_bad is_blank (unique ttl) = ltb ttl second
is_bad is_blank (group g) = is_blank g
is_bad is_blank opt = false

abbrev pub any_bad : (ℕ → Bool) → List ClientOption → Bool
any_bad is_blank [] = false
any_bad is_blank (opt ∷ opts) = is_bad is_blank opt || any_bad is_blank opts

-- The last queue of some options, or one that is given.
abbrev pub last_queue : ℕ → List ClientOption → ℕ
last_queue q [] = q
last_queue q (queue q' ∷ opts) = last_queue q' opts
last_queue q (opt ∷ opts) = last_queue q opts

-- Options in order: a uniqueness lock is for a second at least, and no name is blank but that of no
-- group.
pub record IsValid (is_blank : ℕ → Bool) (opt : Composed) : Type 0 where
  pub ttl : (opt.unique_ttl ≡ 0) ⊎ (second ≤ opt.unique_ttl)
  pub queue_named : is_blank opt.queue ≡ false
  pub id_named : is_blank opt.task_id ≡ false
  pub group_named : (opt.group ≡ 0) ⊎ (is_blank opt.group ≡ false)

-- Composing from some options on: an error exactly if an option is refused, or else valid options.
abbrev Outcome : (ℕ → Bool) → Bool → ℕ → Result Composed → Type 0
Outcome is_blank bad q (error e) = bad ≡ true
Outcome is_blank bad q (value opt) = (bad ≡ false) × (opt.queue ≡ q) × IsValid is_blank opt

-- An option with a test.
guarded :
    (is_blank : ℕ → Bool) (bad : Bool) (q : ℕ) (e : ClientError) (opt : Composed)
    → (bad ≡ false → (opt.queue ≡ q) × IsValid is_blank opt)
    → Outcome is_blank bad q (if bad then error e else value opt)
guarded is_blank true q e opt h = refl
guarded is_blank false q e opt h = let ok = h refl in (refl, ok.0, ok.1)

one_outcome :
    (is_blank : ℕ → Bool) (now : ℕ) (res : Composed) (opt : ClientOption)
    → IsValid is_blank res
    → Outcome is_blank
        (is_bad is_blank opt)
        (last_queue res.queue (opt ∷ []))
        (compose_one is_blank now res opt)
unfolding compose_one
one_outcome is_blank now res (max_retry n) v = ground (arith, v)
one_outcome is_blank now res (queue n) v = guarded is_blank _ _ _ _ (λ ok. ground (arith, v, ok))
one_outcome is_blank now res (task_id n) v = guarded is_blank _ _ _ _ (λ ok. ground (arith, v, ok))
one_outcome is_blank now res (timeout n) v = ground (arith, v)
one_outcome is_blank now res (deadline n) v = ground (arith, v)
one_outcome is_blank now res (unique n) v = guarded is_blank _ _ _ _ (λ ok. ground (arith, v, ok))
one_outcome is_blank now res (process_at n) v = ground (arith, v)
one_outcome is_blank now res (process_in n) v = ground (arith, v)
one_outcome is_blank now res (retention n) v = ground (arith, v)
one_outcome is_blank now res (group n) v = guarded is_blank _ _ _ _ (λ ok. ground (arith, v, ok))
one_outcome is_blank now res (receiver_target n) v = ground (arith, v)
one_outcome is_blank now res unexpected v = ground (arith, v)

pub last_queue-last_queue :
    (q : ℕ) (opt : ClientOption) (opts : List ClientOption)
    → last_queue (last_queue q (opt ∷ [])) opts ≡ last_queue q (opt ∷ opts)
last_queue-last_queue q (max_retry n) opts = refl
last_queue-last_queue q (queue n) opts = refl
last_queue-last_queue q (task_id n) opts = refl
last_queue-last_queue q (timeout n) opts = refl
last_queue-last_queue q (deadline n) opts = refl
last_queue-last_queue q (unique n) opts = refl
last_queue-last_queue q (process_at n) opts = refl
last_queue-last_queue q (process_in n) opts = refl
last_queue-last_queue q (retention n) opts = refl
last_queue-last_queue q (group n) opts = refl
last_queue-last_queue q (receiver_target n) opts = refl
last_queue-last_queue q unexpected opts = refl

module _ (is_blank : ℕ → Bool) (clock : ℕ → ℕ) where
  -- The options after the first, once it has been composed to r.
  next_outcome :
      (k q q' : ℕ) (bad bad' : Bool) (r : Result Composed) (opts : List ClientOption)
      → Outcome is_blank bad q r
      → ((res : Composed)
          → res.queue ≡ q
          → IsValid is_blank res
          → Outcome is_blank bad' q' (compose_loop is_blank clock k (value res) opts))
      → Outcome is_blank (bad || bad') q' (compose_loop is_blank clock k r opts)
  unfolding compose_loop
  next_outcome k q q' bad bad' (error e) opts o ih = rw o refl
  next_outcome k q q' bad bad' (value res) opts o ih = rw (o.0) (ih res o.1 o.2)

  loop_outcome :
      (k : ℕ) (res : Composed) (opts : List ClientOption)
      → IsValid is_blank res
      → Outcome is_blank
          (any_bad is_blank opts)
          (last_queue res.queue opts)
          (compose_loop is_blank clock k (value res) opts)
  unfolding compose_loop
  loop_outcome k res [] v = (refl, refl, v)
  loop_outcome k res (opt ∷ opts) v =
      next_outcome (k + 1) (last_queue res.queue (opt ∷ [])) (last_queue res.queue (opt ∷ opts))
        (is_bad is_blank opt) (any_bad is_blank opts) (compose_one is_blank (clock k) res opt) opts
        (one_outcome is_blank (clock k) res opt v)
        (λ res' e v'.
          rw (← last_queue-last_queue res.queue opt opts, ← e) (loop_outcome (k + 1) res' opts v'))

  read_off :
      (bad : Bool) (q : ℕ) (r : Result Composed)
      → Outcome is_blank bad q r
      → ((e : ClientError) × (r ≡ error e) × (bad ≡ true))
        ⊎ ((opt : Composed) × (r ≡ value opt)
            × (bad ≡ false)
            × (opt.queue ≡ q)
            × IsValid is_blank opt)
  read_off bad q (error e) o = inl (e, refl, o)
  read_off bad q (value opt) o = inr (opt, refl, o.0, o.1, o.2)

  -- composeOptions fails exactly if it is given a blank queue, task id or group, or a uniqueness lock
  -- of less than a second. Otherwise the queue is the last that is given, or the default, the lock is
  -- none or for a second at least, and no name is blank; the name of the default queue and the new
  -- id must not be blank.
  pub compose_options_lem :
      (uuid : ℕ) (opts : List ClientOption)
      → is_blank default_queue_name ≡ false
      → is_blank uuid ≡ false
      → ((e : ClientError) × (compose_options is_blank clock uuid opts ≡ error e)
          × (any_bad is_blank opts ≡ true))
        ⊎ ((opt : Composed) × (compose_options is_blank clock uuid opts ≡ value opt)
            × (any_bad is_blank opts ≡ false)
            × (opt.queue ≡ last_queue default_queue_name opts)
            × IsValid is_blank opt)
  unfolding compose_options
  compose_options_lem uuid opts named new =
      read_off (any_bad is_blank opts) (last_queue default_queue_name opts) _ (
        loop_outcome 1 _ opts
          (record { ttl = inl refl; queue_named = named; id_named = new; group_named = inl refl }))
