-- ===== src/Rest/Retry/Finish.antt =====
-- When a retried request finishes.
use libcaffeine.Base.{
  ℕ, zero, suc, ◌+◌, ◌≤◌, ◌≡◌, refl, arith, Bool, true, false, Option, none, some,
}
use native.Mathlib.Nat.{le_trans}
use libcaffeine.Base.Outcome.{
  Outcome, done, thrown, unfinished, undefined, M, pure, or_throw, ◌>>=◌, continue,
}
use libcaffeine.Rest.Retry.{
  Retryable, retry, retry_request, try_from, sleep_before, is_complete, num_retries,
  backoff_duration,
}

-- The call has come to an end, by a return or by an exception.
abbrev pub IsFinished {ℓ} : {A : Type ℓ} → Outcome A → Type 0
IsFinished (done a) = Unit {0}
IsFinished thrown = Unit {0}
IsFinished unfinished = ⊥
IsFinished undefined = ⊥

-- From `s` the call finishes and the measure does not grow.
abbrev pub Steady {ℓ κ} : {S : Type ℓ} {A : Type κ} → (S → ℕ) → M S A → S → Type 0
Steady b m s = IsFinished (m s).0 × (b (m s).1 ≤ b s)

module _ {S : Type 0} (b : S → ℕ) where
  pub continue-Steady :
      {A B : Type 0} (f : A → M S B) (o : Outcome A) (s : S)
      → IsFinished o
      → ((a : A) → o ≡ done a → Steady b (f a) s)
      → IsFinished (continue f o s).0 × (b (continue f o s).1 ≤ b s)
  continue-Steady f (done a) s h g = g a refl
  continue-Steady f thrown s h g = (tt, omega arith)
  continue-Steady f unfinished s h g = absurd h
  continue-Steady f undefined s h g = absurd h

  pub bind-Steady :
      {A B : Type 0} (m : M S A) (f : A → M S B) (s : S)
      → Steady b m s
      → ((a : A) (s' : S) → b s' ≤ b s → Steady b (f a) s')
      → Steady b (m >>= f) s
  bind-Steady m f s (fin, le) g =
      let h = continue-Steady f (m s).0 (m s).1 fin (λ a e. g a (m s).1 le) in
      (h.0, omega (arith, h.1))

  module _ {A : Type 0} (sleep : ℕ → S → S) (request : M S (Retryable A))
      (calm : (n : ℕ) (s : S) → b (sleep n s) ≤ b s) where
    sleep_before-le : (n : ℕ) (s : S) → b (sleep_before sleep request n s).1 ≤ b s
    sleep_before-le n s = ground (arith, calm (backoff_duration n) s)

    try_from-Steady :
        (limit left n : ℕ) (r : Retryable A) (s : S)
        → ((s : S) → b s ≤ limit → Steady b request s)
        → b s ≤ limit
        → Steady b (try_from sleep request left n r) s
    unfolding try_from
    try_from-Steady limit zero n r s h l = (tt, omega arith)
    try_from-Steady limit (suc left) n r s h l =
        let paused = (sleep_before sleep request n s).1 in
        let calmed = sleep_before-le n s in
        let rest =
          bind-Steady request
            (λ a s. elim (is_complete a) [
              | true ↦ (done a, s)
              | false ↦ try_from sleep request left (n + 1) a s
            ])
            paused (h paused (omega arith))
            (λ a s' k.
              by_desire a s' (is_complete a) (λ t. try_from-Steady limit left (n + 1) a t h)
                (omega arith)) in
        (rest.0, le_trans rest.1 calmed)
      where
        by_desire :
            (a : Retryable A) (s' : S) (d : Bool)
            → ((t : S) → b t ≤ limit → Steady b (try_from sleep request left (n + 1) a) t)
            → b s' ≤ limit
            → Steady b
                (λ s. elim d as (λ _. Outcome (Retryable A) × S) [
                  | true ↦ (done a, s)
                  | false ↦ try_from sleep request left (n + 1) a s
                ])
                s'
        by_desire a s' true more k = (tt, omega arith)
        by_desire a s' false more k = more s' k

    -- A retried request finishes where the request does, in every state of a measure up to `limit`.
    pub retry_request-Steady :
        (limit : ℕ) (start : A) (s : S)
        → ((s : S) → b s ≤ limit → Steady b request s)
        → b s ≤ limit
        → Steady b (retry_request sleep request start) s
    unfolding retry_request
    retry_request-Steady limit start s h l =
        bind-Steady (try_from sleep request num_retries 0 (retry start))
          (λ r s. (done (r.result), s)) s (try_from-Steady limit num_retries 0 (retry start) s h l)
          (λ a s' k. (tt, omega arith))

-- What is read out of an optional value, where the reading may throw, finishes at once.
pub read-Steady :
    {S A B : Type 0} (b : S → ℕ) (o : Option A) (f : A → B) (s : S)
    → Steady b (or_throw o >>= λ a. pure (f a)) s
read-Steady b none f s = (tt, omega arith)
read-Steady b (some a) f s = (tt, omega arith)
