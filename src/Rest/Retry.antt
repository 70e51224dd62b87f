-- ===== src/Rest/Retry.antt =====
-- `Retryable`, `backoffDuration` and `retryRequest` of src/RestApi.cpp.
pub mod Counts
pub mod Finish
use libcaffeine.Base.{ℕ, zero, suc, ◌+◌, ◌*◌, min, ltb, if◌then◌else◌, Bool, true, false}
use libcaffeine.Base.Outcome.{Outcome, done, M, pure, ◌>>=◌, ◌>>◌}

pub data Desire : Type 0 where
  retry_desired complete_desired : Desire

pub record Retryable (A : Type 0) : Type 0 where
  pub desire : Desire
  pub result : A

abbrev pub retry : {A : Type 0} → A → Retryable A
retry a = record { desire = retry_desired; result = a }

abbrev pub complete : {A : Type 0} → A → Retryable A
complete a = record { desire = complete_desired; result = a }

abbrev pub is_complete : {A : Type 0} → Retryable A → Bool
is_complete r = elim r.desire [ retry_desired ↦ false | complete_desired ↦ true ]

unfoldable pub backoff_duration : ℕ → ℕ
backoff_duration try_num = min (1 + 1 * try_num) 20

abbrev pub num_retries : ℕ
num_retries = 3

module _ {S A : Type 0} (sleep : ℕ → S → S) (request : M S (Retryable A)) where
  abbrev pub sleep_before : ℕ → M S (Unit {0})
  sleep_before try_num s =
      (done tt, if ltb 0 try_num then sleep (backoff_duration try_num) s else s)

  -- The loop, with the tries that are left and the number of the next one.
  unfoldable pub try_from : ℕ → ℕ → Retryable A → M S (Retryable A)
  try_from zero try_num last = pure last
  try_from (suc left) try_num last = do
    sleep_before try_num
    r ← request
    λ s. elim (is_complete r) [ true ↦ (done r, s) | false ↦ try_from left (try_num + 1) r s ]

  -- `start` is the default result, which a first try replaces.
  unfoldable pub retry_request : A → M S A
  unfolding try_from backoff_duration
  retry_request start = do r ← try_from num_retries 0 (retry start); pure r.result
