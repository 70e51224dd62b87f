-- ===== src/Rest/Retry/Counts.antt =====
-- How often `retryRequest` asks, and how long it waits.
use libcaffeine.Base.{
  ℕ, ◌+◌, ◌≤◌, ◌<◌, ◌≡◌, refl, ap, ◌∙◌, arith, ◌⊎◌, inl, inr, Bool, true, false, Bool-cases, ltb,
  if◌then◌else◌, zero, suc,
}
use libcaffeine.Base.Outcome.{Outcome, done, thrown, unfinished, undefined, M, continue}
use libcaffeine.Rest.Retry.{
  Retryable, is_complete, retry, try_from, backoff_duration, retry_request,
}

-- Two counters on the state: a request adds one to `asked`, a sleep its seconds to `slept`.
pub record Meters {S A : Type 0} (sleep : ℕ → S → S) (request : M S (Retryable A)) : Type 0 where
  pub asked : S → ℕ
  pub slept : S → ℕ
  pub asked_request : (s : S) → asked (request s).1 ≡ asked s + 1
  pub slept_request : (s : S) → slept (request s).1 ≡ slept s
  pub asked_sleep : (n : ℕ) (s : S) → asked (sleep n s) ≡ asked s
  pub slept_sleep : (n : ℕ) (s : S) → slept (sleep n s) ≡ slept s + n

-- One request and no wait, two with two seconds between them, or three with five.
abbrev pub Tries : ℕ → ℕ → Type 0
Tries asked slept =
    ((asked ≡ 1) × (slept ≡ 0)) ⊎ (((asked ≡ 2) × (slept ≡ 2)) ⊎ ((asked ≡ 3) × (slept ≡ 5)))

module _ {S A : Type 0} (sleep : ℕ → S → S) (request : M S (Retryable A)) where
  -- What follows a request: the loop goes on only where the request asks for it.
  abbrev next : ℕ → ℕ → Retryable A → M S (Retryable A)
  next left n r s = elim (is_complete r) [
    | true ↦ (done r, s)
    | false ↦ try_from sleep request left n r s
  ]

  pause : ℕ → S → S
  pause n s = if ltb 0 n then sleep (backoff_duration n) s else s

  try_from-suc :
      (left n : ℕ) (r : Retryable A) (s : S)
      → try_from sleep request (suc left) n r s
        ≡ continue (next left (n + 1)) (request (pause n s)).0 (request (pause n s)).1
  unfolding try_from pause
  try_from-suc left n r s = refl

  -- The request, made in the state `from`, has answered `r`.
  abbrev pub Answers : S → Retryable A → S → Type 0
  Answers from r s' = ((request from).0 ≡ done r) × ((request from).1 ≡ s')

  -- One step of the search for the last answer, `more` being the search in the tries left.
  last_answer :
      (left n : ℕ) (from : S) (o : Outcome (Retryable A)) {r' : Retryable A} {s' : S}
      → ((r : Retryable A) (s : S)
          → try_from sleep request left n r s ≡ (done r', s')
          → ((r ≡ r') × (s ≡ s')) ⊎ ((from : S) × Answers from r' s'))
      → (request from).0 ≡ o
      → continue (next left n) o (request from).1 ≡ (done r', s')
      → (from : S) × Answers from r' s'
  last_answer left n from thrown more e h = cc
  last_answer left n from unfinished more e h = cc
  last_answer left n from undefined more e h = cc
  last_answer left n from (done r) more e h = elim (Bool-cases (is_complete r)) [
    | inl stop ↦ (from, (e ∙ ground (arith, stop), ground (arith, stop)))
    | inr go ↦ elim (more r (request from).1 (ground (arith, go))) [
      | inl (p, q) ↦ (from, (e ∙ ap done p, q))
      | inr found ↦ found
    ]
  ]

  try_from-answer :
      (left n : ℕ) (r : Retryable A) (s : S) {r' : Retryable A} {s' : S}
      → try_from sleep request left n r s ≡ (done r', s')
      → ((r ≡ r') × (s ≡ s')) ⊎ ((from : S) × Answers from r' s')
  unfolding try_from pause
  try_from-answer zero n r s h = inl (ground arith, ground arith)
  try_from-answer (suc left) n r s h = inr (
      last_answer left (n + 1) (pause n s) (request (pause n s)).0
        (λ r s. try_from-answer left (n + 1) r s) refl h)

  try_from-suc-answer :
      (left n : ℕ) (r : Retryable A) (s : S) {r' : Retryable A} {s' : S}
      → try_from sleep request (suc left) n r s ≡ (done r', s')
      → (from : S) × Answers from r' s'
  unfolding try_from pause
  try_from-suc-answer left n r s h =
      last_answer left (n + 1) (pause n s) (request (pause n s)).0
        (λ r s. try_from-answer left (n + 1) r s) refl h

  -- If a retried request returns a value, then that is an answer that the request gave when it was
  -- made in some state, and the state afterwards is the one that it left then.
  pub retry_request-answer :
      (start : A) (s : S) {a : A} {s' : S}
      → retry_request sleep request start s ≡ (done a, s')
      → (from : S) × (r : Retryable A) × Answers from r s' × (r.result ≡ a)
  unfolding retry_request
  retry_request-answer start s {a} {s'} h =
      finish (try_from sleep request 3 0 (retry start) s) refl h
    where
      finish :
          (o : Outcome (Retryable A) × S)
          → try_from sleep request 3 0 (retry start) s ≡ o
          → continue (λ r s. (done (r.result), s)) o.0 o.1 ≡ (done a, s')
          → (from : S) × (r : Retryable A) × Answers from r s' × (r.result ≡ a)
      finish (thrown, t) e f = cc
      finish (unfinished, t) e f = cc
      finish (undefined, t) e f = cc
      finish (done r, t) e f =
          let (from, g) = try_from-suc-answer 2 0 (retry start) s e in
          (from, r, (g.0, g.1 ∙ ground arith), ground arith)

-- The seconds that are waited before `k` tries from number `n` on.
waits : ℕ → ℕ → ℕ
waits n zero = 0
waits n (suc k) = (if ltb 0 n then backoff_duration n else 0) + waits (n + 1) k

Tries-waits : (k : ℕ) → 0 < k → k ≤ 3 → Tries k (waits 0 k)
unfolding waits backoff_duration
Tries-waits zero h l = absurd (omega arith)
Tries-waits (suc zero) h l = inl (refl, refl)
Tries-waits (suc (suc zero)) h l = inr (inl (refl, refl))
Tries-waits (suc (suc (suc zero))) h l = inr (inr (refl, refl))
Tries-waits (suc (suc (suc (suc k)))) h l = absurd (omega arith)

module _ {S A : Type 0} (sleep : ℕ → S → S) (request : M S (Retryable A))
    (m : Meters sleep request) where
  open m use {asked, slept, asked_request, slept_request, asked_sleep, slept_sleep}

  -- After at most `left` further tries, the first of them number `n`.
  abbrev Counted : ℕ → ℕ → S → S → Type 0
  Counted left n s s' =
      (k : ℕ) × (k ≤ left) × (asked s' ≡ asked s + k) × (slept s' ≡ slept s + waits n k)

  pause-meters :
      (n : ℕ) (s : S)
      → let t = pause sleep request n s in
        (asked t ≡ asked s) × (slept t ≡ slept s + (if ltb 0 n then backoff_duration n else 0))
  unfolding pause
  pause-meters n s =
      ground (arith, asked_sleep (backoff_duration n) s, slept_sleep (backoff_duration n) s)

  one_more :
      (left n : ℕ) (s s' : S)
      → Counted left (n + 1) (request (pause sleep request n s)).1 s'
      → (k : ℕ) × (0 < k)
        × (k ≤ suc left)
        × (asked s' ≡ asked s + k)
        × (slept s' ≡ slept s + waits n k)
  unfolding waits
  one_more left n s s' (k, le, a, w) = (
    suc k,
    omega arith,
    omega arith,
    omega (arith, pause-meters n s, asked_request (pause sleep request n s)),
    omega (arith, pause-meters n s, slept_request (pause sleep request n s)),
  )

  next-Counted :
      (left n : ℕ) (from : S) (o : Outcome (Retryable A))
      → ((r : Retryable A) (s : S) → Counted left n s (try_from sleep request left n r s).1)
      → Counted left n from (continue (next sleep request left n) o from).1
  unfolding waits
  next-Counted left n from thrown more = (0, omega arith, omega arith, omega arith)
  next-Counted left n from unfinished more = (0, omega arith, omega arith, omega arith)
  next-Counted left n from undefined more = (0, omega arith, omega arith, omega arith)
  next-Counted left n from (done r) more = by_desire (is_complete r)
    where
      by_desire :
          (b : Bool)
          → Counted left n from
              (elim b as (λ _. Outcome (Retryable A) × S) [
                | true ↦ (done r, from)
                | false ↦ try_from sleep request left n r from
              ]).1
      by_desire true = (0, omega arith, omega arith, omega arith)
      by_desire false = more r from

  first_Counted :
      (left n : ℕ) (r : Retryable A) (s : S)
      → ((r : Retryable A) (s : S)
          → Counted left (n + 1) s (try_from sleep request left (n + 1) r s).1)
      → let s' = (try_from sleep request (suc left) n r s).1 in
        (k : ℕ) × (0 < k)
        × (k ≤ suc left)
        × (asked s' ≡ asked s + k)
        × (slept s' ≡ slept s + waits n k)
  first_Counted left n r s more = rw (try_from-suc sleep request left n r s) (
      one_more left n s _ (
        next-Counted left (n + 1) (request (pause sleep request n s)).1
          (request (pause sleep request n s)).0 more))

  try_from-Counted :
      (left n : ℕ) (r : Retryable A) (s : S)
      → Counted left n s (try_from sleep request left n r s).1
  unfolding try_from waits
  try_from-Counted zero n r s = (0, omega arith, omega arith, omega arith)
  try_from-Counted (suc left) n r s =
      let (k, pos, le, a, w) =
        first_Counted left n r s (λ r s. try_from-Counted left (n + 1) r s) in
      (k, le, a, w)

  result_state :
      (o : Outcome (Retryable A) × S)
      → (continue {B = A} (λ r s. (done (r.result), s)) o.0 o.1).1 ≡ o.1
  result_state (done r, t) = refl
  result_state (thrown, t) = refl
  result_state (unfinished, t) = refl
  result_state (undefined, t) = refl

  -- For a request that a counter counts and that does not sleep itself, and whatever it answers or
  -- throws: a retried request is made once, twice or three times, and in all it sleeps for no, two
  -- or five seconds respectively.
  pub retry_request-Tries :
      (start : A) (s : S)
      → let s' = (retry_request sleep request start s).1 in
        (k w : ℕ) × Tries k w × (asked s' ≡ asked s + k) × (slept s' ≡ slept s + w)
  unfolding retry_request
  retry_request-Tries start s =
      let (k, pos, le, a, w) =
        first_Counted 2 0 (retry start) s (λ r s. try_from-Counted 2 (0 + 1) r s) in
      let same = result_state (try_from sleep request 3 0 (retry start) s) in
      (k, waits 0 k, Tries-waits k pos le, ap asked same ∙ a, ap slept same ∙ w)
