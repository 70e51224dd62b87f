-- ===== src/Broadcast/Reconnect.antt =====
-- The ended handler of `setupSubscription` of src/Broadcast.cpp: whether the broadcast subscribes again.
use libcaffeine.Base.{
  ℕ, ◌+◌, Bool, Bool-cases, true, false, ◌&&◌, if◌then◌else◌, if_true, if_false, Option, none, some,
  ◌≡◌, refl, ap, ◌∙◌, inl, inr,
}
use libcaffeine.Base.Outcome.{done, M, pure, continue, ◌>>◌}
use libcaffeine.Rest.Retry.{backoff_duration}
use libcaffeine.Broadcast.State.{State, offline, starting, streaming, live, stopping}
use libcaffeine.Broadcast.Platform.{Platform, Run, tell}

-- `WebsocketClient::ConnectionEndType`.
pub data ConnectionEndType : Type 0 where
  closed failed : ConnectionEndType

unfoldable pub wants_subscription : State → Bool
wants_subscription offline = false
wants_subscription starting = true
wants_subscription streaming = true
wants_subscription live = true
wants_subscription stopping = false

-- `exists` says whether the weak pointer still leads to the broadcast, and `meanwhile` is what other
-- threads do during the wait.
module _ (p : Platform) (exists : p.World → Bool) (meanwhile : M (Run p) (Unit {0})) where
  unfoldable pub is_wanted : Run p → Bool
  unfolding wants_subscription
  is_wanted s = exists s.world && wants_subscription s.broadcast.state

  -- The number of the try with which `setupSubscription` is called, if it is.
  unfoldable pub try_again : ℕ → M (Run p) (Option ℕ)
  unfolding is_wanted
  try_again try_num s = if is_wanted s then (done (some try_num), s) else (done none, s)

  unfoldable pub after_end : ConnectionEndType → ℕ → M (Run p) (Option ℕ)
  unfolding try_again
  after_end closed try_num = pure (some 1)
  after_end failed try_num =
      tell p (p.sleep (backoff_duration try_num)) >> (meanwhile >> try_again (try_num + 1))

  unfoldable pub ended_handler : ConnectionEndType → ℕ → M (Run p) (Option ℕ)
  unfolding after_end
  ended_handler end try_num s = if is_wanted s then after_end end try_num s else (done none, s)

  -- The state behind the wait.
  abbrev waited : ℕ → Run p → Run p
  waited try_num s = (meanwhile (record s { world = p.sleep (backoff_duration try_num) s.world })).1

  -- How the end of the connection of a try is handled, from a state on.
  pub data Handles (s : Run p) : ConnectionEndType → ℕ → Option ℕ → Run p → Type 0 where
    at_once : {n : ℕ} → is_wanted s ≡ true → Handles s closed n (some 1) s
    after_wait :
        {n : ℕ}
        → is_wanted s ≡ true
        → is_wanted (waited n s) ≡ true
        → Handles s failed n (some (n + 1)) (waited n s)
    ended_before : {e : ConnectionEndType} {n : ℕ} → is_wanted s ≡ false → Handles s e n none s
    ended_meanwhile :
        {n : ℕ}
        → is_wanted s ≡ true
        → is_wanted (waited n s) ≡ false
        → Handles s failed n none (waited n s)

  module _ (returns : (s : Run p) → (meanwhile s).0 ≡ done tt) where
    abbrev pub Handled : ConnectionEndType → ℕ → Run p → Type 0
    Handled e n s =
        (o : Option ℕ) × (t : Run p) × (ended_handler e n s ≡ (done o, t)) × Handles s e n o t

    after_end-Handled :
        (e : ConnectionEndType) (n : ℕ) (s : Run p)
        → is_wanted s ≡ true
        → (o : Option ℕ) × (t : Run p) × (after_end e n s ≡ (done o, t)) × Handles s e n o t
    unfolding after_end try_again
    after_end-Handled closed n s w = (some 1, s, refl, at_once w)
    after_end-Handled failed n s w = elim (Bool-cases (is_wanted (waited n s))) [
      | inl k ↦
          (some (n + 1), waited n s, met ∙ if_true (is_wanted (waited n s)) _ _ k, after_wait w k)
      | inr k ↦
          (none, waited n s, met ∙ if_false (is_wanted (waited n s)) _ _ k, ended_meanwhile w k)
    ]
      where
        slept : Run p
        slept = record s { world = p.sleep (backoff_duration n) s.world }

        met : after_end failed n s ≡ try_again (n + 1) (waited n s)
        met = ap (λ o. continue (λ _. try_again (n + 1)) o (waited n s)) (returns slept)

    -- If what other threads do during the wait returns, then the handler of an ended connection
    -- returns. A closed one is set up again at once, as the first try, and a failed one after the wait
    -- for its try, as the next one, each if the broadcast exists and is starting, streaming or live,
    -- for a failed one both before and behind the wait; else it is not set up again.
    pub ended_handler-Handled : (e : ConnectionEndType) (n : ℕ) (s : Run p) → Handled e n s
    unfolding ended_handler
    ended_handler-Handled e n s = elim (Bool-cases (is_wanted s)) [
      | inl w ↦ go w (after_end-Handled e n s w)
      | inr w ↦ (none, s, if_false (is_wanted s) _ _ w, ended_before w)
    ]
      where
        go :
            is_wanted s ≡ true
            → (o : Option ℕ) × (t : Run p) × (after_end e n s ≡ (done o, t)) × Handles s e n o t
            → Handled e n s
        go w (o, t, eq, h) = (o, t, if_true (is_wanted s) _ _ w ∙ eq, h)
