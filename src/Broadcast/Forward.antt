-- ===== src/Broadcast/Forward.antt =====
-- The states that a broadcast goes through: the steps that its thread is made of.
pub mod Live
pub mod Negotiation
use libcaffeine.Base.{
  ℕ, zero, suc, ◌≤◌, ◌+◌, ◌≡◌, arith, ltb, Bool, true, false, Option, none, some, ◌∷◌, List,
  if◌then◌else◌, Bool-cases, Option-cases, inl, inr,
}
use native.Mathlib.Nat.{le_trans, le_refl}
use libcaffeine.Base.Bytes.{Bytes}
use libcaffeine.Base.Outcome.{
  Outcome, done, thrown, unfinished, undefined, M, pure, fault, ◌>>=◌, ◌>>◌, continue,
}
use libcaffeine.Api.{CaffResult, failure, broadcast_failed, disconnected, ConnectionQuality}
use libcaffeine.Broadcast.State.{
  State, offline, starting, streaming, live, stopping, rank, transition_state, fail, same_state,
  ScreenshotPromise, unset, broken, fulfilled, require_state, started,
}
use libcaffeine.Broadcast.Platform.{
  Platform, Run, ask, request, tell, modify, Awaited, timeout, ready, StartPayload, AddFeedPayload,
  BroadcasterStream,
}
use libcaffeine.Broadcast.Calls.{
  with_stream, with_id, with_payload, offer_input, create_feed, Feed, answered, refused,
  update_feed, current_feed_input, went_through,
}
use libcaffeine.Rest.Types.{HeartbeatResponse, ScreenshotData, IceInfo}
use libcaffeine.Broadcast.Targets.{Targets, targets, min_bitrate}
use libcaffeine.Broadcast.Thread.{
  same_quality, heartbeat_interval, check_interval, call, report, or_report, check, in_time,
  transition, give_up, update_quality, heartbeat_succeeded, stop_stage, after_heartbeats,
  heartbeat_failed, one_heartbeat, pause, beat, round, heartbeats, go_live, start_answer,
  after_open, set_stage_live, await_subscription, sent_screenshot, with_screenshot, start_heartbeat,
  go_streaming, negotiate_answer, negotiate_feed, negotiate, start, setting_of, send_screenshot,
  await_screenshot, future_wait, trickle_candidates, set_remote_description, set_local_description,
  with_offer, create_offer, with_bitrate, run_live, run_streaming, with_encoder_info,
  ask_encoder_info,
}

module _ (p : Platform) where
  abbrev pub rank_of : Run p → ℕ
  rank_of s = rank s.broadcast.state

  -- A step that does not take the broadcast back to an earlier state.
  abbrev pub Forward {ℓ} : {A : Type ℓ} → M (Run p) A → Type 0
  Forward m = (s : Run p) → rank_of s ≤ rank_of (m s).1

  continue-le :
      {A B : Type 0} (f : A → M (Run p) B) (o : Outcome A) (s : Run p)
      → ((a : A) → Forward (f a))
      → rank_of s ≤ rank_of (continue f o s).1
  continue-le f (done a) s h = h a s
  continue-le f thrown s h = le_refl (rank_of s)
  continue-le f unfinished s h = le_refl (rank_of s)
  continue-le f undefined s h = le_refl (rank_of s)

  pub bind :
      {A B : Type 0} (m : M (Run p) A) (f : A → M (Run p) B)
      → Forward m
      → ((a : A) → Forward (f a))
      → Forward (m >>= f)
  bind m f h k s = le_trans (h s) (continue-le f (m s).0 (m s).1 k)

  pub still : {A : Type 0} (a : A) → Forward (pure a)
  still a s = le_refl (rank_of s)

  pub when :
      {A : Type 0} (b : Bool) (m n : M (Run p) A)
      → Forward m
      → Forward n
      → Forward (if b then m else n)
  when true m n h k = h
  when false m n h k = k

  same_state-eq : (a b : State) → same_state a b ≡ true → rank a ≡ rank b
  same_state-eq a b h = ground arith

  request_step : {A : Type 0} (f : p.World → Outcome A × p.World) → Forward (request p f)
  request_step f s = le_refl (rank_of s)

  pub update_feed-Forward : Forward (update_feed p)
  unfolding update_feed
  update_feed-Forward s =
      bind (request p (p.mutate_feed (current_feed_input s.broadcast))) (λ r. pure (went_through r))
        (request_step (p.mutate_feed (current_feed_input s.broadcast)))
        (λ r. still (went_through r)) s

  with_stream-Forward : (o : Option BroadcasterStream) → Forward (with_stream p o)
  unfolding with_stream
  with_stream-Forward none s = le_refl (rank_of s)
  with_stream-Forward (some stream) s = le_refl (rank_of s)

  with_id-Forward :
      (stream : Option BroadcasterStream) (o : Option Bytes) → Forward (with_id p stream o)
  unfolding with_id
  with_id-Forward stream none s = le_refl (rank_of s)
  with_id-Forward stream (some id) s =
      with_stream-Forward stream
        (record s { broadcast = record (s.broadcast) { broadcast_id = some id } })

  with_payload-Forward : (o : Option AddFeedPayload) → Forward (with_payload p o)
  unfolding with_payload
  with_payload-Forward none s = le_refl (rank_of s)
  with_payload-Forward (some payload) s = elim (Option-cases payload.error) [
    | inl e ↦ rw (e, with_payload) (with_id-Forward payload.stream payload.broadcast_id s)
    | inr (r, e) ↦ rw (e, with_payload) (le_refl (rank_of s))
  ]

  pub create_feed-Forward : (offer : Bytes) → Forward (create_feed p offer)
  unfolding create_feed
  create_feed-Forward offer s = elim (Bool-cases (require_state starting s.broadcast)) [
    | inl same ↦
        rw (same, create_feed)
          (bind (request p (p.add_feed (offer_input p offer s.broadcast))) (with_payload p)
            (λ s. le_refl (rank_of s)) with_payload-Forward s)
    | inr other ↦ rw (other, create_feed) (le_refl (rank_of s))
  ]

  module _ (meanwhile : M (Run p) (Unit {0})) (others : Forward meanwhile) where
    pub transition-Forward :
        (from to : State) → rank from ≤ rank to → Forward (transition p meanwhile from to)
    unfolding transition_state
    transition-Forward from to h s = elim (Bool-cases (same_state s.broadcast.state from)) [
      | inl same ↦ rw same (omega (arith, same_state-eq s.broadcast.state from same))
      | inr other ↦ rw other (le_refl (rank_of s))
    ]

    pub call-Forward : {A : Type 0} (m : M (Run p) A) → Forward m → Forward (call p meanwhile m)
    call-Forward m h = bind m _ h (λ a. bind meanwhile _ others (λ _. still a))

    pub report-Forward : (r : CaffResult) → Forward (report p meanwhile r)
    unfolding fail
    report-Forward r = call-Forward (modify p (fail r)) (λ s. le_refl (rank_of s))

    pub or_report-Forward :
        {A : Type 0} (r : CaffResult) (next : A → M (Run p) (Unit {0})) (o : Option A)
        → ((a : A) → Forward (next a))
        → Forward (or_report p meanwhile r next o)
    or_report-Forward r next none h = report-Forward r
    or_report-Forward r next (some a) h = h a

    pub check-Forward :
        (r : CaffResult) (next : M (Run p) (Unit {0})) (b : Bool)
        → Forward next
        → Forward (check p meanwhile r next b)
    check-Forward r next true h = h
    check-Forward r next false h = report-Forward r

    pub in_time-Forward :
        {A : Type 0} (r : CaffResult) (next : A → M (Run p) (Unit {0})) (o : Awaited A)
        → ((a : A) → Forward (next a))
        → Forward (in_time p meanwhile r next o)
    in_time-Forward r next timeout h = report-Forward r
    in_time-Forward r next (ready a) h = h a

    pub tell-Forward : (f : p.World → p.World) → Forward (call p meanwhile (tell p f))
    tell-Forward f = call-Forward (tell p f) (λ s. le_refl (rank_of s))

    pub ask-Forward :
        {A : Type 0} (f : p.World → A × p.World) → Forward (call p meanwhile (ask p f))
    ask-Forward f = call-Forward (ask p f) (λ s. le_refl (rank_of s))

    pub request-Forward :
        {A : Type 0} (f : p.World → Outcome A × p.World) → Forward (call p meanwhile (request p f))
    request-Forward f = call-Forward (request p f) (request_step f)
