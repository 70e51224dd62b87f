-- ===== src/Broadcast/Forward/Live.antt =====
-- The states that `startHeartbeat` goes through.
use libcaffeine.Base.{ℕ, zero, suc, ◌+◌, arith, ltb, Bool, true, false, Option, none, some}
use native.Mathlib.Nat.{le_refl}
use libcaffeine.Base.Bytes.{Bytes}
use libcaffeine.Base.Outcome.{M, pure, fault, ◌>>=◌, ◌>>◌}
use libcaffeine.Api.{broadcast_failed, disconnected, ConnectionQuality}
use libcaffeine.Broadcast.State.{
  streaming, live, stopping, same_state, ScreenshotPromise, unset, broken, fulfilled, require_state,
}
use libcaffeine.Broadcast.Platform.{Platform, Run, ask, request, tell, modify, StartPayload}
use libcaffeine.Broadcast.Calls.{update_feed, full_title, titled}
use libcaffeine.Rest.Types.{HeartbeatResponse, ScreenshotData}
use libcaffeine.Broadcast.Thread.{
  same_quality, heartbeat_interval, check_interval, call, report, check, transition, give_up,
  update_quality, heartbeat_succeeded, stop_stage, after_heartbeats, heartbeat_failed,
  one_heartbeat, pause, beat, round, heartbeats, go_live, start_answer, after_open, set_stage_live,
  await_subscription, sent_screenshot, with_screenshot, start_heartbeat, send_screenshot,
  await_screenshot, future_wait, run_live,
}
use libcaffeine.Broadcast.Forward.{
  Forward, rank_of, bind, still, when, update_feed-Forward, transition-Forward, call-Forward,
  report-Forward, or_report-Forward, check-Forward, tell-Forward, ask-Forward, request-Forward,
}

module _ (p : Platform) (meanwhile : M (Run p) (Unit {0})) (others : Forward p meanwhile) where
  after_heartbeats-Forward : Forward p (after_heartbeats p meanwhile)
  unfolding after_heartbeats stop_stage
  after_heartbeats-Forward s =
      when p (same_state s.broadcast.state stopping) _ _
        (request-Forward p meanwhile others p.stop_broadcast) (still p tt) s

  update_quality-Forward :
      (next : M (Run p) (Unit {0})) (q : ConnectionQuality)
      → Forward p next
      → Forward p (update_quality p meanwhile next q)
  unfolding update_quality
  update_quality-Forward next q h =
      bind p (modify p (λ b. record b { connection_quality = q }))
        (λ _. call p meanwhile (update_feed p) >>= check p meanwhile broadcast_failed next)
        (λ s. le_refl (rank_of p s))
        (λ _.
          bind p (call p meanwhile (update_feed p)) (check p meanwhile broadcast_failed next)
            (call-Forward p meanwhile others (update_feed p) (update_feed-Forward p))
            (λ ok. check-Forward p meanwhile others broadcast_failed next ok h))

  one_heartbeat-Forward :
      (next : ℕ → M (Run p) (Unit {0})) (failures : ℕ) (o : Option HeartbeatResponse)
      → ((n : ℕ) → Forward p (next n))
      → Forward p (one_heartbeat p meanwhile next failures o)
  unfolding one_heartbeat heartbeat_succeeded heartbeat_failed
  one_heartbeat-Forward next failures none h s =
      when p (give_up p meanwhile failures) _ _
        (bind p (report p meanwhile disconnected) _ (report-Forward p meanwhile others disconnected)
          (λ _. after_heartbeats-Forward))
        (h (failures + 1)) s
  one_heartbeat-Forward next failures (some r) h s =
      when p (same_quality r.connection_quality s.broadcast.connection_quality) (next 0)
        (update_quality p meanwhile (next 0) r.connection_quality) (h 0)
        (update_quality-Forward (next 0) r.connection_quality (h 0)) s

  round-Forward :
      (next : ℕ → ℕ → M (Run p) (Unit {0})) (interval failures : ℕ) (url : Bytes)
      → ((i n : ℕ) → Forward p (next i n))
      → Forward p (round p meanwhile next interval failures url)
  unfolding round beat
  round-Forward next interval failures url h =
      when p (ltb (interval + check_interval) heartbeat_interval)
        (next (interval + check_interval) failures) _ (h (interval + check_interval) failures)
        (bind p (call p meanwhile (tell p p.get_stats)) _
          (tell-Forward p meanwhile others p.get_stats)
          (λ _.
            bind p (call p meanwhile (request p (p.heartbeat url))) _
              (request-Forward p meanwhile others (p.heartbeat url))
              (λ r. one_heartbeat-Forward (next 0) failures r (h 0))))

  heartbeats-Forward :
      (fuel interval failures : ℕ) → Forward p (heartbeats p meanwhile fuel interval failures)
  unfolding heartbeats
  heartbeats-Forward zero interval failures s = le_refl (rank_of p s)
  heartbeats-Forward (suc fuel) interval failures s =
      when p (same_state s.broadcast.state live)
        (round p meanwhile (λ i n. pause p meanwhile >> heartbeats p meanwhile fuel i n) interval
          failures s.broadcast.stream_url)
        (after_heartbeats p meanwhile)
        (round-Forward (λ i n. pause p meanwhile >> heartbeats p meanwhile fuel i n) interval
          failures s.broadcast.stream_url
          (λ i n.
            bind p (pause p meanwhile) (λ _. heartbeats p meanwhile fuel i n)
              (tell-Forward p meanwhile others (p.sleep check_interval))
              (λ _. heartbeats-Forward fuel i n)))
        after_heartbeats-Forward s

  run_live-Forward : (fuel : ℕ) (ok : Bool) → Forward p (run_live p meanwhile fuel ok)
  unfolding run_live stop_stage
  run_live-Forward fuel true s = heartbeats-Forward fuel heartbeat_interval 0 s
  run_live-Forward fuel false s = request-Forward p meanwhile others p.stop_broadcast s

  go_live-Forward : (fuel : ℕ) → Forward p (go_live p meanwhile fuel)
  unfolding go_live
  go_live-Forward fuel =
      bind p (transition p meanwhile streaming live) (run_live p meanwhile fuel)
        (transition-Forward p meanwhile others streaming live (omega arith)) (run_live-Forward fuel)

  start_answer-Forward : (o : Option StartPayload) → Forward p (start_answer p meanwhile o)
  unfolding start_answer
  start_answer-Forward none = report-Forward p meanwhile others broadcast_failed
  start_answer-Forward (some r) =
      when p r.has_error (report p meanwhile broadcast_failed) _
        (report-Forward p meanwhile others broadcast_failed)
        (when p r.live (pure tt) fault (still p tt) (λ s. le_refl (rank_of p s)))

  ask_start-Forward :
      (fuel : ℕ) (title : Bytes)
      → Forward p (
          call p meanwhile (request p (p.start_broadcast title)) >>= λ payload.
          start_answer p meanwhile payload >> go_live p meanwhile fuel)
  ask_start-Forward fuel title =
      bind p (call p meanwhile (request p (p.start_broadcast title))) _
        (request-Forward p meanwhile others (p.start_broadcast title))
        (λ r.
          bind p (start_answer p meanwhile r) _ (start_answer-Forward r)
            (λ _. go_live-Forward fuel))

  titled-Forward :
      (fuel : ℕ) (o : Option Bytes)
      → Forward p (
          titled p o (λ title. call p meanwhile (request p (p.start_broadcast title)) >>= λ payload.
          start_answer p meanwhile payload >> go_live p meanwhile fuel))
  unfolding titled
  titled-Forward fuel none s = le_refl (rank_of p s)
  titled-Forward fuel (some title) s = ask_start-Forward fuel title s

  after_open-Forward : (fuel : ℕ) (opened : Bool) → Forward p (after_open p meanwhile fuel opened)
  unfolding after_open
  after_open-Forward fuel true s = titled-Forward fuel (full_title s.broadcast) s
  after_open-Forward fuel false s = report-Forward p meanwhile others broadcast_failed s

  set_stage_live-Forward : (fuel : ℕ) → Forward p (set_stage_live p meanwhile fuel)
  unfolding set_stage_live
  set_stage_live-Forward fuel s = after_open-Forward fuel s.broadcast.subscription_opened s

  await_subscription-Forward : (fuel : ℕ) → Forward p (await_subscription p meanwhile fuel)
  unfolding await_subscription
  await_subscription-Forward fuel =
      bind p (call p meanwhile (tell p (p.await_for future_wait))) _
        (tell-Forward p meanwhile others (p.await_for future_wait))
        (λ _. set_stage_live-Forward fuel)

  send_screenshot-Forward :
      (fuel : ℕ) (d : ScreenshotData) (o : Option Bytes)
      → Forward p (send_screenshot p meanwhile fuel d o)
  unfolding send_screenshot
  send_screenshot-Forward fuel d none = report-Forward p meanwhile others broadcast_failed
  send_screenshot-Forward fuel d (some id) =
      bind p (call p meanwhile (ask p (p.send_screenshot id d))) _
        (ask-Forward p meanwhile others (p.send_screenshot id d))
        (λ r.
          or_report-Forward p meanwhile others broadcast_failed
            (λ _. await_subscription p meanwhile fuel) (sent_screenshot p meanwhile r)
            (λ _. await_subscription-Forward fuel))

  with_screenshot-Forward :
      (fuel : ℕ) (o : ScreenshotPromise) → Forward p (with_screenshot p meanwhile fuel o)
  unfolding with_screenshot
  with_screenshot-Forward fuel unset s = report-Forward p meanwhile others broadcast_failed s
  with_screenshot-Forward fuel broken s = report-Forward p meanwhile others broadcast_failed s
  with_screenshot-Forward fuel (fulfilled d) s =
      send_screenshot-Forward fuel d s.broadcast.broadcast_id s

  await_screenshot-Forward : (fuel : ℕ) → Forward p (await_screenshot p meanwhile fuel)
  unfolding await_screenshot
  await_screenshot-Forward fuel =
      bind p (call p meanwhile (tell p (p.await_for future_wait))) _
        (tell-Forward p meanwhile others (p.await_for future_wait))
        (λ _ s. with_screenshot-Forward fuel s.broadcast.screenshot_promise s)

  pub start_heartbeat-Forward : (fuel : ℕ) → Forward p (start_heartbeat p meanwhile fuel)
  unfolding start_heartbeat
  start_heartbeat-Forward fuel s =
      when p (require_state streaming s.broadcast) (await_screenshot p meanwhile fuel) (pure tt)
        (await_screenshot-Forward fuel) (still p tt) s
