-- ===== src/Broadcast/Thread.antt =====
-- The thread of a broadcast: the negotiation, and the heartbeats. What the other threads do to the
-- broadcast while it waits is a parameter, `meanwhile`, which is run after every call.
use libcaffeine.Base.{
  ℕ, zero, suc, ◌+◌, ltb, Bool, true, false, Option, none, some, List, if◌then◌else◌, ◌∷◌,
}
use libcaffeine.Base.Bytes.{Bytes}
use libcaffeine.Base.Outcome.{done, M, pure, diverge, fault, ◌>>=◌, ◌>>◌}
use libcaffeine.Api.{
  CaffResult, failure, broadcast_failed, disconnected, ConnectionQuality, good, poor, unknown,
}
use libcaffeine.Rest.Types.{
  ScreenshotData, HeartbeatResponse, EncoderSettings, EncoderInfoResponse, IceInfo,
}
use libcaffeine.Broadcast.State.{
  State, offline, starting, streaming, live, stopping, require_state, transition_state, fail,
  started, ScreenshotPromise, unset, broken, fulfilled, same_state,
}
use libcaffeine.Broadcast.Platform.{
  Platform, Run, ask, request, tell, get, modify, Awaited, timeout, ready, StartPayload,
}
use libcaffeine.Broadcast.Calls.{
  create_feed, Feed, answered, refused, update_feed, titled, with_title,
}
use libcaffeine.Broadcast.Targets.{Targets, targets, min_bitrate}

abbrev pub same_quality : ConnectionQuality → ConnectionQuality → Bool
same_quality good good = true
same_quality poor poor = true
same_quality unknown unknown = true
same_quality good _ = false
same_quality poor _ = false
same_quality unknown _ = false

-- In milliseconds.
abbrev pub heartbeat_interval : ℕ
heartbeat_interval = 5000

abbrev pub check_interval : ℕ
check_interval = 100

-- The longest wait for the screenshot, and for the subscription.
abbrev pub future_wait : ℕ
future_wait = 5000

abbrev pub max_failures : ℕ
max_failures = 5

module _ (p : Platform) (meanwhile : M (Run p) (Unit {0})) where
  abbrev pub Thread : Type 0 → Type 0
  Thread A = M (Run p) A

  -- A call, and what the other threads do during it.
  abbrev pub call : {A : Type 0} → Thread A → Thread A
  call m = m >>= λ a. meanwhile >> pure a

  abbrev pub report : CaffResult → Thread (Unit {0})
  report r = call (modify p (fail r))

  -- `if (!x) { failedCallback(r); return; }`
  abbrev pub or_report :
      {A : Type 0} → CaffResult → (A → Thread (Unit {0})) → Option A → Thread (Unit {0})
  or_report r next none = report r
  or_report r next (some a) = next a

  abbrev pub check : CaffResult → Thread (Unit {0}) → Bool → Thread (Unit {0})
  check r next true = next
  check r next false = report r

  -- `if (status == timeout) { failedCallback(r); return; }`
  abbrev pub in_time :
      {A : Type 0} → CaffResult → (A → Thread (Unit {0})) → Awaited A → Thread (Unit {0})
  in_time r next timeout = report r
  in_time r next (ready a) = next a

  abbrev pub transition : State → State → Thread Bool
  transition from to s =
      let r = transition_state from to s.broadcast in (done r.0, record s { broadcast = r.1 })

  -- `++failures`, and whether there are too many of them.
  abbrev pub give_up : ℕ → Bool
  give_up failures = ltb max_failures (failures + 1)

  -- A change of the quality goes to the feed.
  unfoldable pub update_quality : Thread (Unit {0}) → ConnectionQuality → Thread (Unit {0})
  update_quality next q =
      modify p (λ b. record b { connection_quality = q })
      >> (call (update_feed p) >>= check broadcast_failed next)

  -- A heartbeat that has been answered.
  unfoldable pub heartbeat_succeeded : Thread (Unit {0}) → HeartbeatResponse → Thread (Unit {0})
  heartbeat_succeeded next r = get p >>= λ b.
      if same_quality r.connection_quality b.connection_quality
      then next
      else update_quality next r.connection_quality

  unfoldable pub stop_stage : Thread (Unit {0})
  stop_stage = call (request p (p.stop_broadcast))

  -- What follows the loop.
  unfoldable pub after_heartbeats : Thread (Unit {0})
  unfolding stop_stage
  after_heartbeats = get p >>= λ b. if same_state b.state stopping then stop_stage else pure tt

  unfoldable pub heartbeat_failed : Thread (Unit {0}) → ℕ → Thread (Unit {0})
  heartbeat_failed next failures =
      if give_up failures then report disconnected >> after_heartbeats else next

  unfoldable pub one_heartbeat :
      (ℕ → Thread (Unit {0})) → ℕ → Option HeartbeatResponse → Thread (Unit {0})
  unfolding heartbeat_succeeded heartbeat_failed
  one_heartbeat next failures none = heartbeat_failed (next (failures + 1)) failures
  one_heartbeat next failures (some r) = heartbeat_succeeded (next 0) r

  -- The sleep between two rounds.
  abbrev pub pause : Thread (Unit {0})
  pause = call (tell p (p.sleep check_interval))

  -- The statistics and the heartbeat, with what follows an answer.
  unfoldable pub beat : (ℕ → Thread (Unit {0})) → ℕ → Bytes → Thread (Unit {0})
  beat next failures url =
      call (tell p (p.get_stats))
      >> (call (request p (p.heartbeat url)) >>= one_heartbeat next failures)

  -- One round of the loop, `next` being the rounds after it.
  unfoldable pub round : (ℕ → ℕ → Thread (Unit {0})) → ℕ → ℕ → Bytes → Thread (Unit {0})
  round next interval failures url =
      if ltb (interval + check_interval) heartbeat_interval
      then next (interval + check_interval) failures
      else beat (next 0) failures url

  -- The loop over the checks, with the milliseconds since the last heartbeat and the failures.
  unfoldable pub heartbeats : ℕ → ℕ → ℕ → Thread (Unit {0})
  heartbeats zero interval failures = diverge
  heartbeats (suc fuel) interval failures = get p >>= λ b.
      if same_state b.state live
      then round (λ interval failures. pause >> heartbeats fuel interval failures) interval failures
          b.stream_url
      else after_heartbeats

  unfoldable pub run_live : ℕ → Bool → Thread (Unit {0})
  unfolding stop_stage
  run_live fuel true = heartbeats fuel heartbeat_interval 0
  run_live fuel false = stop_stage

  -- From the change to `Live` on.
  unfoldable pub go_live : ℕ → Thread (Unit {0})
  go_live fuel = transition streaming live >>= run_live fuel

  -- The answer to `StartBroadcast`. `undefined` is the read through the null error pointer.
  unfoldable pub start_answer : Option StartPayload → Thread (Unit {0})
  start_answer none = report broadcast_failed
  start_answer (some payload) =
      if payload.has_error
      then report broadcast_failed
      else (if payload.live then pure tt else fault)

  unfoldable pub after_open : ℕ → Bool → Thread (Unit {0})
  unfolding titled
  after_open fuel false = report broadcast_failed
  after_open fuel true = with_title p (λ title.
      call (request p (p.start_broadcast title)) >>= λ payload.
      start_answer payload >> go_live fuel)

  -- The stage is set live once the subscription has opened.
  unfoldable pub set_stage_live : ℕ → Thread (Unit {0})
  set_stage_live fuel = get p >>= λ b. after_open fuel b.subscription_opened

  -- The wait for the subscription.
  unfoldable pub await_subscription : ℕ → Thread (Unit {0})
  await_subscription fuel = call (tell p (p.await_for future_wait)) >> set_stage_live fuel

  abbrev pub sent_screenshot : Option Bool → Option (Unit {0})
  sent_screenshot none = none
  sent_screenshot (some true) = some tt
  sent_screenshot (some false) = none

  -- `broadcastId.value()` throws where there is none, inside the `try`.
  unfoldable pub send_screenshot : ℕ → ScreenshotData → Option Bytes → Thread (Unit {0})
  send_screenshot fuel d none = report broadcast_failed
  send_screenshot fuel d (some id) = call (ask p (p.send_screenshot id d)) >>= λ r.
      or_report broadcast_failed (λ _. await_subscription fuel) (sent_screenshot r)

  unfoldable pub with_screenshot : ℕ → ScreenshotPromise → Thread (Unit {0})
  with_screenshot fuel unset = report broadcast_failed
  with_screenshot fuel broken = report broadcast_failed
  with_screenshot fuel (fulfilled d) = get p >>= λ b. send_screenshot fuel d b.broadcast_id

  -- The wait for the screenshot.
  unfoldable pub await_screenshot : ℕ → Thread (Unit {0})
  await_screenshot fuel =
      call (tell p (p.await_for future_wait))
      >> (get p >>= λ b. with_screenshot fuel b.screenshot_promise)

  unfoldable pub start_heartbeat : ℕ → Thread (Unit {0})
  start_heartbeat fuel =
      get p >>= λ b. if require_state streaming b then await_screenshot fuel else pure tt

  unfoldable pub run_streaming : ℕ → Bool → Thread (Unit {0})
  run_streaming fuel true =
      call (modify p (λ b. record b { calls = started ∷ b.calls })) >> start_heartbeat fuel
  run_streaming fuel false = pure tt

  -- The end of the negotiation.
  unfoldable pub go_streaming : ℕ → Thread (Unit {0})
  go_streaming fuel = transition starting streaming >>= run_streaming fuel

  unfoldable pub trickle_candidates : List IceInfo → Thread Bool
  trickle_candidates candidates =
      get p >>= λ b. call (request p (p.trickle candidates b.stream_url))

  unfoldable pub set_remote_description : ℕ → p.Description → Thread (Unit {0})
  set_remote_description fuel remote =
      call (ask p (p.set_remote remote)) >>= in_time failure (check failure (go_streaming fuel))

  -- From the SDP answer on.
  unfoldable pub negotiate_answer : ℕ → Feed → Thread (Unit {0})
  negotiate_answer fuel (refused r) = report r
  negotiate_answer fuel (answered sdp) =
      or_report failure
        (λ remote.
          call (ask p (p.await_candidates))
          >>= in_time failure (λ candidates.
            trickle_candidates candidates >>= check failure (set_remote_description fuel remote)))
        (p.parse_answer sdp)

  -- From the creation of the feed on.
  unfoldable pub negotiate_feed : ℕ → Bytes → Thread (Unit {0})
  negotiate_feed fuel sdp = call (create_feed p sdp) >>= negotiate_answer fuel

  unfoldable pub set_local_description : ℕ → ℕ → Targets → Bytes → p.Description → Thread (Unit {0})
  set_local_description fuel low t sdp description =
      call (ask p (p.set_local description))
      >>= in_time failure (
          check failure
            (call (tell p (p.set_sender_bitrates t.max_bitrate low)) >> negotiate_feed fuel sdp))

  unfoldable pub with_offer : ℕ → ℕ → Targets → p.Offer → Thread (Unit {0})
  with_offer fuel low t offer =
      check failure
        (or_report failure
          (λ sdp. or_report failure (set_local_description fuel low t sdp) (p.parse_offer sdp))
          (p.offer_to_string offer))
        (p.offer_type_is_offer offer)

  -- From the wait for the offer on.
  unfoldable pub create_offer : ℕ → ℕ → Targets → Thread (Unit {0})
  create_offer fuel low t =
      call (ask p (p.create_offer)) >>= in_time failure (or_report failure (with_offer fuel low t))

  -- `none` is an overflow of the lower bitrate, which is undefined.
  unfoldable pub with_bitrate : ℕ → Targets → Option ℕ → Thread (Unit {0})
  with_bitrate fuel t none = fault
  with_bitrate fuel t (some low) =
      call (tell p (p.set_up t.fps t.frame_width t.frame_height))
      >> (call (tell p (p.set_bitrates t.max_bitrate low)) >> create_offer fuel low t)

  -- The thread.
  unfoldable pub negotiate : ℕ → Targets → Thread (Unit {0})
  negotiate fuel t = with_bitrate fuel t (min_bitrate t.max_bitrate)

  unfoldable pub setting_of : Option EncoderInfoResponse → Option EncoderSettings
  setting_of none = none
  setting_of (some info) = some info.setting

  unfoldable pub with_encoder_info : ℕ → Option EncoderInfoResponse → Thread (Unit {0})
  unfolding setting_of
  with_encoder_info fuel info = negotiate fuel (targets (setting_of info))

  unfoldable pub ask_encoder_info : ℕ → Thread (Unit {0})
  ask_encoder_info fuel = call (request p (p.encoder_info)) >>= with_encoder_info fuel

  -- `start`, with the thread that it starts. It does not look at the result of its transition.
  unfoldable pub start : ℕ → Thread (Unit {0})
  start fuel = transition offline starting >>= λ _. ask_encoder_info fuel
