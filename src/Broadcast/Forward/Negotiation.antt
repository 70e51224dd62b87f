-- ===== src/Broadcast/Forward/Negotiation.antt =====
-- The states that `start` and its thread go through.
use libcaffeine.Base.{ℕ, arith, Bool, true, false, Option, none, some, ◌∷◌, List}
use native.Mathlib.Nat.{le_refl}
use libcaffeine.Base.Bytes.{Bytes}
use libcaffeine.Base.Outcome.{M, ◌>>◌}
use libcaffeine.Api.{failure}
use libcaffeine.Broadcast.State.{offline, starting, streaming, started}
use libcaffeine.Broadcast.Platform.{Platform, Run, ask, request, tell, modify}
use libcaffeine.Broadcast.Calls.{create_feed, Feed, answered, refused}
use libcaffeine.Rest.Types.{IceInfo}
use libcaffeine.Broadcast.Targets.{Targets, targets, min_bitrate}
use libcaffeine.Broadcast.Thread.{
  call, transition, start_heartbeat, go_streaming, negotiate_answer, negotiate_feed, negotiate,
  start, setting_of, trickle_candidates, set_remote_description, set_local_description, with_offer,
  create_offer, with_bitrate, run_streaming, with_encoder_info, ask_encoder_info,
}
use libcaffeine.Broadcast.Forward.{
  Forward, rank_of, bind, create_feed-Forward, transition-Forward, call-Forward, report-Forward,
  or_report-Forward, check-Forward, in_time-Forward, tell-Forward, ask-Forward, request-Forward,
}
use libcaffeine.Broadcast.Forward.Live.{start_heartbeat-Forward}

module _ (p : Platform) (meanwhile : M (Run p) (Unit {0})) (others : Forward p meanwhile) where
  run_streaming-Forward : (fuel : ℕ) (ok : Bool) → Forward p (run_streaming p meanwhile fuel ok)
  unfolding run_streaming
  run_streaming-Forward fuel true s =
      bind p (call p meanwhile (modify p (λ b. record b { calls = started ∷ b.calls })))
        (λ _. start_heartbeat p meanwhile fuel)
        (call-Forward p meanwhile others (modify p (λ b. record b { calls = started ∷ b.calls }))
          (λ s. le_refl (rank_of p s)))
        (λ _. start_heartbeat-Forward p meanwhile others fuel) s
  run_streaming-Forward fuel false s = le_refl (rank_of p s)

  go_streaming-Forward : (fuel : ℕ) → Forward p (go_streaming p meanwhile fuel)
  unfolding go_streaming
  go_streaming-Forward fuel =
      bind p (transition p meanwhile starting streaming) (run_streaming p meanwhile fuel)
        (transition-Forward p meanwhile others starting streaming (omega arith))
        (run_streaming-Forward fuel)

  trickle-Forward :
      (candidates : List IceInfo) → Forward p (trickle_candidates p meanwhile candidates)
  unfolding trickle_candidates
  trickle-Forward candidates s =
      request-Forward p meanwhile others (p.trickle candidates s.broadcast.stream_url) s

  set_remote-Forward :
      (fuel : ℕ) (remote : p.Description)
      → Forward p (set_remote_description p meanwhile fuel remote)
  unfolding set_remote_description
  set_remote-Forward fuel remote =
      bind p (call p meanwhile (ask p (p.set_remote remote))) _
        (ask-Forward p meanwhile others (p.set_remote remote))
        (λ r. in_time-Forward p meanwhile others failure _ r (λ ok.
          check-Forward p meanwhile others failure (go_streaming p meanwhile fuel) ok
            (go_streaming-Forward fuel)))

  negotiate_answer-Forward : (fuel : ℕ) (f : Feed) → Forward p (negotiate_answer p meanwhile fuel f)
  unfolding negotiate_answer
  negotiate_answer-Forward fuel (refused r) = report-Forward p meanwhile others r
  negotiate_answer-Forward fuel (answered sdp) =
      or_report-Forward p meanwhile others failure _ (p.parse_answer sdp) (λ remote.
        bind p (call p meanwhile (ask p p.await_candidates)) _
          (ask-Forward p meanwhile others p.await_candidates)
          (λ r. in_time-Forward p meanwhile others failure _ r (λ candidates.
            bind p (trickle_candidates p meanwhile candidates) _ (trickle-Forward candidates) (λ ok.
              check-Forward p meanwhile others failure _ ok (set_remote-Forward fuel remote)))))

  negotiate_feed-Forward :
      (fuel : ℕ) (sdp : Bytes) → Forward p (negotiate_feed p meanwhile fuel sdp)
  unfolding negotiate_feed
  negotiate_feed-Forward fuel sdp =
      bind p (call p meanwhile (create_feed p sdp)) _
        (call-Forward p meanwhile others (create_feed p sdp) (create_feed-Forward p sdp))
        (negotiate_answer-Forward fuel)

  set_local-Forward :
      (fuel low : ℕ) (t : Targets) (sdp : Bytes) (d : p.Description)
      → Forward p (set_local_description p meanwhile fuel low t sdp d)
  unfolding set_local_description
  set_local-Forward fuel low t sdp d =
      bind p (call p meanwhile (ask p (p.set_local d))) _
        (ask-Forward p meanwhile others (p.set_local d))
        (λ r. in_time-Forward p meanwhile others failure _ r (λ ok.
          check-Forward p meanwhile others failure _ ok (
            bind p (call p meanwhile (tell p (p.set_sender_bitrates t.max_bitrate low))) _
              (tell-Forward p meanwhile others (p.set_sender_bitrates t.max_bitrate low))
              (λ _. negotiate_feed-Forward fuel sdp))))

  with_offer-Forward :
      (fuel low : ℕ) (t : Targets) (offer : p.Offer)
      → Forward p (with_offer p meanwhile fuel low t offer)
  unfolding with_offer
  with_offer-Forward fuel low t offer =
      check-Forward p meanwhile others failure _ (p.offer_type_is_offer offer) (
        or_report-Forward p meanwhile others failure _ (p.offer_to_string offer) (λ sdp.
          or_report-Forward p meanwhile others failure _ (p.parse_offer sdp)
            (set_local-Forward fuel low t sdp)))

  create_offer-Forward :
      (fuel low : ℕ) (t : Targets) → Forward p (create_offer p meanwhile fuel low t)
  unfolding create_offer
  create_offer-Forward fuel low t =
      bind p (call p meanwhile (ask p p.create_offer)) _
        (ask-Forward p meanwhile others p.create_offer)
        (λ r. in_time-Forward p meanwhile others failure _ r (λ o.
          or_report-Forward p meanwhile others failure (with_offer p meanwhile fuel low t) o
            (with_offer-Forward fuel low t)))

  with_bitrate-Forward :
      (fuel : ℕ) (t : Targets) (o : Option ℕ) → Forward p (with_bitrate p meanwhile fuel t o)
  unfolding with_bitrate
  with_bitrate-Forward fuel t none s = le_refl (rank_of p s)
  with_bitrate-Forward fuel t (some low) s =
      bind p (call p meanwhile (tell p (p.set_up t.fps t.frame_width t.frame_height)))
        (λ _.
          call p meanwhile (tell p (p.set_bitrates t.max_bitrate low))
          >> create_offer p meanwhile fuel low t)
        (tell-Forward p meanwhile others (p.set_up t.fps t.frame_width t.frame_height))
        (λ _.
          bind p (call p meanwhile (tell p (p.set_bitrates t.max_bitrate low)))
            (λ _. create_offer p meanwhile fuel low t)
            (tell-Forward p meanwhile others (p.set_bitrates t.max_bitrate low))
            (λ _. create_offer-Forward fuel low t))
        s

  ask_encoder_info-Forward : (fuel : ℕ) → Forward p (ask_encoder_info p meanwhile fuel)
  unfolding ask_encoder_info with_encoder_info negotiate
  ask_encoder_info-Forward fuel =
      bind p (call p meanwhile (request p p.encoder_info)) (with_encoder_info p meanwhile fuel)
        (request-Forward p meanwhile others p.encoder_info)
        (λ info.
          with_bitrate-Forward fuel (targets (setting_of p meanwhile info))
            (min_bitrate (targets (setting_of p meanwhile info)).max_bitrate))

  -- If the other threads never take the broadcast to an earlier state, in the order offline,
  -- starting, streaming, live, stopping, then neither does `start` with its thread, whatever
  -- WebRTC, the platform and the requests answer.
  pub start-Forward : (fuel : ℕ) → Forward p (start p meanwhile fuel)
  unfolding start
  start-Forward fuel =
      bind p (transition p meanwhile offline starting) (λ _. ask_encoder_info p meanwhile fuel)
        (transition-Forward p meanwhile others offline starting (omega arith))
        (λ _. ask_encoder_info-Forward fuel)
