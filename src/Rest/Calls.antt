-- ===== src/Rest/Calls.antt =====
-- The authenticated requests of src/RestApi.cpp. Where the platform answers 401, the source
-- refreshes the credentials and calls itself; `fuel` bounds the depth of these calls, and a call
-- that goes deeper is unfinished.
pub mod Finish
pub mod Success
use libcaffeine.Base.{
  ℕ, zero, suc, ◌/◌, ◌==◌, if◌then◌else◌, Bool, true, false, Option, none, some, List, [], ◌∷◌, map,
  is_empty,
}
use libcaffeine.Base.Bytes.{Bytes, text}
use libcaffeine.Base.Outcome.{Outcome, done, M, pure, diverge, or_throw, ◌>>=◌}
use libcaffeine.Rest.Types.{
  UserInfo, GameList, IceInfo, ScreenshotData, HeartbeatResponse, EncoderInfoResponse,
}
use libcaffeine.Rest.Network.{
  Network, Client, Session, Reply, failed, response, Body, no_body, post_fields, form, Part,
}
use libcaffeine.Rest.Json.{
  user_info_from_json, game_list_from, ice_info_to_json, heartbeat_from_json,
  encoder_info_from_json,
}
use libcaffeine.Rest.Retry.{Retryable, retry, complete, retry_request}
use libcaffeine.Rest.Curl.{
  basic_request, authenticated_request, json_content, form_content, get_user_url, get_games_url,
  broadcast_url, stream_heartbeat_url, realtime_graphql_url, encoder_info_url,
  broadcast_metrics_url,
}
use libcaffeine.Rest.Auth.{refresh_credentials, error_text}

module _ (net : Network) (client : Client) where
  open net use {World, Json, parse, dump, json_object, json_array, find, items, is_array}

  -- The sleeps between tries.
  abbrev pub sleep_session : ℕ → Session net → Session net
  sleep_session n s = record s { world = net.sleep n s.world }

  -- After a 401: once more with refreshed credentials, or an answer where there are none.
  unfoldable pub when_unauthorized : {A : Type 0} → M (Session net) A → A → M (Session net) A
  when_unauthorized again otherwise = do
    refreshed ← refresh_credentials net client
    elim refreshed [ true ↦ again | false ↦ pure otherwise ]

  -- An optional answer that is complete, read by a conversion that may throw.
  abbrev complete_with : {A : Type 0} → Option A → M (Session net) (Retryable (Option A))
  complete_with value = (or_throw value) >>= λ a. pure (complete (some a))

  -- User information

  user_info_answer : Json → M (Session net) (Retryable (Option UserInfo))
  user_info_answer json = elim (find (text "errors") json) [
    | some errors ↦ do
      error ← or_throw (error_text net (text "_error") errors)
      pure (complete none)
    | none ↦ elim (find (text "user") json) [
      | some user ↦ complete_with (user_info_from_json net user)
      | none ↦ pure (complete none)
    ]
  ]

  unfoldable pub user_info_reply :
      M (Session net) (Retryable (Option UserInfo))
      → Reply
      → M (Session net) (Retryable (Option UserInfo))
  unfolding user_info_answer
  user_info_reply again (failed e) = pure (complete none)
  user_info_reply again (response status body) =
      if status == 401
      then when_unauthorized again (complete none)
      else elim (parse body) [ none ↦ pure (complete none) | some json ↦ user_info_answer json ]

  unfoldable pub do_get_user_info : ℕ → M (Session net) (Retryable (Option UserInfo))
  do_get_user_info zero s = diverge s
  do_get_user_info (suc fuel) s =
      (do
        reply ←
            authenticated_request net client json_content (get_user_url client s.credentials.caid)
              no_body none
        user_info_reply (do_get_user_info fuel) reply)
        s

  unfoldable pub get_user_info : ℕ → M (Session net) (Option UserInfo)
  get_user_info fuel = retry_request sleep_session (do_get_user_info fuel) none

  -- Supported games

  unfoldable pub games_reply : Reply → M World (Retryable (Option GameList))
  games_reply (failed e) = pure (complete none)
  games_reply (response status body) = elim (parse body) [
    | none ↦ pure (complete none)
    | some json ↦
        if is_array json
        then ((or_throw (game_list_from net (items json))) >>= λ games.
            pure (complete (some games)))
        else pure (complete none)
  ]

  unfoldable pub do_get_supported_games : M World (Retryable (Option GameList))
  do_get_supported_games = do
    reply ← basic_request net client json_content (get_games_url client) no_body none
    games_reply reply

  unfoldable pub get_supported_games : M World (Option GameList)
  get_supported_games = retry_request (net.sleep) do_get_supported_games none

  -- ICE candidates

  unfoldable pub trickle_reply :
      M (Session net) (Retryable Bool) → Reply → M (Session net) (Retryable Bool)
  trickle_reply again (failed e) = pure (retry false)
  trickle_reply again (response status body) =
      if status == 200
      then pure (complete true)
      else if status == 401
      then when_unauthorized again (complete false)
      else pure (retry false)

  unfoldable pub do_trickle_candidates : ℕ → List IceInfo → Bytes → M (Session net) (Retryable Bool)
  do_trickle_candidates zero candidates stream_url = diverge
  do_trickle_candidates (suc fuel) candidates stream_url = do
    body ← or_throw (
        dump (
          json_object
            ((text "ice_candidates", json_array (map (ice_info_to_json net) candidates)) ∷ [])))
    reply ←
        authenticated_request net client json_content stream_url (post_fields body)
          (some (text "PUT"))
    trickle_reply (do_trickle_candidates fuel candidates stream_url) reply

  unfoldable pub trickle_candidates : ℕ → List IceInfo → Bytes → M (Session net) Bool
  trickle_candidates fuel candidates stream_url =
      retry_request sleep_session (do_trickle_candidates fuel candidates stream_url) false

  -- Heartbeats

  unfoldable pub heartbeat_reply :
      M (Session net) (Retryable (Option HeartbeatResponse))
      → Reply
      → M (Session net) (Retryable (Option HeartbeatResponse))
  heartbeat_reply again (failed e) = pure (complete none)
  heartbeat_reply again (response status body) =
      if status == 401
      then when_unauthorized again (complete none)
      else if status == 200
      then elim (parse body) [
        | none ↦ pure (complete none)
        | some json ↦ complete_with (heartbeat_from_json net json)
      ]
      else pure (complete none)

  unfoldable pub do_heartbeat_stream :
      ℕ → Bytes → M (Session net) (Retryable (Option HeartbeatResponse))
  do_heartbeat_stream zero stream_url = diverge
  do_heartbeat_stream (suc fuel) stream_url = do
    reply ←
        authenticated_request net client json_content (stream_heartbeat_url stream_url)
          (post_fields (text "{}")) (some (text "POST"))
    heartbeat_reply (do_heartbeat_stream fuel stream_url) reply

  unfoldable pub heartbeat_stream : ℕ → Bytes → M (Session net) (Option HeartbeatResponse)
  heartbeat_stream fuel stream_url =
      retry_request sleep_session (do_heartbeat_stream fuel stream_url) none

  -- Screenshots

  -- Any status from 200 to 299.
  abbrev pub is_success : ℕ → Bool
  is_success status = status / 100 == 2

  abbrev game_image : ScreenshotData → Part
  game_image pixels = record {
    name = text "broadcast[game_image]";
    file_name = some (text "game_image.jpg");
    content = pixels;
    content_type = text "image/jpeg";
  }

  unfoldable pub screenshot_reply :
      M (Session net) (Retryable Bool) → Reply → M (Session net) (Retryable Bool)
  screenshot_reply again (failed e) = pure (retry false)
  screenshot_reply again (response status body) =
      if status == 401
      then when_unauthorized again (complete false)
      else if is_success status
      then pure (complete true)
      else pure (retry false)

  unfoldable pub do_update_screenshot :
      ℕ → Bytes → ScreenshotData → M (Session net) (Retryable Bool)
  do_update_screenshot zero id pixels = diverge
  do_update_screenshot (suc fuel) id pixels = do
    reply ←
        authenticated_request net client form_content (broadcast_url client id)
          (form (if is_empty pixels then [] else game_image pixels ∷ [])) (some (text "PUT"))
    screenshot_reply (do_update_screenshot fuel id pixels) reply

  unfoldable pub update_screenshot : ℕ → Bytes → ScreenshotData → M (Session net) Bool
  update_screenshot fuel id pixels =
      retry_request sleep_session (do_update_screenshot fuel id pixels) false

  -- Statistics: one request, whose answer is only logged.
  unfoldable pub send_webrtc_stats : Json → M (Session net) (Unit {0})
  send_webrtc_stats stats = do
    content ← or_throw (dump stats)
    reply ←
        authenticated_request net client form_content (broadcast_metrics_url client)
          (form (
            record {
              name = text "primary";
              file_name = none;
              content = content;
              content_type = text "application/json";
            }
            ∷ []))
          none
    pure tt

  -- GraphQL

  unfoldable pub graphql_reply :
      M (Session net) (Retryable (Option Json)) → Reply → M (Session net) (Retryable (Option Json))
  graphql_reply again (failed e) = pure (retry none)
  graphql_reply again (response status body) =
      if status == 401
      then when_unauthorized again (complete none)
      else if is_success status
      then pure (complete (parse body))
      else pure (retry none)

  unfoldable pub do_graphql_raw_request : ℕ → Json → M (Session net) (Retryable (Option Json))
  do_graphql_raw_request zero query = diverge
  do_graphql_raw_request (suc fuel) query = do
    body ← or_throw (dump query)
    reply ←
        authenticated_request net client json_content (realtime_graphql_url client)
          (post_fields body) (some (text "POST"))
    graphql_reply (do_graphql_raw_request fuel query) reply

  unfoldable pub graphql_raw_request : ℕ → Json → M (Session net) (Option Json)
  graphql_raw_request fuel query =
      retry_request sleep_session (do_graphql_raw_request fuel query) none

  -- Encoder settings

  unfoldable pub encoder_info_reply :
      Reply → M (Session net) (Retryable (Option EncoderInfoResponse))
  encoder_info_reply (failed e) = pure (complete none)
  encoder_info_reply (response status body) = elim (parse body) [
    | none ↦ pure (complete none)
    | some json ↦
        (λ s. (encoder_info_from_json net json, s)) >>= λ info. pure (complete (some info))
  ]

  unfoldable pub do_get_encoder_info : M (Session net) (Retryable (Option EncoderInfoResponse))
  do_get_encoder_info = do
    reply ←
        authenticated_request net client json_content (encoder_info_url client)
          (post_fields (text "{}")) (some (text "POST"))
    encoder_info_reply reply

  unfoldable pub get_encoder_info : M (Session net) (Option EncoderInfoResponse)
  get_encoder_info = retry_request sleep_session do_get_encoder_info none
