-- ===== src/Rest/Curl.antt =====
-- `ScopedCurl` of src/RestApi.cpp: the headers and options of a request; and src/Urls.cpp.
use libcaffeine.Base.{ℕ, Option, List, [], ◌∷◌, ◌++◌}
use libcaffeine.Base.Bytes.{Bytes, text}
use libcaffeine.Base.Outcome.{M}
use libcaffeine.Rest.Types.{Credentials}
use libcaffeine.Rest.Network.{
  Network, Client, Session, Request, Reply, Body, perform_request, on_world,
}

abbrev content_type_json : Bytes
content_type_json = text "Content-Type: application/json"

abbrev content_type_form : Bytes
content_type_form = text "Content-Type: multipart/form-data"

-- `CONTENT_TYPE_JSON` or `CONTENT_TYPE_FORM`.
pub data ContentType : Type 0 where
  json_content form_content : ContentType

content_header : ContentType → Bytes
content_header json_content = content_type_json
content_header form_content = content_type_form

abbrev pub timeout_seconds : ℕ
timeout_seconds = 10

abbrev pub low_speed_bps : ℕ
low_speed_bps = 100000

module _ (client : Client) where
  open client use {client_type, client_version, libcaffeine_version, domain}

  unfoldable pub basic_headers : ContentType → List Bytes
  unfolding content_header
  basic_headers c =
      content_header c
      ∷ (text "X-Client-Type: " ++ client_type)
      ∷ (text "X-Client-Version: " ++ client_version)
      ∷ (text "X-Libcaffeine-Version: " ++ libcaffeine_version)
      ∷ []

  unfoldable pub authenticated_headers : ContentType → Credentials → List Bytes
  unfolding basic_headers
  authenticated_headers c creds =
      basic_headers c
      ++ ((text "Authorization: Bearer " ++ creds.access_token)
          ∷ (text "X-Credential: " ++ creds.credential)
          ∷ [])

  unfoldable pub api_endpoint : Bytes
  api_endpoint = text "https://api." ++ domain

  unfoldable pub realtime_endpoint : Bytes
  realtime_endpoint = text "https://realtime." ++ domain

  unfoldable pub events_endpoint : Bytes
  events_endpoint = text "https://events." ++ domain

  unfoldable pub lakitu_endpoint : Bytes
  lakitu_endpoint = text "https://lakitu." ++ domain

  unfoldable pub version_check_url : Bytes
  unfolding api_endpoint
  version_check_url = api_endpoint ++ text "/v1/version-check"

  unfoldable pub sign_in_url : Bytes
  unfolding api_endpoint
  sign_in_url = api_endpoint ++ text "/v1/account/signin"

  unfoldable pub refresh_token_url : Bytes
  unfolding api_endpoint
  refresh_token_url = api_endpoint ++ text "/v1/account/token"

  unfoldable pub get_games_url : Bytes
  unfolding api_endpoint
  get_games_url = api_endpoint ++ text "/v1/games"

  unfoldable pub realtime_graphql_url : Bytes
  unfolding realtime_endpoint
  realtime_graphql_url = realtime_endpoint ++ text "/public/graphql/query"

  unfoldable pub broadcast_metrics_url : Bytes
  unfolding events_endpoint
  broadcast_metrics_url = events_endpoint ++ text "/v1/broadcast_metrics"

  unfoldable pub encoder_info_url : Bytes
  unfolding lakitu_endpoint
  encoder_info_url = lakitu_endpoint ++ text "/v2/encoderselection"

  unfoldable pub health_check_url : Bytes
  unfolding api_endpoint
  health_check_url = api_endpoint ++ text "/healthcheck"

  unfoldable pub get_user_url : Bytes → Bytes
  unfolding api_endpoint
  get_user_url id = api_endpoint ++ (text "/v1/users/" ++ id)

  unfoldable pub broadcast_url : Bytes → Bytes
  unfolding api_endpoint
  broadcast_url id = api_endpoint ++ (text "/v1/broadcasts/" ++ id)

unfoldable pub stream_heartbeat_url : Bytes → Bytes
stream_heartbeat_url stream_url = stream_url ++ text "/heartbeat"

abbrev pub request_with : List Bytes → Bytes → Body → Option Bytes → Request
request_with headers url body method = record {
  headers = headers;
  connect_timeout = timeout_seconds;
  low_speed_limit = low_speed_bps;
  low_speed_time = timeout_seconds;
  url = url;
  body = body;
  custom_request = method;
}

module _ (net : Network) (client : Client) where
  -- A request without credentials, as `ScopedCurl(contentType)` sets it up.
  unfoldable pub basic_request : ContentType → Bytes → Body → Option Bytes → M (net.World) Reply
  basic_request c url body method =
      perform_request net (request_with (basic_headers client c) url body method)

  -- A request with the credentials of the moment.
  unfoldable pub authenticated_request :
      ContentType → Bytes → Body → Option Bytes → M (Session net) Reply
  authenticated_request c url body method s =
      on_world net
        (perform_request net
          (request_with (authenticated_headers client c s.credentials) url body method))
        s
