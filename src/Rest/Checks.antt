-- ===== src/Rest/Checks.antt =====
-- The version and connection checks of src/RestApi.cpp.
use libcaffeine.Base.{if◌then◌else◌, Bool, true, false, ◌||◌, none, some, List, [], ◌∷◌, is_empty}
use libcaffeine.Base.Bytes.{Bytes, text}
use libcaffeine.Base.Outcome.{done, M, pure, or_throw, ◌>>=◌}
use libcaffeine.Api.{
  CaffResult, success, failure, old_version, internet_disconnected, caffeine_unreachable,
}
use libcaffeine.Rest.Network.{
  Network, Client, Reply, failed, response, no_body, couldnt_resolve_host, couldnt_connect,
  other_error,
}
use libcaffeine.Rest.Retry.{Retryable, retry, complete, retry_request}
use libcaffeine.Rest.Curl.{basic_request, json_content, version_check_url, health_check_url}
use libcaffeine.Rest.Auth.{error_text}

module _ (net : Network) where
  open net use {World, parse, find}

  unfoldable pub version_reply : Reply → M World (Retryable CaffResult)
  version_reply (failed e) = pure (retry failure)
  version_reply (response status body) = elim (parse body) [
    | none ↦ pure (retry failure)
    | some json ↦ elim (find (text "errors") json) [
      | some errors ↦ do
        error ← or_throw (error_text net (text "_expired") errors)
        pure (complete old_version)
      | none ↦ pure (complete success)
    ]
  ]

  -- One ping each, until one is answered. The ping itself is a command of the system.
  unfoldable pub ping_any : List Bytes → M World Bool
  ping_any [] w = (done false, w)
  ping_any (host ∷ hosts) w =
      let r = net.ping host w in elim r.0 [ true ↦ (done true, r.1) | false ↦ ping_any hosts r.1 ]

  abbrev pub ping_hosts : List Bytes
  ping_hosts = text "www.apple.com" ∷ text "www.google.com" ∷ text "www.amazon.com" ∷ []

  unfoldable pub check_internet_connection : M World CaffResult
  unfolding ping_any
  check_internet_connection = do
    answered ← ping_any ping_hosts
    pure (if answered then success else internet_disconnected)

  caffeine_reply : Reply → CaffResult
  caffeine_reply (failed couldnt_resolve_host) = caffeine_unreachable
  caffeine_reply (failed couldnt_connect) = caffeine_unreachable
  caffeine_reply (failed (other_error n)) = failure
  caffeine_reply (response status body) = success

  module _ (client : Client) where
    unfoldable pub do_check_version : M World (Retryable CaffResult)
    do_check_version = do
      reply ← basic_request net client json_content (version_check_url client) no_body none
      version_reply reply

    unfoldable pub check_version : M World CaffResult
    check_version =
        if is_empty (client.client_type) || is_empty (client.client_version)
        then pure failure
        else retry_request (net.sleep) do_check_version success

    unfoldable pub check_caffeine_connection : M World CaffResult
    unfolding caffeine_reply
    check_caffeine_connection = do
      reply ← basic_request net client json_content (health_check_url client) no_body none
      pure (caffeine_reply reply)
