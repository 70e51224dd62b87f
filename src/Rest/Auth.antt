-- ===== src/Rest/Auth.antt =====
-- Signing in and refreshing credentials, from src/RestApi.cpp.
pub mod Results
pub mod Refresh
use libcaffeine.Base.{ℕ, ◌==◌, if◌then◌else◌, Bool, true, false, Option, none, some, List, [], ◌∷◌}
use libcaffeine.Base.{is_empty, ◌++◌}
use libcaffeine.Base.Bytes.{Bytes, text, bytes_eq}
use libcaffeine.Base.Int32
use libcaffeine.Base.Outcome.{Outcome, done, M, pure, throw, or_throw, ◌>>=◌}
use libcaffeine.Api.{
  CaffResult, success, failure, info_incorrect, mfa_otp_incorrect, mfa_otp_required,
  legal_acceptance_required, email_verification_required,
}
use libcaffeine.Utils.{CString, is_empty_cstr}
use libcaffeine.Rest.Types.{Credentials, AuthResponse}
use libcaffeine.Rest.Network.{
  Network, Client, Session, Reply, failed, response, post_fields, on_world,
}
use libcaffeine.Rest.Json.{credentials_from_json}
use libcaffeine.Rest.Retry.{Retryable, complete, retry_request}
use libcaffeine.Rest.Curl.{basic_request, json_content, sign_in_url, refresh_token_url}

-- A default `AuthResponse`, and one that carries a result alone.
abbrev pub no_auth : AuthResponse
no_auth = record { result = failure; credentials = none }

abbrev pub only : CaffResult → AuthResponse
only r = record { result = r; credentials = none }

-- The next step that the platform asks for.
unfoldable pub sign_in_next : Bytes → AuthResponse
sign_in_next next =
    if bytes_eq next (text "mfa_otp_required")
    then only mfa_otp_required
    else if bytes_eq next (text "legal_acceptance_required")
    then only legal_acceptance_required
    else if bytes_eq next (text "email_verification")
    then only email_verification_required
    else no_auth

module _ (net : Network) where
  open net use {
    World, Json, parse, dump, json_string, json_object, find, at_key, at_index, get_string,
  }

  -- `errors->at(key).at(0).get<std::string>()`.
  abbrev pub error_text : Bytes → Json → Option Bytes
  error_text key errors =
      Int32.◌>>=◌ (at_key key errors) λ list. Int32.◌>>=◌ (at_index 0 list) get_string

  unfoldable pub sign_in_json : Bytes → Bytes → CString → Json
  sign_in_json username password otp = json_object (
      (
        text "account",
        json_object (
            (text "username", json_string username) ∷ (text "password", json_string password) ∷ []),
      )
      ∷ (if is_empty_cstr otp then [] else elim otp [
        | none ↦ []
        | some code ↦ (text "mfa", json_object ((text "otp", json_string code) ∷ [])) ∷ []
      ]))

  -- The answer to a sign-in that holds an error.
  unfoldable pub sign_in_errors : CString → Json → M World (Retryable AuthResponse)
  sign_in_errors otp errors = elim (find (text "otp") errors) [
    | some otp_error ↦ do
      error ← or_throw (Int32.◌>>=◌ (at_index 0 otp_error) get_string)
      pure (complete (only (if is_empty_cstr otp then mfa_otp_required else mfa_otp_incorrect)))
    | none ↦ do error ← or_throw (error_text (text "_error") errors); pure (complete no_auth)
  ]

  unfoldable pub with_credentials : Json → M World (Retryable AuthResponse)
  with_credentials json = do
    creds ← or_throw (credentials_from_json net json)
    pure (complete (record { result = success; credentials = some creds }))

  unfoldable pub sign_in_answer : CString → Json → M World (Retryable AuthResponse)
  unfolding with_credentials
  sign_in_answer otp json = elim (find (text "errors") json) [
    | some errors ↦ sign_in_errors otp errors
    | none ↦ elim (find (text "credentials") json) [
      | some creds ↦ with_credentials creds
      | none ↦ elim (find (text "next") json) [
        | some next ↦ (or_throw (get_string next)) >>= λ s. pure (complete (sign_in_next s))
        | none ↦ pure (complete no_auth)
      ]
    ]
  ]

  unfoldable pub sign_in_reply : CString → Reply → M World (Retryable AuthResponse)
  sign_in_reply otp (failed e) = pure (complete no_auth)
  sign_in_reply otp (response status body) =
      if status == 401 then pure (complete (only info_incorrect)) else elim (parse body) [
        | none ↦ pure (complete no_auth)
        | some json ↦ sign_in_answer otp json
      ]

  unfoldable pub refresh_answer : Json → M World (Retryable AuthResponse)
  unfolding with_credentials
  refresh_answer json = elim (find (text "errors") json) [
    | some errors ↦ do error ← or_throw (error_text (text "_error") errors); pure (complete no_auth)
    | none ↦ elim (find (text "credentials") json) [
      | some creds ↦ with_credentials creds
      | none ↦ pure (complete no_auth)
    ]
  ]

  unfoldable pub refresh_reply : Reply → M World (Retryable AuthResponse)
  refresh_reply (failed e) = pure (complete no_auth)
  refresh_reply (response status body) =
      if status == 401
      then pure (complete (only info_incorrect))
      else elim (parse body) [ none ↦ pure (complete no_auth) | some json ↦ refresh_answer json ]

  unfoldable pub refresh_json : Bytes → Json
  refresh_json refresh_token = json_object ((text "refresh_token", json_string refresh_token) ∷ [])

  module _ (client : Client) where
    unfoldable pub do_sign_in : Bytes → Bytes → CString → M World (Retryable AuthResponse)
    do_sign_in username password otp = do
      body ← or_throw (dump (sign_in_json username password otp))
      reply ← basic_request net client json_content (sign_in_url client) (post_fields body) none
      sign_in_reply otp reply

    unfoldable pub sign_in : Bytes → Bytes → CString → M World AuthResponse
    sign_in username password otp =
        retry_request (net.sleep) (do_sign_in username password otp) no_auth

    unfoldable pub do_refresh_auth : Bytes → M World (Retryable AuthResponse)
    do_refresh_auth refresh_token = do
      body ← or_throw (dump (refresh_json refresh_token))
      reply ←
          basic_request net client json_content (refresh_token_url client) (post_fields body) none
      refresh_reply reply

    unfoldable pub refresh_auth : Bytes → M World AuthResponse
    refresh_auth refresh_token = retry_request (net.sleep) (do_refresh_auth refresh_token) no_auth

    -- New credentials replace the shared ones.
    abbrev pub store : AuthResponse → M (Session net) Bool
    store r s = elim (r.credentials) [
      | some creds ↦ (done true, record s { credentials = creds })
      | none ↦ (done false, s)
    ]

    unfoldable pub refresh_credentials : M (Session net) Bool
    refresh_credentials s = ((on_world net (refresh_auth s.credentials.refresh_token)) >>= store) s
