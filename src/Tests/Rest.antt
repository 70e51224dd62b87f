-- ===== src/Tests/Rest.antt =====
-- The requests at concrete inputs.
use libcaffeine.Base.{
  ℕ, zero, suc, ◌+◌, ◌-◌, ◌<◌, ◌≡◌, refl, arith, ◌==◌, true, false, none, some, [], ◌∷◌,
}
use libcaffeine.Base.Bytes.{Bytes, text, bytes_eq}
use libcaffeine.Base.Outcome.{done, unfinished, M}
use libcaffeine.Api.{success}
use libcaffeine.Rest.Types.{Credentials, AuthResponse}
use libcaffeine.Rest.Network.{Session, Request, response}
use libcaffeine.Rest.Retry.{Retryable, retry, complete, retry_request, try_from, backoff_duration}
use libcaffeine.Rest.Retry.Counts.{
  Meters, Tries, Answers, retry_request-answer, retry_request-Tries,
}
use libcaffeine.Rest.Retry.Finish.{IsFinished}
use libcaffeine.Rest.Auth.{
  sign_in, refresh_auth, do_sign_in, do_refresh_auth, refresh_credentials, sign_in_reply,
  refresh_reply, sign_in_answer, refresh_answer,
}
use libcaffeine.Rest.Auth.Results.{IsConsistent, sign_in-IsConsistent}
use libcaffeine.Rest.Auth.Refresh.{Refreshed, refresh_credentials-Refreshed}
use libcaffeine.Rest.Curl.{basic_request, authenticated_request}
use libcaffeine.Rest.Json.{credentials_from_json}
use libcaffeine.Rest.Calls.{
  trickle_reply, screenshot_reply, do_trickle_candidates, do_update_screenshot, trickle_candidates,
  update_screenshot, heartbeat_stream,
}
use libcaffeine.Rest.Calls.Success.{Accepted, trickle_request, trickle_candidates-Accepted}
use libcaffeine.Rest.Calls.Finish.{
  GivesIn, RefusesForever, heartbeat_stream-IsFinished, heartbeat_stream-unfinished,
}
use libcaffeine.Tests.Net.{
  Meter, refusing_heartbeats, first_refused, granting, refusing_first, client, start,
  old_credentials,
}

-- A request that asks for a retry until the third time.
abbrev third_time : M Meter (Retryable ℕ)
third_time w = (
  done (elim (w.requests == 2) [ true ↦ complete 7 | false ↦ retry 1 ]),
  record w { requests = w.requests + 1 },
)

abbrev sleep : ℕ → Meter → Meter
sleep n w = record w { seconds = w.seconds + n }

abbrev after_three : Meter
after_three = record { requests = 3; seconds = 5 }

third_time-Meters : Meters sleep third_time
third_time-Meters = record {
  asked = Meter.requests;
  slept = Meter.seconds;
  asked_request = λ s. refl;
  slept_request = λ s. refl;
  asked_sleep = λ n s. refl;
  slept_sleep = λ n s. refl;
}

retry_request-Tries_example :
    let s' = (retry_request sleep third_time 0 start).1 in
    (k w : ℕ) × Tries k w × (s'.requests ≡ 0 + k) × (s'.seconds ≡ 0 + w)
unfolding third_time-Meters
retry_request-Tries_example = retry_request-Tries sleep third_time third_time-Meters 0 start

retried_three_times : retry_request sleep third_time 0 start ≡ (done 7, after_three)
unfolding retry_request try_from backoff_duration
retried_three_times = refl

retry_request-answer_example :
    (from : Meter) × (r : Retryable ℕ) × Answers sleep third_time from r after_three
    × (r.result ≡ 7)
retry_request-answer_example =
    retry_request-answer sleep third_time 0 start {a = 7} {s' = after_three} retried_three_times

abbrev new_credentials : Credentials
new_credentials = record {
  access_token = text "t";
  refresh_token = text "t";
  caid = text "t";
  credential = text "t";
}

abbrev signed_in : AuthResponse
signed_in = record { result = success; credentials = some new_credentials }

abbrev after_one : Meter
after_one = record { requests = 1; seconds = 0 }

sign_in_granted :
    sign_in granting client (text "u") (text "p") none start ≡ (done signed_in, after_one)
unfolding sign_in retry_request try_from backoff_duration do_sign_in basic_request sign_in_reply
    sign_in_answer bytes_eq credentials_from_json
sign_in_granted = refl

sign_in-IsConsistent_example : IsConsistent signed_in
sign_in-IsConsistent_example =
    sign_in-IsConsistent granting client (text "u") (text "p") none start {r = signed_in}
      {w' = after_one} sign_in_granted

abbrev session : Session granting
session = record { world = start; credentials = old_credentials }

refresh_credentials-Refreshed_example :
    let t = refresh_credentials granting client session in Refreshed granting client session t.0 t.1
refresh_credentials-Refreshed_example = refresh_credentials-Refreshed granting client session

abbrev after_session : Session granting
after_session = record { world = after_one; credentials = old_credentials }

trickled : trickle_candidates granting client 2 [] (text "s") session ≡ (done true, after_session)
unfolding trickle_candidates retry_request try_from backoff_duration do_trickle_candidates
    authenticated_request trickle_reply
trickled = refl

trickle_candidates-Accepted_example :
    (sent : Bytes) × Accepted granting client
      (λ n. n == 200)
      (trickle_request granting client (text "s") sent)
      after_session
trickle_candidates-Accepted_example =
    trickle_candidates-Accepted granting client 2 [] (text "s") session {s' = after_session}
      trickled

abbrev pixels : Bytes
pixels = 1 ∷ 2 ∷ []

updated : update_screenshot granting client 2 (text "b") pixels session ≡ (done true, after_session)
unfolding update_screenshot retry_request try_from backoff_duration do_update_screenshot
    authenticated_request screenshot_reply
updated = refl

refused_once :
    (q : Request) (w : Meter) (n : ℕ) (body : Bytes)
    → w.requests ≡ n
    → first_refused n ≡ response 401 body
    → 1 - (w.requests + 1) < 1 - w.requests
refused_once q w zero body h e = omega arith
refused_once q w (suc n) body h e = absurd (ground arith)

refusing_first-GivesIn : GivesIn refusing_first
refusing_first-GivesIn = record {
  left = λ w. 1 - w.requests;
  left_perform = λ q w. omega arith;
  left_refused = λ q w body e. refused_once q w w.requests body refl e;
  left_sleep = λ n w. omega arith;
}

abbrev refused_session : Session refusing_first
refused_session = record { world = start; credentials = old_credentials }

heartbeat_stream-IsFinished_example :
    IsFinished (heartbeat_stream refusing_first client 3 (text "s") refused_session).0
unfolding refusing_first-GivesIn
heartbeat_stream-IsFinished_example =
    heartbeat_stream-IsFinished refusing_first client refusing_first-GivesIn 3 (text "s")
      refused_session (omega arith)

abbrev stuck_session : Session refusing_heartbeats
stuck_session = record { world = start; credentials = old_credentials }

refusing_heartbeats-RefusesForever : RefusesForever refusing_heartbeats client (text "s")
unfolding authenticated_request refresh_credentials refresh_auth retry_request try_from
    backoff_duration do_refresh_auth basic_request refresh_reply refresh_answer bytes_eq
    credentials_from_json
refusing_heartbeats-RefusesForever = record { refuses = λ s. ([], refl); renews = λ s. refl }

heartbeat_stream-unfinished_example :
    (heartbeat_stream refusing_heartbeats client 9 (text "s") stuck_session).0 ≡ unfinished
heartbeat_stream-unfinished_example =
    heartbeat_stream-unfinished refusing_heartbeats client 9 (text "s") stuck_session
      refusing_heartbeats-RefusesForever
