-- ===== src/Rest/Calls/Finish.antt =====
-- When the authenticated requests finish.
use libcaffeine.Base.{
  ℕ, zero, suc, ◌≤◌, ◌<◌, ◌≡◌, refl, ap, ◌∙◌, ◌==◌, ==_iff, arith, Bool, true, false, Option, none,
  some, Option-cases, Bool-cases, inl, inr,
}
use native.Mathlib.Nat.{le_refl, le_trans}
use libcaffeine.Base.Bytes.{Bytes, text}
use libcaffeine.Base.Outcome.{done, unfinished, M, pure, or_throw, continue}
use libcaffeine.Rest.Types.{Credentials, AuthResponse, HeartbeatResponse}
use libcaffeine.Rest.Network.{
  Network, Client, Session, Request, Reply, failed, response, post_fields, on_world,
}
use libcaffeine.Rest.Json.{heartbeat_from_json, credentials_from_json}
use libcaffeine.Rest.Retry.{Retryable, complete, retry_request}
use libcaffeine.Rest.Curl.{
  request_with, authenticated_headers, authenticated_request, basic_request, json_content,
  stream_heartbeat_url, refresh_token_url,
}
use libcaffeine.Rest.Auth.{
  refresh_credentials, refresh_auth, do_refresh_auth, refresh_json, refresh_reply, refresh_answer,
  with_credentials, no_auth, store, error_text,
}
use libcaffeine.Rest.Calls.{
  when_unauthorized, heartbeat_reply, do_heartbeat_stream, heartbeat_stream, sleep_session,
}
use libcaffeine.Rest.Retry.Finish.{
  IsFinished, Steady, read-Steady, bind-Steady, retry_request-Steady,
}

-- A platform that does not answer 401 for ever: some measure of the world never grows, and falls
-- at each request that is answered so.
pub record GivesIn (net : Network) : Type 0 where
  pub left : net.World → ℕ
  pub left_perform : (q : Request) (w : net.World) → left (net.perform q w).1 ≤ left w
  pub left_refused :
      (q : Request) (w : net.World) (body : Bytes)
      → (net.perform q w).0 ≡ response 401 body
      → left (net.perform q w).1 < left w
  pub left_sleep : (n : ℕ) (w : net.World) → left (net.sleep n w) ≤ left w

module _ (net : Network) (client : Client) (g : GivesIn net) where
  open g use {left, left_perform, left_refused, left_sleep}

  session_left : Session net → ℕ
  session_left s = left s.world

  with_credentials-Steady :
      (json : net.Json) (w : net.World) → Steady left (with_credentials net json) w
  unfolding with_credentials
  with_credentials-Steady json w = read-Steady left (credentials_from_json net json) _ w

  refresh_answer-Steady :
      (json : net.Json) (w : net.World) → Steady left (refresh_answer net json) w
  unfolding refresh_answer
  refresh_answer-Steady json w = elim (Option-cases (net.find (text "errors") json)) [
    | inr (c, e) ↦
        rw (e, refresh_answer)
          (read-Steady left (error_text net (text "_error") c) (λ _. complete no_auth) w)
    | inl e ↦ elim (Option-cases (net.find (text "credentials") json)) [
      | inr (c, f) ↦ rw (e, refresh_answer, f) (with_credentials-Steady c w)
      | inl f ↦ rw (e, refresh_answer, f) (tt, le_refl (left w))
    ]
  ]

  refresh_reply-Steady : (reply : Reply) (w : net.World) → Steady left (refresh_reply net reply) w
  unfolding refresh_reply
  refresh_reply-Steady (failed e) w = (tt, le_refl (left w))
  refresh_reply-Steady (response status body) w = elim (Bool-cases (status == 401)) [
    | inl e ↦ rw (e, refresh_reply) (tt, le_refl (left w))
    | inr e ↦ elim (Option-cases (net.parse body)) [
      | inl f ↦ rw (e, refresh_reply, f) (tt, le_refl (left w))
      | inr (json, f) ↦ rw (e, refresh_reply, f) (refresh_answer-Steady json w)
    ]
  ]

  do_refresh_auth-Steady :
      (token : Bytes) (w : net.World) → Steady left (do_refresh_auth net client token) w
  unfolding do_refresh_auth basic_request
  do_refresh_auth-Steady token w =
      bind-Steady left (or_throw (net.dump (refresh_json net token))) _ w
        (dumped (net.dump (refresh_json net token)))
        (λ body w' h.
          bind-Steady left
            (basic_request net client json_content (refresh_token_url client) (post_fields body)
              none)
            (refresh_reply net) w' (tt, left_perform _ w')
            (λ reply v k. refresh_reply-Steady reply v))
    where
      dumped : (o : Option Bytes) → Steady left (or_throw o) w
      dumped none = (tt, le_refl (left w))
      dumped (some b) = (tt, le_refl (left w))

  refresh_credentials-Steady :
      (s : Session net) → Steady session_left (refresh_credentials net client) s
  unfolding refresh_credentials refresh_auth session_left
  refresh_credentials-Steady s =
      bind-Steady session_left (on_world net (refresh_auth net client s.credentials.refresh_token))
        (store net client) s
        (retry_request-Steady left (net.sleep)
          (do_refresh_auth net client s.credentials.refresh_token) left_sleep (left s.world) no_auth
          s.world (λ w h. do_refresh_auth-Steady _ w) (le_refl (left s.world)))
        (λ r t h. stored r t (r.credentials))
    where
      stored :
          (r : AuthResponse) (t : Session net) (c : Option Credentials)
          → Steady session_left (store net client (record r { credentials = c })) t
      stored r t none = (tt, le_refl (left t.world))
      stored r t (some c) = (tt, le_refl (left t.world))

  -- The platform's answer to one heartbeat request.
  answer : Bytes → Session net → Reply × net.World
  answer url s =
      net.perform
        (request_with (authenticated_headers client json_content s.credentials)
          (stream_heartbeat_url url) (post_fields (text "{}")) (some (text "POST")))
        s.world

  heartbeat_reply-Steady :
      (again : M (Session net) (Retryable (Option HeartbeatResponse))) (reply : Reply)
      (s : Session net)
      → ((status : ℕ) (body : Bytes)
          → reply ≡ response status body
          → (status == 401) ≡ true
          → (t : Session net) → session_left t ≤ session_left s
          → Steady session_left again t)
      → Steady session_left (heartbeat_reply net client again reply) s
  unfolding heartbeat_reply when_unauthorized
  heartbeat_reply-Steady again (failed e) s h = (tt, le_refl (session_left s))
  heartbeat_reply-Steady again (response status body) s h = elim (Bool-cases (status == 401)) [
    | inl e ↦
        rw (e, heartbeat_reply)
          (bind-Steady session_left (refresh_credentials net client) _ s
            (refresh_credentials-Steady s) (λ b t k. branch b t (h status body refl e t k)))
    | inr e ↦ elim (Bool-cases (status == 200)) [
      | inr f ↦ rw (e, heartbeat_reply, f) (tt, le_refl (session_left s))
      | inl f ↦ elim (Option-cases (net.parse body)) [
        | inl p ↦ rw (e, heartbeat_reply, f, p) (tt, le_refl (session_left s))
        | inr (json, p) ↦
            rw (e, heartbeat_reply, f, p)
              (read-Steady session_left (heartbeat_from_json net json) (λ a. complete (some a)) s)
      ]
    ]
  ]
    where
      branch :
          (b : Bool) (t : Session net)
          → Steady session_left again t
          → Steady session_left
              (elim b as (λ _. M (Session net) (Retryable (Option HeartbeatResponse))) [
                | true ↦ again
                | false ↦ pure (complete none)
              ])
              t
      branch true t k = k
      branch false t k = (tt, le_refl (session_left t))

  do_heartbeat_stream-Steady :
      (fuel : ℕ) (url : Bytes) (s : Session net)
      → session_left s < fuel
      → Steady session_left (do_heartbeat_stream net client fuel url) s
  unfolding do_heartbeat_stream authenticated_request session_left answer
  do_heartbeat_stream-Steady zero url s h = absurd (omega arith)
  do_heartbeat_stream-Steady (suc fuel) url s h =
      let le = left_perform _ s.world in
      let r =
        heartbeat_reply-Steady (do_heartbeat_stream net client fuel url) (answer url s).0
          (record s { world = (answer url s).1 })
          (λ status body e same t k. do_heartbeat_stream-Steady fuel url t (
            omega (
              arith,
              left_refused _ s.world body
                  (e ∙ ap (λ n. response n body) ((==_iff status 401).0 same)),
            ))) in
      (r.0, le_trans r.1 le)

  -- If some measure of the world never grows, and falls at every request that is answered with
  -- 401, then a heartbeat comes to an end, by a return or an exception, for any depth of calls
  -- above the measure of the world that it starts in.
  pub heartbeat_stream-IsFinished :
      (fuel : ℕ) (url : Bytes) (s : Session net)
      → left s.world < fuel
      → IsFinished (heartbeat_stream net client fuel url s).0
  unfolding heartbeat_stream session_left
  heartbeat_stream-IsFinished fuel url s h =
      (retry_request-Steady session_left (sleep_session net client)
        (do_heartbeat_stream net client fuel url) (λ n t. left_sleep n t.world) (left s.world) none
        s (λ t k. do_heartbeat_stream-Steady fuel url t (omega arith)) (le_refl (left s.world))).0

module _ (net : Network) (client : Client) where
  -- A platform that refuses every heartbeat and grants every refresh.
  pub record RefusesForever (url : Bytes) : Type 0 where
    pub refuses :
        (s : Session net)
        → (body : Bytes) × ((authenticated_request net client json_content
              (stream_heartbeat_url url)
              (post_fields (text "{}"))
              (some (text "POST"))
              s).0
            ≡ done (response 401 body))
    pub renews : (s : Session net) → (refresh_credentials net client s).0 ≡ done true

  do_heartbeat_stream-unfinished :
      (fuel : ℕ) (url : Bytes) (s : Session net)
      → RefusesForever url
      → (do_heartbeat_stream net client fuel url s).0 ≡ unfinished
  unfolding do_heartbeat_stream heartbeat_reply when_unauthorized
  do_heartbeat_stream-unfinished zero url s h = refl
  do_heartbeat_stream-unfinished (suc fuel) url s h =
      let (body, e) = h.refuses s in
      rw (e, do_heartbeat_stream, continue)
        (rw (h.renews _, continue) (do_heartbeat_stream-unfinished fuel url _ h))

  -- Against a platform that answers every heartbeat to a URL with 401 and grants every refresh, a
  -- heartbeat to that URL does not come to an end within any depth of calls.
  pub heartbeat_stream-unfinished :
      (fuel : ℕ) (url : Bytes) (s : Session net)
      → RefusesForever url
      → (heartbeat_stream net client fuel url s).0 ≡ unfinished
  unfolding heartbeat_stream retry_request
  heartbeat_stream-unfinished fuel url s h =
      rw (do_heartbeat_stream-unfinished fuel url s h, continue)
