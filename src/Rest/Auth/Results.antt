-- ===== src/Rest/Auth/Results.antt =====
-- What an authentication answers.
use libcaffeine.Base.{
  ◌≡◌, refl, ◌↔◌, ◌==◌, arith, Bool, true, false, Option, none, some, has_value, Option-cases,
  Bool-cases, inl, inr, if◌then◌else◌,
}
use mathlib.Core.Path.{subst}
use libcaffeine.Base.Bytes.{Bytes, text}
use libcaffeine.Base.Outcome.{
  Outcome, done, thrown, unfinished, undefined, M, pure, or_throw, ◌>>=◌,
}
use libcaffeine.Api.{
  CaffResult, success, failure, info_incorrect, mfa_otp_required, mfa_otp_incorrect,
}
use libcaffeine.Utils.{CString, is_empty_cstr}
use libcaffeine.Rest.Types.{AuthResponse}
use libcaffeine.Rest.Network.{Network, Client, Reply, failed, response}
use libcaffeine.Rest.Json.{credentials_from_json}
use libcaffeine.Rest.Retry.{Retryable, complete, retry_request}
use libcaffeine.Rest.Retry.Counts.{retry_request-answer}
use libcaffeine.Rest.Curl.{basic_request}
use libcaffeine.Rest.Auth.{
  error_text, refresh_json, no_auth, only, sign_in_json, sign_in_errors, sign_in_next,
  with_credentials, sign_in_answer, sign_in_reply, refresh_answer, refresh_reply, do_sign_in,
  sign_in, do_refresh_auth, refresh_auth,
}

-- An answer is a success exactly if it holds credentials.
abbrev pub IsConsistent : AuthResponse → Type 0
IsConsistent r = (r.result ≡ success) ↔ (has_value (r.credentials) ≡ true)

-- A request that has answered has done so consistently.
abbrev Sound : Outcome (Retryable AuthResponse) → Type 0
Sound (done r) = IsConsistent (r.result)
Sound thrown = Unit {0}
Sound unfinished = Unit {0}
Sound undefined = Unit {0}

only-IsConsistent : (r : CaffResult) → (r ≡ success → ⊥) → IsConsistent (only r)
only-IsConsistent r h = (λ e. absurd (h e), λ e. cc)

no_auth-IsConsistent : IsConsistent no_auth
no_auth-IsConsistent = only-IsConsistent failure (λ e. cc)

sign_in_next-IsConsistent : (next : Bytes) → IsConsistent (sign_in_next next)
unfolding sign_in_next
sign_in_next-IsConsistent next = (λ e. ground arith, λ e. ground arith)

otp-IsConsistent :
    (b : Bool) → IsConsistent (only (if b then mfa_otp_required else mfa_otp_incorrect))
otp-IsConsistent true = only-IsConsistent mfa_otp_required (λ e. cc)
otp-IsConsistent false = only-IsConsistent mfa_otp_incorrect (λ e. cc)

-- An answer that is made from what is read out of JSON, where the reading may throw.
read :
    {W A : Type 0} (o : Option A) (f : A → AuthResponse) (w : W)
    → ((a : A) → IsConsistent (f a))
    → Sound ((or_throw o >>= λ a. pure (complete (f a))) w).0
read none f w h = tt
read (some a) f w h = h a

checked :
    {W A : Type 0} (o : Option A) (r : AuthResponse) (w : W)
    → IsConsistent r
    → Sound ((or_throw o >>= λ _. pure (complete r)) w).0
checked o r w h = read o (λ _. r) w (λ _. h)

module _ (net : Network) where
  open net use {World, Json, parse, find, get_string}

  with_credentials-Sound : (json : Json) (w : World) → Sound (with_credentials net json w).0
  unfolding with_credentials
  with_credentials-Sound json w = elim (Option-cases (credentials_from_json net json)) [
    | inl e ↦ rw (e, or_throw) tt
    | inr (c, e) ↦ rw (e, or_throw) (λ _. refl, λ _. refl)
  ]

  sign_in_errors-Sound :
      (otp : CString) (json : Json) (w : World) → Sound (sign_in_errors net otp json w).0
  unfolding sign_in_errors
  sign_in_errors-Sound otp json w = elim (Option-cases (find (text "otp") json)) [
    | inl e ↦
        rw (e, sign_in_errors)
          (checked (error_text net (text "_error") json) no_auth w no_auth-IsConsistent)
    | inr (c, e) ↦ rw (e, sign_in_errors) (checked _ _ w (otp-IsConsistent (is_empty_cstr otp)))
  ]

  sign_in_answer-Sound :
      (otp : CString) (json : Json) (w : World) → Sound (sign_in_answer net otp json w).0
  unfolding sign_in_answer
  sign_in_answer-Sound otp json w = elim (Option-cases (find (text "errors") json)) [
    | inr (c, e) ↦ rw (e, sign_in_answer) (sign_in_errors-Sound otp c w)
    | inl e ↦ elim (Option-cases (find (text "credentials") json)) [
      | inr (c, f) ↦ rw (e, sign_in_answer, f) (with_credentials-Sound c w)
      | inl f ↦ elim (Option-cases (find (text "next") json)) [
        | inl g ↦ rw (e, sign_in_answer, f, g) no_auth-IsConsistent
        | inr (c, g) ↦
            rw (e, sign_in_answer, f, g)
              (read (get_string c) sign_in_next w sign_in_next-IsConsistent)
      ]
    ]
  ]

  sign_in_reply-Sound :
      (otp : CString) (reply : Reply) (w : World) → Sound (sign_in_reply net otp reply w).0
  unfolding sign_in_reply
  sign_in_reply-Sound otp (failed e) w = no_auth-IsConsistent
  sign_in_reply-Sound otp (response status body) w = elim (Bool-cases (status == 401)) [
    | inl e ↦ rw (e, sign_in_reply) (only-IsConsistent info_incorrect (λ h. cc))
    | inr e ↦ elim (Option-cases (parse body)) [
      | inl f ↦ rw (e, sign_in_reply, f) no_auth-IsConsistent
      | inr (json, f) ↦ rw (e, sign_in_reply, f) (sign_in_answer-Sound otp json w)
    ]
  ]

  refresh_answer-Sound : (json : Json) (w : World) → Sound (refresh_answer net json w).0
  unfolding refresh_answer
  refresh_answer-Sound json w = elim (Option-cases (find (text "errors") json)) [
    | inr (c, e) ↦
        rw (e, refresh_answer)
          (checked (error_text net (text "_error") c) no_auth w no_auth-IsConsistent)
    | inl e ↦ elim (Option-cases (find (text "credentials") json)) [
      | inr (c, f) ↦ rw (e, refresh_answer, f) (with_credentials-Sound c w)
      | inl f ↦ rw (e, refresh_answer, f) no_auth-IsConsistent
    ]
  ]

  refresh_reply-Sound : (reply : Reply) (w : World) → Sound (refresh_reply net reply w).0
  unfolding refresh_reply
  refresh_reply-Sound (failed e) w = no_auth-IsConsistent
  refresh_reply-Sound (response status body) w = elim (Bool-cases (status == 401)) [
    | inl e ↦ rw (e, refresh_reply) (only-IsConsistent info_incorrect (λ h. cc))
    | inr e ↦ elim (Option-cases (parse body)) [
      | inl f ↦ rw (e, refresh_reply, f) no_auth-IsConsistent
      | inr (json, f) ↦ rw (e, refresh_reply, f) (refresh_answer-Sound json w)
    ]
  ]

  module _ (client : Client) where
    do_sign_in-Sound :
        (username password : Bytes) (otp : CString) (w : World)
        → Sound (do_sign_in net client username password otp w).0
    unfolding do_sign_in basic_request
    do_sign_in-Sound username password otp w =
        elim (Option-cases (net.dump (sign_in_json net username password otp))) [
          | inl e ↦ rw (e, do_sign_in, or_throw) tt
          | inr (b, e) ↦ rw (e, do_sign_in, or_throw) (sign_in_reply-Sound otp _ _)
        ]

    do_refresh_auth-Sound :
        (refresh_token : Bytes) (w : World) → Sound (do_refresh_auth net client refresh_token w).0
    unfolding do_refresh_auth basic_request
    do_refresh_auth-Sound refresh_token w =
        elim (Option-cases (net.dump (refresh_json net refresh_token))) [
          | inl e ↦ rw (e, do_refresh_auth, or_throw) tt
          | inr (b, e) ↦ rw (e, do_refresh_auth, or_throw) (refresh_reply-Sound _ _)
        ]

    -- The answer that a retried request returns is one that the request gave.
    retried :
        (request : M World (Retryable AuthResponse)) (w : World) {r : AuthResponse} {w' : World}
        → ((w : World) → Sound (request w).0)
        → retry_request (net.sleep) request no_auth w ≡ (done r, w')
        → IsConsistent r
    retried request w {r} h e =
        let (from, answer, (a, same), eq) = retry_request-answer (net.sleep) request no_auth w e in
        subst IsConsistent eq (subst Sound a (h from))

    -- If signing in returns an answer, that is a success exactly if it holds credentials.
    pub sign_in-IsConsistent :
        (username password : Bytes) (otp : CString) (w : World) {r : AuthResponse} {w' : World}
        → sign_in net client username password otp w ≡ (done r, w')
        → IsConsistent r
    unfolding sign_in
    sign_in-IsConsistent username password otp w e =
        retried (do_sign_in net client username password otp) w
          (do_sign_in-Sound username password otp) e

    -- If a refresh returns an answer, that is a success exactly if it holds credentials.
    pub refresh_auth-IsConsistent :
        (refresh_token : Bytes) (w : World) {r : AuthResponse} {w' : World}
        → refresh_auth net client refresh_token w ≡ (done r, w')
        → IsConsistent r
    unfolding refresh_auth
    refresh_auth-IsConsistent refresh_token w e =
        retried (do_refresh_auth net client refresh_token) w (do_refresh_auth-Sound refresh_token) e
