-- ===== src/Rest/Calls/Success.antt =====
-- Where an authenticated request reports success, the platform has answered so.
use libcaffeine.Base.{
  ℕ, zero, suc, ◌≡◌, refl, ap, ◌∙◌, ◌==◌, arith, Bool, true, false, Option, none, some, Bool-cases,
  inl, inr, ◌⊎◌, List, [], ◌∷◌, if◌then◌else◌, is_empty,
}
use libcaffeine.Base.Bytes.{Bytes, text}
use libcaffeine.Base.Outcome.{
  Outcome, done, thrown, unfinished, undefined, M, pure, or_throw, ◌>>=◌, continue,
}
use libcaffeine.Rest.Types.{IceInfo, ScreenshotData}
use libcaffeine.Rest.Network.{Network, Client, Session, Reply, failed, response, post_fields, form}
use libcaffeine.Rest.Retry.{Retryable, complete}
use libcaffeine.Rest.Retry.Counts.{retry_request-answer}
use libcaffeine.Rest.Curl.{authenticated_request, json_content, form_content, broadcast_url}
use libcaffeine.Rest.Auth.{refresh_credentials}
use libcaffeine.Rest.Calls.{
  when_unauthorized, trickle_reply, do_trickle_candidates, trickle_candidates, is_success,
  game_image, screenshot_reply, do_update_screenshot, update_screenshot, sleep_session,
}

module _ (net : Network) (client : Client) where
  after_refresh :
      {A : Type 0} (again : M (Session net) A) (otherwise : A) (o : Outcome Bool) (s : Session net)
      {a : A} {s' : Session net}
      → continue (λ b. elim b [ true ↦ again | false ↦ pure otherwise ]) o s ≡ (done a, s')
      → (otherwise ≡ a) ⊎ ((from : Session net) × (again from ≡ (done a, s')))
  after_refresh again otherwise thrown s e = cc
  after_refresh again otherwise unfinished s e = cc
  after_refresh again otherwise undefined s e = cc
  after_refresh again otherwise (done true) s e = inr (s, e)
  after_refresh again otherwise (done false) s e = inl (ground arith)

  -- After a 401 the answer is the given one, or comes from the request that is made again.
  when_unauthorized-answer :
      {A : Type 0} (again : M (Session net) A) (otherwise : A) (s : Session net) {a : A}
      {s' : Session net}
      → when_unauthorized net client again otherwise s ≡ (done a, s')
      → (otherwise ≡ a) ⊎ ((from : Session net) × (again from ≡ (done a, s')))
  unfolding when_unauthorized
  when_unauthorized-answer again otherwise s e =
      let r = refresh_credentials net client s in after_refresh again otherwise r.0 r.1 e

  -- The reply itself was a success, or the request that is made again succeeds.
  abbrev Succeeds :
      M (Session net) (Retryable Bool) → Bool → Retryable Bool → Session net → Session net → Type 0
  Succeeds again good r s s' =
      ((good ≡ true) × (s ≡ s')) ⊎ ((from : Session net) × (again from ≡ (done r, s')))

  trickle_reply-Succeeds :
      (again : M (Session net) (Retryable Bool)) (status : ℕ) (body : Bytes) (s : Session net)
      {r : Retryable Bool} {s' : Session net}
      → trickle_reply net client again (response status body) s ≡ (done r, s')
      → r.result ≡ true
      → Succeeds again (status == 200) r s s'
  unfolding trickle_reply
  trickle_reply-Succeeds again status body s {r} {s'} e t = elim (Bool-cases (status == 200)) [
    | inl g ↦ inl (g, ground (arith, g))
    | inr b ↦ elim (Bool-cases (status == 401)) [
      | inr c ↦ absurd (ground (arith, b, c))
      | inl c ↦
          elim (when_unauthorized-answer again (complete false) s {a = r} {s' = s'}
            (ground (arith, b, c))) [
              | inl same ↦ absurd (ground (arith, same))
              | inr found ↦ inr found
            ]
    ]
  ]

  screenshot_reply-Succeeds :
      (again : M (Session net) (Retryable Bool)) (status : ℕ) (body : Bytes) (s : Session net)
      {r : Retryable Bool} {s' : Session net}
      → screenshot_reply net client again (response status body) s ≡ (done r, s')
      → r.result ≡ true
      → Succeeds again (is_success net client status) r s s'
  unfolding screenshot_reply
  screenshot_reply-Succeeds again status body s {r} {s'} e t = elim (Bool-cases (status == 401)) [
    | inl c ↦
        elim (when_unauthorized-answer again (complete false) s {a = r} {s' = s'}
          (ground (arith, c))) [ inl same ↦ absurd (ground (arith, same)) | inr found ↦ inr found ]
    | inr b ↦ elim (Bool-cases (is_success net client status)) [
      | inl g ↦ inl (g, ground (arith, b, g))
      | inr c ↦ absurd (ground (arith, b, c))
    ]
  ]

  -- The last request of a call was made in some state with the given options, and the platform
  -- answered it with a good status.
  abbrev pub Accepted : (ℕ → Bool) → M (Session net) Reply → Session net → Type 0
  Accepted good request s' =
      (from : Session net) × (status : ℕ) × (body : Bytes) × (good status ≡ true)
      × (request from ≡ (done (response status body), s'))

  abbrev pub trickle_request : Bytes → Bytes → M (Session net) Reply
  trickle_request url body =
      authenticated_request net client json_content url (post_fields body) (some (text "PUT"))

  after_trickle :
      (again : M (Session net) (Retryable Bool)) (url body : Bytes) (s : Session net)
      (reply : Reply) (s1 : Session net) {r : Retryable Bool} {s' : Session net}
      → trickle_request url body s ≡ (done reply, s1)
      → r.result ≡ true
      → ((from : Session net)
          → again from ≡ (done r, s')
          → (sent : Bytes) × Accepted (λ n. n == 200) (trickle_request url sent) s')
      → trickle_reply net client again reply s1 ≡ (done r, s')
      → (sent : Bytes) × Accepted (λ n. n == 200) (trickle_request url sent) s'
  unfolding trickle_reply
  after_trickle again url body s (failed e) s1 q t more h = absurd (ground arith)
  after_trickle again url body s (response status b) s1 q t more h =
      elim (trickle_reply-Succeeds again status b s1 h t) [
        | inl (g, same) ↦
            (body, (s, status, b, g, q ∙ ap (λ x. (done (response status b), x)) same))
        | inr (from, e) ↦ more from e
      ]

  posted_trickle :
      (again : M (Session net) (Retryable Bool)) (url : Bytes) (s : Session net) (o : Option Bytes)
      {r : Retryable Bool} {s' : Session net}
      → r.result ≡ true
      → ((from : Session net)
          → again from ≡ (done r, s')
          → (sent : Bytes) × Accepted (λ n. n == 200) (trickle_request url sent) s')
      → (or_throw o >>= λ body. trickle_request url body >>= trickle_reply net client again) s
        ≡ (done r, s')
      → (sent : Bytes) × Accepted (λ n. n == 200) (trickle_request url sent) s'
  unfolding authenticated_request
  posted_trickle again url s none t more e = absurd (cc)
  posted_trickle again url s (some body) t more e = after_trickle again url body s _ _ refl t more e

  do_trickle-Accepted :
      (fuel : ℕ) (candidates : List IceInfo) (url : Bytes) (s : Session net) {r : Retryable Bool}
      {s' : Session net}
      → r.result ≡ true
      → do_trickle_candidates net client fuel candidates url s ≡ (done r, s')
      → (sent : Bytes) × Accepted (λ n. n == 200) (trickle_request url sent) s'
  unfolding do_trickle_candidates
  do_trickle-Accepted zero candidates url s t e = absurd (cc)
  do_trickle-Accepted (suc fuel) candidates url s t e =
      posted_trickle (do_trickle_candidates net client fuel candidates url) url s _ t
        (λ from f. do_trickle-Accepted fuel candidates url from t f) e

  -- If sending the ICE candidates reports success, the state afterwards is the one left by a
  -- request to the stream's URL that was answered with status 200.
  pub trickle_candidates-Accepted :
      (fuel : ℕ) (candidates : List IceInfo) (url : Bytes) (s : Session net) {s' : Session net}
      → trickle_candidates net client fuel candidates url s ≡ (done true, s')
      → (sent : Bytes) × Accepted (λ n. n == 200) (trickle_request url sent) s'
  unfolding trickle_candidates
  trickle_candidates-Accepted fuel candidates url s {s'} e =
      let (from, r, (a, b), t) =
        retry_request-answer (sleep_session net client)
          (do_trickle_candidates net client fuel candidates url) false s e in
      do_trickle-Accepted fuel candidates url from {r = r} {s' = s'} t (λ i. (a i, b i))

  abbrev pub screenshot_request : Bytes → ScreenshotData → M (Session net) Reply
  screenshot_request id pixels =
      authenticated_request net client form_content (broadcast_url client id)
        (form (if is_empty pixels then [] else game_image net client pixels ∷ []))
        (some (text "PUT"))

  after_screenshot :
      (again : M (Session net) (Retryable Bool)) (id : Bytes) (pixels : ScreenshotData)
      (s : Session net) (reply : Reply) (s1 : Session net) {r : Retryable Bool} {s' : Session net}
      → screenshot_request id pixels s ≡ (done reply, s1)
      → r.result ≡ true
      → ((from : Session net)
          → again from ≡ (done r, s')
          → Accepted (is_success net client) (screenshot_request id pixels) s')
      → screenshot_reply net client again reply s1 ≡ (done r, s')
      → Accepted (is_success net client) (screenshot_request id pixels) s'
  unfolding screenshot_reply
  after_screenshot again id pixels s (failed e) s1 q t more h = absurd (ground arith)
  after_screenshot again id pixels s (response status b) s1 q t more h =
      elim (screenshot_reply-Succeeds again status b s1 h t) [
        | inl (g, same) ↦ (s, status, b, g, q ∙ ap (λ x. (done (response status b), x)) same)
        | inr (from, e) ↦ more from e
      ]

  do_update_screenshot-Accepted :
      (fuel : ℕ) (id : Bytes) (pixels : ScreenshotData) (s : Session net) {r : Retryable Bool}
      {s' : Session net}
      → r.result ≡ true
      → do_update_screenshot net client fuel id pixels s ≡ (done r, s')
      → Accepted (is_success net client) (screenshot_request id pixels) s'
  unfolding do_update_screenshot authenticated_request
  do_update_screenshot-Accepted zero id pixels s t e = absurd (cc)
  do_update_screenshot-Accepted (suc fuel) id pixels s t e =
      after_screenshot (do_update_screenshot net client fuel id pixels) id pixels s _ _ refl t
        (λ from f. do_update_screenshot-Accepted fuel id pixels from t f) e

  -- If sending the screenshot reports success, the state afterwards is the one left by a request
  -- that sent this screenshot to the broadcast's URL and was answered with a status from 200 to
  -- 299.
  pub update_screenshot-Accepted :
      (fuel : ℕ) (id : Bytes) (pixels : ScreenshotData) (s : Session net) {s' : Session net}
      → update_screenshot net client fuel id pixels s ≡ (done true, s')
      → Accepted (is_success net client) (screenshot_request id pixels) s'
  unfolding update_screenshot
  update_screenshot-Accepted fuel id pixels s {s'} e =
      let (from, r, (a, b), t) =
        retry_request-answer (sleep_session net client)
          (do_update_screenshot net client fuel id pixels) false s e in
      do_update_screenshot-Accepted fuel id pixels from {r = r} {s' = s'} t (λ i. (a i, b i))
