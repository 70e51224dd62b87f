-- ===== src/Broadcast/Screenshot.antt =====
-- The one screenshot of a broadcast.
use libcaffeine.Base.{
  ◌≡◌, refl, sym, ◌∙◌, Bool, true, false, Option, none, some, Bool-cases, inl, inr,
}
use libcaffeine.Base.Int.{ℤ}
use libcaffeine.Base.Outcome.{done}
use libcaffeine.Api.{is_ok}
use libcaffeine.Policy.{check_aspect_ratio}
use libcaffeine.Rest.Types.{ScreenshotData}
use libcaffeine.Broadcast.State.{
  Broadcast, ScreenshotPromise, unset, broken, fulfilled, is_online, fail,
}
use libcaffeine.Broadcast.Platform.{Platform, Run}
use libcaffeine.Broadcast.Frames.{send_video, with_frame, take_screenshot, resolve_from, promised}

-- A screenshot is needed exactly as long as its promise has no result.
abbrev is_unset : ScreenshotPromise → Bool
is_unset unset = true
is_unset broken = false
is_unset (fulfilled d) = false

abbrev pub Awaits : Broadcast → Type 0
Awaits b = b.is_screenshot_needed ≡ is_unset b.screenshot_promise

module _ (p : Platform) where
  resolve_from-Awaits :
      (d : ScreenshotPromise) (o : Option ScreenshotData) (s : Run p)
      → is_unset d ≡ true
      → s.broadcast.is_screenshot_needed ≡ false
      → (s' : Run p) × (resolve_from p d o s ≡ (done tt, s')) × Awaits s'.broadcast
  unfolding resolve_from promised
  resolve_from-Awaits unset none s e h =
      (record s { broadcast = record (s.broadcast) { screenshot_promise = broken } }, refl, h)
  resolve_from-Awaits unset (some d) s e h =
      (record s { broadcast = record (s.broadcast) { screenshot_promise = fulfilled d } }, refl, h)
  resolve_from-Awaits broken o s e h = cc
  resolve_from-Awaits (fulfilled d) o s e h = cc

  take_screenshot-Awaits :
      (needed : Bool) (frame : p.I420Buffer) (s : Run p)
      → s.broadcast.is_screenshot_needed ≡ needed
      → Awaits s.broadcast
      → (s' : Run p) × (take_screenshot p needed frame s ≡ (done tt, s')) × Awaits s'.broadcast
  unfolding take_screenshot
  take_screenshot-Awaits false frame s e h = (s, refl, h)
  take_screenshot-Awaits true frame s e h =
      resolve_from-Awaits s.broadcast.screenshot_promise (p.encode_screenshot frame)
        (record s { broadcast = record (s.broadcast) { is_screenshot_needed = false } }) (sym h ∙ e)
        refl

  with_frame-Awaits :
      (o : Option p.I420Buffer) (s : Run p)
      → Awaits s.broadcast
      → (s' : Run p) × (with_frame p o s ≡ (done tt, s')) × Awaits s'.broadcast
  unfolding with_frame
  with_frame-Awaits none s h = (s, refl, h)
  with_frame-Awaits (some frame) s h =
      take_screenshot-Awaits s.broadcast.is_screenshot_needed frame s refl h

  -- If a screenshot is needed exactly as long as its promise has no result, then any frame is
  -- taken in without an exception, so the promise gets no second result, and afterwards a
  -- screenshot is again needed exactly as long as there is no result.
  pub send_video-Awaits :
      (frame : p.Frame) (width height : ℤ) (s : Run p)
      → Awaits s.broadcast
      → (s' : Run p) × (send_video p frame width height s ≡ (done tt, s')) × Awaits s'.broadcast
  unfolding send_video fail
  send_video-Awaits frame width height s h = elim (Bool-cases (is_online s.broadcast)) [
    | inr off ↦ (s, rw (off, send_video) refl, h)
    | inl on ↦ elim (Bool-cases (is_ok (check_aspect_ratio width height))) [
      | inr bad ↦ (
        record s { broadcast = fail (check_aspect_ratio width height) s.broadcast },
        rw (on, send_video, bad) refl,
        h,
      )
      | inl good ↦
          let (s', e, k) =
            with_frame-Awaits (p.capture frame width height s.world).0
              (record s { world = (p.capture frame width height s.world).1 }) h in
          (s', rw (on, send_video, good) e, k)
    ]
  ]
