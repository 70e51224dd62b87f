-- ===== src/Broadcast/Frames.antt =====
-- The frames and the sound that the application sends to a broadcast.
use libcaffeine.Base.{ℕ, Bool, true, false, Option, none, some, if◌then◌else◌}
use libcaffeine.Base.Int.{ℤ}
use libcaffeine.Base.Bytes.{Bytes}
use libcaffeine.Base.Outcome.{throw, M, pure, ◌>>=◌, ◌>>◌}
use libcaffeine.Api.{is_ok}
use libcaffeine.Policy.{check_aspect_ratio}
use libcaffeine.Rest.Types.{ScreenshotData}
use libcaffeine.Broadcast.State.{ScreenshotPromise, unset, broken, fulfilled, is_online, fail}
use libcaffeine.Broadcast.Platform.{Platform, Run, ask, tell, get, modify}

module _ (p : Platform) where
  unfoldable pub send_audio : Bytes → ℕ → M (Run p) (Unit {0})
  send_audio samples samples_per_channel = get p >>= λ b.
      if is_online b then tell p (p.play_audio samples samples_per_channel) else pure tt

  unfoldable pub promised : Option ScreenshotData → ScreenshotPromise
  promised none = broken
  promised (some d) = fulfilled d

  -- `set_value` or `set_exception`, which throw if the promise has a result.
  unfoldable pub resolve_from : ScreenshotPromise → Option ScreenshotData → M (Run p) (Unit {0})
  unfolding promised
  resolve_from unset d = modify p (λ b. record b { screenshot_promise = promised d })
  resolve_from broken d = throw
  resolve_from (fulfilled _) d = throw

  -- `compare_exchange_strong` on whether a screenshot is needed.
  unfoldable pub take_screenshot : Bool → p.I420Buffer → M (Run p) (Unit {0})
  take_screenshot false frame = pure tt
  take_screenshot true frame =
      modify p (λ b. record b { is_screenshot_needed = false })
      >> (get p >>= λ b. resolve_from b.screenshot_promise (p.encode_screenshot frame))

  unfoldable pub with_frame : Option p.I420Buffer → M (Run p) (Unit {0})
  with_frame none = pure tt
  with_frame (some frame) = get p >>= λ b. take_screenshot b.is_screenshot_needed frame

  unfoldable pub send_video : p.Frame → ℤ → ℤ → M (Run p) (Unit {0})
  send_video frame width height = get p >>= λ b.
      if is_online b
      then (let ratio = check_aspect_ratio width height in
          if is_ok ratio
          then ask p (p.capture frame width height) >>= with_frame
          else modify p (fail ratio))
      else pure tt
