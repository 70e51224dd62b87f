-- ===== src/Encoder/Calls.antt =====
-- The calls of an `X264Encoder` in any order.
use mathlib.Core.Option.{none-ne-some}
use libcaffeine.Base.{ℕ, refl, inl, Option, List, [], ◌∷◌}
use libcaffeine.Base.Int.{ℤ}
use libcaffeine.Base.Bytes.{Bytes}
use libcaffeine.Base.Outcome.{M}
use libcaffeine.Encoder.{FrameType}
use libcaffeine.Encoder.Library.{X264, ImageInfo}
use libcaffeine.Encoder.Coding.{
  X264Encoder, CodecSettings, CodecStatus, new, release, register_encode_complete_callback,
}
use libcaffeine.Encoder.Opening.{init_encode, set_rate_allocation}
use libcaffeine.Encoder.Encode.{VideoFrame, encode}
use libcaffeine.Encoder.Sound.{IsX264, IsSound, Keeps, release-Keeps}
use libcaffeine.Encoder.InitKeeps.{init_encode-Keeps}
use libcaffeine.Encoder.RateKeeps.{set_rate_allocation-Keeps}
use libcaffeine.Encoder.EncodeKeeps.{encode_with-Keeps}

-- A call of the object, with its arguments.
pub data Call (lib : X264) : Type 0 where
  init : Option CodecSettings → ℤ → ℕ → Call lib
  end : Call lib
  register : Option lib.Callback → Call lib
  set_rate : ℕ → ℕ → ℕ → Call lib
  code : VideoFrame lib.Buffer → Option (List FrameType) → Call lib

module _ (lib : X264) where
  abbrev pub run_call : Call lib → M (X264Encoder lib) CodecStatus
  run_call (init settings cores payload) = init_encode lib settings cores payload
  run_call end = release lib
  run_call (register callback) = register_encode_complete_callback lib callback
  run_call (set_rate bps kbps framerate) = set_rate_allocation lib bps kbps framerate
  run_call (code frame types) = encode lib frame types

  -- Calls go on after an exception, which WebRTC would have to catch.
  abbrev pub run_calls : List (Call lib) → X264Encoder lib → X264Encoder lib
  run_calls [] s = s
  run_calls (c ∷ cs) s = run_calls cs (run_call c s).1

  run_call-Keeps : IsX264 lib → (c : Call lib) → Keeps lib (run_call c)
  unfolding encode register_encode_complete_callback
  run_call-Keeps is (init settings cores payload) s k =
      init_encode-Keeps lib is.memory settings cores payload s k
  run_call-Keeps is end s k = release-Keeps lib s k
  run_call-Keeps is (register callback) s k = record { rate = k.rate; backed = k.backed }
  run_call-Keeps is (set_rate bps kbps framerate) s k =
      set_rate_allocation-Keeps lib bps kbps framerate s k
  run_call-Keeps is (code frame types) s k =
      encode_with-Keeps lib is frame types s.encoder s.encoded_image_callback s k

  run_calls-Keeps :
      IsX264 lib
      → (cs : List (Call lib)) (s : X264Encoder lib) → IsSound lib s
      → IsSound lib (run_calls cs s)
  run_calls-Keeps is [] s k = k
  run_calls-Keeps is (c ∷ cs) s k = run_calls-Keeps is cs (run_call c s).1 (run_call-Keeps is c s k)

  -- If the units that x264 gives have the sizes of their memory and need less than 2^64 bytes in
  -- all, and `new` gives as many bytes as it is asked for, then after any sequence of calls of a new
  -- encoder, however each of them ended, the target frame rate is 30 or 60, and an encoder that is
  -- open has an image with a buffer of the size that the image keeps.
  pub run_calls-IsSound :
      IsX264 lib
      → (cs : List (Call lib)) (value : Option Bytes) (info : ImageInfo) (world : lib.World)
      → IsSound lib (run_calls cs (new lib value info world))
  unfolding new
  run_calls-IsSound is cs value info world =
      run_calls-Keeps is cs (new lib value info world)
        (record { rate = inl refl; backed = λ h q. absurd (none-ne-some h q) })
