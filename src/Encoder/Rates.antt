-- ===== src/Encoder/Rates.antt =====
-- `SetRateAllocation` returns, and leaves an `X264Encoder` open or closed as it was.
use mathlib.Core.Path.{subst}
use libcaffeine.Base.{ℕ, ◌==◌, ltb, if◌then◌else◌, Bool, ◌&&◌, ◌||◌, ◌≡◌, sym, Option, none, some}
use libcaffeine.Base.Int.{ℤ}
use libcaffeine.Base.Outcome.{Outcome, done, pure, continue, ◌>>◌}
use libcaffeine.Encoder.{fps_high_threshold, fps_low_threshold}
use libcaffeine.Encoder.Library.{X264, Params, local}
use libcaffeine.Encoder.Coding.{X264Encoder, CodecStatus, ok, err_parameter, modify}
use libcaffeine.Encoder.Opening.{
  is_negative, set_rate_allocation, rate_from, encoding_rate, change_rate, reconfigure,
  reconfigured, write_back, set_fps,
}
use libcaffeine.Encoder.Lifecycle.{IsDocumented, is_open, if-at, Ends}

-- How `SetRateAllocation` ends.
data RateStep : Outcome CodecStatus → Bool → Bool → Type 0 where
  accepts : {b : Bool} → RateStep (done ok) b b
  rejects : {b : Bool} → RateStep (done err_parameter) b b

module _ (lib : X264) where
  module _ (Q : Outcome CodecStatus → Bool → Type 0) where
    reconfigured-Ends :
        (result : ℤ) (s : X264Encoder lib)
        → Q (done ok) (is_open lib s)
        → Q (done err_parameter) (is_open lib s)
        → Ends lib Q (reconfigured lib result s)
    reconfigured-Ends result s a r =
        if-at lib (Ends lib Q) (is_negative result) (pure err_parameter) (pure ok) s r a

    reconfigure-Ends :
        IsDocumented lib
        → (h : lib.Handle) (s : X264Encoder lib) → Q (done ok) (is_open lib s)
        → Q (done err_parameter) (is_open lib s)
        → Ends lib Q (reconfigure lib h s)
    unfolding reconfigure write_back
    reconfigure-Ends documented h s a r = go (documented.copies h s.world)
      where
        t : X264Encoder lib
        t = record s { world = (lib.encoder_parameters h local s.world).1 }

        go :
            (params : Params lib.Rest) × ((lib.encoder_parameters h local s.world).0 ≡ done params)
            → Ends lib Q (reconfigure lib h s)
        go (params, e) =
            subst (λ o. Ends lib Q (continue (write_back lib h) o t)) (sym e)
              (reconfigured-Ends _ (record t { world = _ }) a r)

    change_rate-Ends :
        IsDocumented lib
        → (framerate : ℕ) (h : lib.Handle) (s : X264Encoder lib) → Q (done ok) (is_open lib s)
        → Q (done err_parameter) (is_open lib s)
        → Ends lib Q (change_rate lib framerate h s)
    unfolding change_rate
    change_rate-Ends documented framerate h s a r =
        if-at lib (Ends lib Q) (ltb fps_high_threshold framerate && s.target_fps == 30)
          (set_fps lib 60 >> reconfigure lib h)
          (if low then set_fps lib 30 >> reconfigure lib h else pure ok) s
          (reconfigure-Ends documented h (record s { target_fps = 60 }) a r)
          (if-at lib (Ends lib Q) low (set_fps lib 30 >> reconfigure lib h) (pure ok) s
            (reconfigure-Ends documented h (record s { target_fps = 30 }) a r) a)
      where
        low : Bool
        low = ltb framerate fps_low_threshold && s.target_fps == 60

    encoding_rate-Ends :
        IsDocumented lib
        → (framerate count : ℕ) (o : Option lib.Handle) (s : X264Encoder lib)
        → Q (done ok) (is_open lib s)
        → Q (done err_parameter) (is_open lib s)
        → Ends lib Q (encoding_rate lib framerate count o s)
    unfolding encoding_rate
    encoding_rate-Ends documented framerate count none s a r = a
    encoding_rate-Ends documented framerate count (some h) s a r =
        if-at lib (Ends lib Q) (count == 0) (pure ok) (change_rate lib framerate h) s a
          (change_rate-Ends documented framerate h s a r)

  -- If x264 does what its header says of reading parameters, `SetRateAllocation` returns OK or the
  -- code for a wrong parameter, and leaves the encoder open or closed as it was.
  set_rate_allocation-RateStep :
      IsDocumented lib
      → (bps kbps framerate : ℕ) (s : X264Encoder lib)
      → RateStep
          (set_rate_allocation lib bps kbps framerate s).0
          (is_open lib s)
          (is_open lib (set_rate_allocation lib bps kbps framerate s).1)
  unfolding set_rate_allocation rate_from
  set_rate_allocation-RateStep documented bps kbps framerate s =
      if-at lib (Ends lib Q) (bps == 0 || framerate == 0) (pure err_parameter)
        (modify lib (λ s. record s { target_kbps = kbps; max_frame_rate = framerate })
          >> rate_from lib framerate)
        s rejects
        (encoding_rate-Ends Q documented framerate s.frame_count s.encoder
          (record s { target_kbps = kbps; max_frame_rate = framerate }) accepts rejects)
    where
      Q : Outcome CodecStatus → Bool → Type 0
      Q o b = RateStep o (is_open lib s) b
