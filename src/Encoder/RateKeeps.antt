-- ===== src/Encoder/RateKeeps.antt =====
-- `SetRateAllocation` keeps an `X264Encoder` sound.
use libcaffeine.Base.{
  ℕ, ◌==◌, ltb, if◌then◌else◌, Bool, ◌&&◌, ◌||◌, ◌≡◌, refl, ◌⊎◌, inl, inr, Option, none, some,
}
use libcaffeine.Base.Int.{ℤ}
use libcaffeine.Base.Outcome.{pure, ◌>>◌}
use libcaffeine.Encoder.{fps_high_threshold, fps_low_threshold}
use libcaffeine.Encoder.Library.{X264, local, Params}
use libcaffeine.Encoder.Coding.{ok, err_parameter, modify, ask, call}
use libcaffeine.Encoder.Opening.{
  rate_from, reconfigured, write_back, is_negative, set_rate_allocation, encoding_rate, change_rate,
  reconfigure, set_fps,
}
use libcaffeine.Encoder.Sound.{Keeps, bind-Keeps, if-Keeps}

module _ (lib : X264) where
  reconfigured-Keeps : (result : ℤ) → Keeps lib (reconfigured lib result)
  reconfigured-Keeps result =
      if-Keeps lib (is_negative result) (pure err_parameter) (pure ok) (λ s k. k) (λ s k. k)

  write_back-Keeps :
      (h : lib.Handle) (params : Params lib.Rest) → Keeps lib (write_back lib h params)
  unfolding write_back
  write_back-Keeps h params s =
      bind-Keeps lib (ask lib (lib.encoder_reconfig h (record params { fps_num = s.target_fps })))
        (reconfigured lib) (λ s k. record { rate = k.rate; backed = k.backed }) reconfigured-Keeps s

  reconfigure-Keeps : (h : lib.Handle) → Keeps lib (reconfigure lib h)
  unfolding reconfigure
  reconfigure-Keeps h =
      bind-Keeps lib (call lib (lib.encoder_parameters h local)) (write_back lib h)
        (λ s k. record { rate = k.rate; backed = k.backed }) (write_back-Keeps h)

  rate-Keeps :
      (fps : ℕ) (h : lib.Handle)
      → (fps ≡ 30) ⊎ (fps ≡ 60)
      → Keeps lib (set_fps lib fps >> reconfigure lib h)
  rate-Keeps fps h e s k = reconfigure-Keeps h _ (record { rate = e; backed = k.backed })

  change_rate-Keeps : (framerate : ℕ) (h : lib.Handle) → Keeps lib (change_rate lib framerate h)
  unfolding change_rate
  change_rate-Keeps framerate h s =
      if-Keeps lib (ltb fps_high_threshold framerate && s.target_fps == 30)
        (set_fps lib 60 >> reconfigure lib h)
        (if low then set_fps lib 30 >> reconfigure lib h else pure ok) (rate-Keeps 60 h (inr refl))
        (if-Keeps lib low (set_fps lib 30 >> reconfigure lib h) (pure ok)
          (rate-Keeps 30 h (inl refl)) (λ s k. k))
        s
    where
      low : Bool
      low = ltb framerate fps_low_threshold && s.target_fps == 60

  encoding_rate-Keeps :
      (framerate count : ℕ) (o : Option lib.Handle)
      → Keeps lib (encoding_rate lib framerate count o)
  unfolding encoding_rate
  encoding_rate-Keeps framerate count none s k = k
  encoding_rate-Keeps framerate count (some h) s k =
      if-Keeps lib (count == 0) (pure ok) (change_rate lib framerate h) (λ s k. k)
        (change_rate-Keeps framerate h) s k

  pub set_rate_allocation-Keeps :
      (bps kbps framerate : ℕ) → Keeps lib (set_rate_allocation lib bps kbps framerate)
  unfolding set_rate_allocation rate_from
  set_rate_allocation-Keeps bps kbps framerate =
      if-Keeps lib (bps == 0 || framerate == 0) (pure err_parameter)
        (modify lib (λ s. record s { target_kbps = kbps; max_frame_rate = framerate })
          >> rate_from lib framerate)
        (λ s k. k)
        (λ s k.
          encoding_rate-Keeps framerate s.frame_count s.encoder _
            (record { rate = k.rate; backed = k.backed }))
