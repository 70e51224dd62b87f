-- ===== src/Encoder/InitKeeps.antt =====
-- `InitEncode` keeps an `X264Encoder` sound.
use mathlib.Core.Option.{none-ne-some}
use libcaffeine.Base.{ℕ, ◌==◌, ltb, if◌then◌else◌, Bool, not, ◌||◌, refl, Option, none, some}
use libcaffeine.Base.Int.{ℤ}
use libcaffeine.Base.Outcome.{M, pure, ◌>>=◌, ◌>>◌}
use libcaffeine.Encoder.Fragments.{allocate}
use libcaffeine.Encoder.Units.{IsMemory}
use libcaffeine.Encoder.Library.{X264, allocated, Params}
use libcaffeine.Encoder.Coding.{
  X264Encoder, CodecSettings, CodecStatus, err_parameter, codec_error, modify, ask, call,
  report_init, reported, fails, release, configured, encoder_params,
}
use libcaffeine.Encoder.Opening.{
  init_encode, with_settings, after_release, set_up, set_up_failed, with_preset, with_picture,
  open_encoder, opened, with_image, check_closed, is_zero, is_ok,
}
use libcaffeine.Encoder.Sound.{
  Keeps, bind-Keeps, then-Keeps, if-Keeps, fails-Keeps, release-Keeps, check_closed-Keeps,
  set_up_failed-Keeps,
}

module _ (lib : X264) (memory : IsMemory lib.memory) where
  opened-Keeps : (c : CodecSettings) (o : Option lib.Handle) → Keeps lib (opened lib c o)
  unfolding opened with_image allocate
  opened-Keeps c none s k =
      then-Keeps lib (λ s. call lib (lib.picture_clean s.planes) s)
        (modify lib (λ s. record s { encoder = none }) >> pure codec_error)
        (λ s k. record { rate = k.rate; backed = k.backed })
        (λ s k. record { rate = k.rate; backed = λ h q. absurd (none-ne-some h q) }) s k
  opened-Keeps c (some h) s k = record {
    rate = k.rate;
    backed = λ h q. (lib.memory.new_bytes _, refl, memory.sized _);
  }

  with_picture-Keeps :
      (c : CodecSettings) (params : Params lib.Rest) (result : ℤ)
      → Keeps lib (with_picture lib c params result)
  unfolding with_picture
  with_picture-Keeps c params result =
      if-Keeps lib (is_zero result)
        (modify lib (λ s. record s { planes = allocated })
          >> (ask lib (lib.encoder_open params) >>= opened lib c))
        (set_up_failed lib)
        (λ s k.
          bind-Keeps lib (ask lib (lib.encoder_open params)) (opened lib c)
            (λ s k. record { rate = k.rate; backed = k.backed }) (opened-Keeps c)
            (record s { planes = allocated }) (record { rate = k.rate; backed = k.backed }))
        (set_up_failed-Keeps lib)

  open_encoder-Keeps :
      (c : CodecSettings) (params : Params lib.Rest) → Keeps lib (open_encoder lib c params)
  unfolding open_encoder
  open_encoder-Keeps c params =
      bind-Keeps lib (ask lib (lib.picture_alloc params.csp params.width params.height))
        (with_picture lib c params) (λ s k. record { rate = k.rate; backed = k.backed })
        (with_picture-Keeps c params)

  with_preset-Keeps : (c : CodecSettings) (r : ℤ × lib.Rest) → Keeps lib (with_preset lib c r)
  unfolding with_preset
  with_preset-Keeps c (result, rest) =
      if-Keeps lib (is_zero result)
        (λ s. open_encoder lib c (lib.param_apply_profile (encoder_params lib rest s)) s)
        (set_up_failed lib)
        (λ s. open_encoder-Keeps c (lib.param_apply_profile (encoder_params lib rest s)) s)
        (set_up_failed-Keeps lib)

  set_up-Keeps :
      (c : CodecSettings) (cores : ℤ) (payload : ℕ) → Keeps lib (set_up lib c cores payload)
  unfolding set_up configured
  set_up-Keeps c cores payload s k =
      bind-Keeps lib (ask lib lib.param_default_preset) (with_preset lib c)
        (λ s k. record { rate = k.rate; backed = k.backed }) (with_preset-Keeps c)
        (configured lib c cores payload s) (record { rate = k.rate; backed = k.backed })

  after_release-Keeps :
      (c : CodecSettings) (cores : ℤ) (payload : ℕ) (status : CodecStatus)
      → Keeps lib (after_release lib c cores payload status)
  unfolding after_release
  after_release-Keeps c cores payload status =
      if-Keeps lib (is_ok status) (check_closed lib >> set_up lib c cores payload)
        (fails lib status)
        (then-Keeps lib (check_closed lib) (set_up lib c cores payload) (check_closed-Keeps lib)
          (set_up-Keeps c cores payload))
        (fails-Keeps lib status)

  with_settings-Keeps :
      (cores : ℤ) (payload : ℕ) (settings : Option CodecSettings)
      → Keeps lib (with_settings lib cores payload settings)
  unfolding with_settings
  with_settings-Keeps cores payload none = fails-Keeps lib err_parameter
  with_settings-Keeps cores payload (some c) = unless (not c.is_h264) _ (
      unless (c.max_framerate == 0) _ (
        unless (ltb c.width 1 || ltb c.height 1) (release lib >>= after_release lib c cores payload)
          (bind-Keeps lib (release lib) (after_release lib c cores payload) (release-Keeps lib)
            (after_release-Keeps c cores payload))))
    where
      unless :
          (b : Bool) (m : M (X264Encoder lib) CodecStatus)
          → Keeps lib m
          → Keeps lib (if b then fails lib err_parameter else m)
      unless b m = if-Keeps lib b (fails lib err_parameter) m (fails-Keeps lib err_parameter)

  pub init_encode-Keeps :
      (settings : Option CodecSettings) (cores : ℤ) (payload : ℕ)
      → Keeps lib (init_encode lib settings cores payload)
  unfolding init_encode report_init
  init_encode-Keeps settings cores payload =
      then-Keeps lib (report_init lib) (with_settings lib cores payload settings)
        (λ s.
          if-Keeps lib s.has_reported_init (pure tt) (modify lib (reported lib)) (λ s k. k)
            (λ s k. record { rate = k.rate; backed = k.backed }) s)
        (with_settings-Keeps cores payload settings)
