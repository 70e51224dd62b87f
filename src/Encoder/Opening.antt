-- ===== src/Encoder/Opening.antt =====
-- `InitEncode` and `SetRateAllocation` of src/X264Encoder.cpp.
use libcaffeine.Base.{
  ℕ, ◌==◌, ltb, if◌then◌else◌, Bool, true, false, not, ◌&&◌, ◌||◌, Option, none, some, has_value,
}
use libcaffeine.Base.Int.{ℤ, pos, negsuc}
use libcaffeine.Base.Outcome.{M, pure, ◌>>=◌, ◌>>◌}
use libcaffeine.Encoder.{fps_high_threshold, fps_low_threshold}
use libcaffeine.Encoder.Fragments.{check, allocate}
use libcaffeine.Encoder.Library.{X264, Params, allocated, local}
use libcaffeine.Encoder.Coding.{
  X264Encoder, CodecSettings, CodecStatus, ok, err_parameter, codec_error, get, modify, ask, call,
  report_init, fails, release, configured, encoder_params,
}

abbrev pub is_zero : ℤ → Bool
is_zero (pos n) = n == 0
is_zero (negsuc n) = false

abbrev pub is_negative : ℤ → Bool
is_negative (pos n) = false
is_negative (negsuc n) = true

abbrev pub is_ok : CodecStatus → Bool
is_ok ok = true
is_ok _ = false

module _ (lib : X264) where
  -- `CAFF_CHECK(!encoder)`.
  abbrev pub check_closed : M (X264Encoder lib) (Unit {0})
  check_closed = get lib >>= λ s. check (not (has_value s.encoder))

  abbrev pub set_up_failed : M (X264Encoder lib) CodecStatus
  set_up_failed = check_closed >> fails lib codec_error

  -- The encoded image gets a buffer for an unencoded one.
  unfoldable pub with_image : CodecSettings → X264Encoder lib → X264Encoder lib
  unfolding allocate
  with_image c s = record s {
    image = record (allocate lib.memory (lib.memory.calc_buffer_size c.width c.height) s.image) {
      length = 0;
    };
    info = record s.info { complete_frame = true; encoded_width = 0; encoded_height = 0 };
    frame_count = 0;
  }

  -- What follows `x264_encoder_open`.
  unfoldable pub opened : CodecSettings → Option lib.Handle → M (X264Encoder lib) CodecStatus
  unfolding with_image
  opened c none = get lib >>= λ s.
      call lib (lib.picture_clean s.planes)
      >> (modify lib (λ s. record s { encoder = none }) >> pure codec_error)
  opened c (some h) =
      modify lib (λ s. record s { encoder = some h }) >> (modify lib (with_image c) >> pure ok)

  unfoldable pub with_picture :
      CodecSettings → Params lib.Rest → ℤ → M (X264Encoder lib) CodecStatus
  unfolding opened
  with_picture c params result =
      if is_zero result
      then modify lib (λ s. record s { planes = allocated })
        >> (ask lib (lib.encoder_open params) >>= opened c)
      else set_up_failed

  unfoldable pub open_encoder : CodecSettings → Params lib.Rest → M (X264Encoder lib) CodecStatus
  unfolding with_picture
  open_encoder c params =
      ask lib (lib.picture_alloc params.csp params.width params.height) >>= with_picture c params

  unfoldable pub with_preset : CodecSettings → ℤ × lib.Rest → M (X264Encoder lib) CodecStatus
  unfolding open_encoder
  with_preset c (result, rest) =
      if is_zero result
      then (get lib >>= λ s. open_encoder c (lib.param_apply_profile (encoder_params lib rest s)))
      else set_up_failed

  unfoldable pub set_up : CodecSettings → ℤ → ℕ → M (X264Encoder lib) CodecStatus
  unfolding with_preset
  set_up c cores payload =
      modify lib (configured lib c cores payload)
      >> (ask lib lib.param_default_preset >>= with_preset c)

  unfoldable pub after_release :
      CodecSettings → ℤ → ℕ → CodecStatus → M (X264Encoder lib) CodecStatus
  unfolding set_up
  after_release c cores payload status =
      if is_ok status then check_closed >> set_up c cores payload else fails lib status

  unfoldable pub with_settings : ℤ → ℕ → Option CodecSettings → M (X264Encoder lib) CodecStatus
  unfolding after_release
  with_settings cores payload none = fails lib err_parameter
  with_settings cores payload (some c) =
      if not c.is_h264
      then fails lib err_parameter
      else if c.max_framerate == 0
      then fails lib err_parameter
      else if ltb c.width 1 || ltb c.height 1
      then fails lib err_parameter
      else release lib >>= after_release c cores payload

  unfoldable pub init_encode : Option CodecSettings → ℤ → ℕ → M (X264Encoder lib) CodecStatus
  unfolding with_settings
  init_encode settings cores payload = report_init lib >> with_settings cores payload settings

  abbrev pub reconfigured : ℤ → M (X264Encoder lib) CodecStatus
  reconfigured result = if is_negative result then pure err_parameter else pure ok

  unfoldable pub write_back : lib.Handle → Params lib.Rest → M (X264Encoder lib) CodecStatus
  write_back h params = get lib >>= λ s.
      ask lib (lib.encoder_reconfig h (record params { fps_num = s.target_fps })) >>= reconfigured

  -- The parameters are read into a local variable and written back with the new frame rate.
  unfoldable pub reconfigure : lib.Handle → M (X264Encoder lib) CodecStatus
  unfolding write_back
  reconfigure h = call lib (lib.encoder_parameters h local) >>= write_back h

  abbrev pub set_fps : ℕ → M (X264Encoder lib) (Unit {0})
  set_fps fps = modify lib (λ s. record s { target_fps = fps })

  unfoldable pub change_rate : ℕ → lib.Handle → M (X264Encoder lib) CodecStatus
  unfolding reconfigure
  change_rate framerate h = get lib >>= λ s.
      if ltb fps_high_threshold framerate && s.target_fps == 30
      then set_fps 60 >> reconfigure h
      else if ltb framerate fps_low_threshold && s.target_fps == 60
      then set_fps 30 >> reconfigure h
      else pure ok

  unfoldable pub encoding_rate : ℕ → ℕ → Option lib.Handle → M (X264Encoder lib) CodecStatus
  unfolding change_rate
  encoding_rate framerate frame_count none = pure ok
  encoding_rate framerate frame_count (some h) =
      if frame_count == 0 then pure ok else change_rate framerate h

  unfoldable pub rate_from : ℕ → M (X264Encoder lib) CodecStatus
  unfolding encoding_rate
  rate_from framerate = get lib >>= λ s. encoding_rate framerate s.frame_count s.encoder

  -- `sum_bps` and `sum_kbps` are what the `BitrateAllocation` answers.
  unfoldable pub set_rate_allocation : ℕ → ℕ → ℕ → M (X264Encoder lib) CodecStatus
  unfolding rate_from
  set_rate_allocation sum_bps sum_kbps framerate =
      if sum_bps == 0 || framerate == 0
      then pure err_parameter
      else modify lib (λ s. record s { target_kbps = sum_kbps; max_frame_rate = framerate })
        >> rate_from framerate
