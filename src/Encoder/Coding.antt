-- ===== src/Encoder/Coding.antt =====
-- `X264Encoder` of src/X264Encoder.cpp: its object, its set-up and its end.
use libcaffeine.Base.{
  ℕ, ◌%◌, ◌^◌, ltb, leb, if◌then◌else◌, Bool, true, false, ◌||◌, Option, none, some,
}
use libcaffeine.Base.Int.{ℤ, pos}
use libcaffeine.Base.Bytes.{Bytes, text, bytes_eq}
use libcaffeine.Base.Outcome.{done, M, pure, ◌>>=◌, ◌>>◌}
use libcaffeine.Encoder.{
  high_quality_crf, normal_quality_crf, max_frame_height_high_quality_crf,
  min_bitrate_kbps_high_quality_crf, EncodedImage,
}
use libcaffeine.Encoder.Library.{
  X264, Params, Planes, no_planes, PacketizationMode, single_nal_unit, non_interleaved, ImageInfo,
  event_init, event_error,
}

-- The codes WEBRTC_VIDEO_CODEC_OK and so on that the encoder returns.
pub data CodecStatus : Type 0 where
  ok err_parameter codec_error uninitialized : CodecStatus

pub data CodecMode : Type 0 where
  realtime_video screensharing : CodecMode

-- The fields of `webrtc::VideoCodec` that are read.
pub record CodecSettings : Type 0 where
  pub is_h264 : Bool
  pub max_framerate : ℕ
  pub width : ℕ
  pub height : ℕ
  pub mode : CodecMode
  pub frame_dropping_on : Bool
  pub key_frame_interval : ℤ
  pub max_bitrate : ℕ

pub record X264Encoder (lib : X264) : Type 0 where
  pub world : lib.World
  pub encoder : Option lib.Handle
  pub planes : Planes lib.Buffer
  pub width : ℕ
  pub height : ℕ
  pub max_frame_rate : ℕ
  pub target_kbps : ℕ
  pub target_fps : ℕ
  pub mode : CodecMode
  pub enable_frame_dropping : Bool
  pub key_frame_interval : ℤ
  pub packetization_mode : PacketizationMode
  pub max_payload_size : ℕ
  pub number_of_cores : ℤ
  pub image : EncodedImage
  pub info : ImageInfo
  pub encoded_image_callback : Option lib.Callback
  pub has_reported_init : Bool
  pub has_reported_error : Bool
  pub frame_count : ℕ

-- `GetParam` with its answer: whether the parameter is there, and is "1".
packetization : Option Bytes → PacketizationMode
packetization none = single_nal_unit
packetization (some value) = if bytes_eq value (text "1") then non_interleaved else single_nal_unit

module _ (lib : X264) where
  -- The constructor, with the codec's packetization mode. `info` is what WebRTC initialises.
  unfoldable pub new : Option Bytes → ImageInfo → lib.World → X264Encoder lib
  unfolding packetization
  new value info world = record {
    world = world;
    encoder = none;
    planes = no_planes;
    width = 0;
    height = 0;
    max_frame_rate = 0;
    target_kbps = 0;
    target_fps = 30;
    mode = realtime_video;
    enable_frame_dropping = false;
    key_frame_interval = pos 0;
    packetization_mode = packetization value;
    max_payload_size = 0;
    number_of_cores = pos 0;
    image = record { buffer = none; size = 0; length = 0 };
    info = info;
    encoded_image_callback = none;
    has_reported_init = false;
    has_reported_error = false;
    frame_count = 0;
  }

  abbrev pub get : M (X264Encoder lib) (X264Encoder lib)
  get s = (done s, s)

  abbrev pub modify : (X264Encoder lib → X264Encoder lib) → M (X264Encoder lib) (Unit {0})
  modify f s = (done tt, f s)

  abbrev pub ask {ℓ} : {A : Type ℓ} → (lib.World → A × lib.World) → M (X264Encoder lib) A
  ask f s = let r = f s.world in (done r.0, record s { world = r.1 })

  abbrev pub tell : (lib.World → lib.World) → M (X264Encoder lib) (Unit {0})
  tell f s = (done tt, record s { world = f s.world })

  -- A call that may be undefined.
  abbrev pub call {ℓ} : {A : Type ℓ} → M lib.World A → M (X264Encoder lib) A
  call m s = let r = m s.world in (r.0, record s { world = r.1 })

  abbrev pub reported : X264Encoder lib → X264Encoder lib
  reported s = record s { has_reported_init = true; world = lib.histogram event_init s.world }

  abbrev pub errored : X264Encoder lib → X264Encoder lib
  errored s = record s { has_reported_error = true; world = lib.histogram event_error s.world }

  unfoldable pub report_init : M (X264Encoder lib) (Unit {0})
  report_init = get >>= λ s. if s.has_reported_init then pure tt else modify reported

  unfoldable pub report_error : M (X264Encoder lib) (Unit {0})
  report_error = get >>= λ s. if s.has_reported_error then pure tt else modify errored

  unfoldable pub fails : CodecStatus → M (X264Encoder lib) CodecStatus
  unfolding report_error
  fails status = report_error >> pure status

  unfoldable pub close : Option lib.Handle → M (X264Encoder lib) (Unit {0})
  close none = pure tt
  close (some h) = tell (lib.encoder_close h) >> modify (λ s. record s { encoder = none })

  -- The buffer goes, and its size stays as it was.
  abbrev pub emptied : X264Encoder lib → X264Encoder lib
  emptied s = record s { image = record s.image { buffer = none }; frame_count = 0 }

  unfoldable pub release : M (X264Encoder lib) CodecStatus
  unfolding close
  release = get >>= λ s. close s.encoder >> (modify emptied >> pure ok)

  unfoldable pub register_encode_complete_callback :
      Option lib.Callback → M (X264Encoder lib) CodecStatus
  register_encode_complete_callback callback =
      modify (λ s. record s { encoded_image_callback = callback }) >> pure ok

  unfoldable pub configured : CodecSettings → ℤ → ℕ → X264Encoder lib → X264Encoder lib
  configured c cores payload s = record s {
    number_of_cores = cores;
    width = c.width;
    height = c.height;
    max_frame_rate = c.max_framerate;
    mode = c.mode;
    enable_frame_dropping = c.frame_dropping_on;
    key_frame_interval = c.key_frame_interval;
    max_payload_size = payload;
    target_kbps = c.max_bitrate;
  }

  slice_limit : PacketizationMode → ℕ → Option ℕ
  slice_limit single_nal_unit payload = some (payload % 2 ^ 32)
  slice_limit non_interleaved payload = none

  -- The numbers are X264_LOG_DEBUG, X264_CSP_I420, X264_NAL_HRD_CBR and X264_RC_CRF.
  unfoldable pub encoder_params : lib.Rest → X264Encoder lib → Params lib.Rest
  unfolding slice_limit
  encoder_params rest s = record {
    rest = rest;
    log_level = 3;
    csp = 2;
    annexb = true;
    cabac = false;
    width = s.width;
    height = s.height;
    fps_den = 1;
    fps_num = s.target_fps;
    level_idc = 42;
    threads = 1;
    sliced_threads = false;
    intra_refresh = true;
    bframe = 0;
    nal_hrd = 2;
    rc_method = 1;
    bitrate = s.target_kbps;
    rf_constant =
        if leb max_frame_height_high_quality_crf s.height
          || ltb s.target_kbps min_bitrate_kbps_high_quality_crf
        then normal_quality_crf
        else high_quality_crf;
    vbv_buffer_size = s.target_kbps;
    vbv_max_bitrate = s.target_kbps;
    vbv_buffer_init = 5;
    slice_max_size = slice_limit s.packetization_mode s.max_payload_size;
  }
