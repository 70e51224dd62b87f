-- ===== src/Encoder/Library.antt =====
-- What `X264Encoder` calls: x264, and WebRTC with its bitstream parser and histograms.
use libcaffeine.Base.{ℕ, Bool, Option, List}
use libcaffeine.Base.Int.{ℤ}
use libcaffeine.Base.Outcome.{M}
use libcaffeine.Encoder.{FrameType, Nal, Fragment, EncodedImage}
use libcaffeine.Encoder.Fragments.{Memory}

-- The fields of `x264_param_t` that the encoder sets. `rest` are the others, from the preset.
-- A slice size of `none` is the preset's too; the factors are in tenths.
pub record Params (Rest : Type 0) : Type 0 where
  pub rest : Rest
  pub log_level : ℕ
  pub csp : ℕ
  pub annexb : Bool
  pub cabac : Bool
  pub width : ℕ
  pub height : ℕ
  pub fps_den : ℕ
  pub fps_num : ℕ
  pub level_idc : ℕ
  pub threads : ℕ
  pub sliced_threads : Bool
  pub intra_refresh : Bool
  pub bframe : ℕ
  pub nal_hrd : ℕ
  pub rc_method : ℕ
  pub bitrate : ℕ
  pub rf_constant : ℕ
  pub vbv_buffer_size : ℕ
  pub vbv_max_bitrate : ℕ
  pub vbv_buffer_init : ℕ
  pub slice_max_size : Option ℕ

-- The planes of `pictureIn`: none yet, those of x264, or those of a frame of WebRTC.
pub data Planes (Buffer : Type 0) : Type 0 where
  no_planes allocated : Planes Buffer
  borrowed : Buffer → Planes Buffer

-- Where `x264_encoder_parameters` is asked to write.
pub data Destination : Type 0 where
  null local : Destination

-- What `x264_encoder_encode` gives: a size or an error below 0, the units, and `i_type` of the picture.
pub record Encoded : Type 0 where
  pub size : ℤ
  pub nals : List Nal
  pub type : ℕ

pub data PacketizationMode : Type 0 where
  single_nal_unit non_interleaved : PacketizationMode

pub data ContentType : Type 0 where
  unspecified screenshare : ContentType

pub data EncoderEvent : Type 0 where
  event_init event_error : EncoderEvent

-- What an encoded image says of its frame.
pub record ImageInfo : Type 0 where
  pub complete_frame : Bool
  pub encoded_width : ℕ
  pub encoded_height : ℕ
  pub time_stamp : ℕ
  pub ntp_time_ms : ℤ
  pub capture_time_ms : ℤ
  pub rotation : ℕ
  pub content_type : ContentType
  pub frame_type : FrameType
  pub qp : ℤ

pub record X264 : Type 1 where
  pub World : Type 0
  pub Handle : Type 0
  pub Rest : Type 0
  -- the I420 planes of a frame
  pub Buffer : Type 0
  pub Callback : Type 0
  pub memory : Memory
  -- "veryfast", "zerolatency"
  pub param_default_preset : World → (ℤ × Rest) × World
  -- "baseline"
  pub param_apply_profile : Params Rest → Params Rest
  pub picture_alloc : ℕ → ℕ → ℕ → World → ℤ × World
  pub picture_clean : Planes Buffer → M World (Unit {0})
  pub encoder_open : Params Rest → World → Option Handle × World
  pub encoder_close : Handle → World → World
  pub encoder_parameters : Handle → Destination → M World (Params Rest)
  pub encoder_reconfig : Handle → Params Rest → World → ℤ × World
  -- the picture's type, its planes and its time
  pub encoder_encode : Handle → ℕ → Planes Buffer → ℕ → World → Encoded × World
  -- the quantizer of the last slice, where the parser finds one
  pub parse_bitstream : EncodedImage → World → Option ℤ × World
  pub on_encoded_image :
      Callback → EncodedImage → ImageInfo → PacketizationMode → List Fragment → World → World
  pub histogram : EncoderEvent → World → World
