-- ===== src/Encoder.antt =====
-- src/X264Encoder.hpp, src/X264Encoder.cpp: the constants, the unit types that x264 and WebRTC share
-- with the encoder, and the image that the encoder keeps.
pub mod Fragments
pub mod Content
pub mod Required
pub mod Copying
pub mod Units
pub mod Delivered
pub mod Library
pub mod Coding
pub mod Opening
pub mod Encode
pub mod Sound
pub mod InitKeeps
pub mod RateKeeps
pub mod EncodeKeeps
pub mod Calls
pub mod Lifecycle
pub mod Rates
pub mod Resized
pub mod Delivery
use libcaffeine.Base.{ℕ, ◌==◌, if◌then◌else◌, Bool, Option}
use libcaffeine.Base.Int.{ℤ}
use libcaffeine.Base.Bytes.{Bytes}

abbrev pub long_startcode_size : ℕ
long_startcode_size = 4

abbrev pub short_startcode_size : ℕ
short_startcode_size = 3

-- Constant rate factors, in tenths.
abbrev pub high_quality_crf : ℕ
high_quality_crf = 180

abbrev pub normal_quality_crf : ℕ
normal_quality_crf = 215

abbrev pub max_frame_height_high_quality_crf : ℕ
max_frame_height_high_quality_crf = 720

abbrev pub min_bitrate_kbps_high_quality_crf : ℕ
min_bitrate_kbps_high_quality_crf = 1000

abbrev pub fps_high_threshold : ℕ
fps_high_threshold = 50

abbrev pub fps_low_threshold : ℕ
fps_low_threshold = 35

-- `webrtc::FrameType`, as far as video uses it.
pub data FrameType : Type 0 where
  empty_frame video_frame_key video_frame_delta : FrameType

-- The numbers are X264_TYPE_IDR, X264_TYPE_I, X264_TYPE_P, X264_TYPE_B and X264_TYPE_AUTO.
unfoldable pub convert_to_webrtc_frame_type : ℕ → FrameType
convert_to_webrtc_frame_type type =
    if type == 1
    then video_frame_key
    else if type == 2
    then video_frame_delta
    else if type == 3
    then video_frame_delta
    else if type == 5
    then video_frame_delta
    else if type == 0
    then video_frame_delta
    else empty_frame

-- `x264_nal_t`: `payload` is the memory behind `p_payload`, `i_payload` the size that goes with it.
pub record Nal : Type 0 where
  pub payload : Bytes
  pub i_payload : ℤ
  pub long_startcode : Bool

-- An entry of `RTPFragmentationHeader`.
pub record Fragment : Type 0 where
  pub offset : ℕ
  pub size : ℕ
  pub pl_type : ℕ
  pub time_diff : ℕ

-- `webrtc::EncodedImage`, with the memory behind `_buffer`, which `encodedImageBuffer` owns.
pub record EncodedImage : Type 0 where
  pub buffer : Option Bytes
  pub size : ℕ
  pub length : ℕ
