-- ===== src/Video/Capture.antt =====
-- `VideoCapturer` of src/VideoCapturer.hpp and src/VideoCapturer.cpp. WebRTC's frame adapter and
-- buffers and libyuv's conversion are parameters.
use libcaffeine.Base.{
  ℕ, ◌+◌, ◌-◌, ◌^◌, ltb, ◌/◌, ◌==◌, if◌then◌else◌, Bool, true, false, Option, none, some,
}
use libcaffeine.Base.{◌≡◌}
use libcaffeine.Base.Int.{ℤ, pos, negsuc, ◌*ℤ◌, ◌-ℤ◌, ltb_ℤ}
use libcaffeine.Base.Bytes.{Bytes}
use libcaffeine.Policy.{max_fps, max_frame_width, max_frame_height}
use libcaffeine.Video.Size.{Size, fit}

-- `webrtc::VideoRotation`, and `libyuv::RotationMode` with the same four values.
pub data VideoRotation : Type 0 where
  rotation_0 rotation_90 rotation_180 rotation_270 : VideoRotation

pub data RotationMode : Type 0 where
  rotate_0 rotate_90 rotate_180 rotate_270 : RotationMode

pub convert_rotation_mode : VideoRotation → RotationMode
convert_rotation_mode rotation_0 = rotate_0
convert_rotation_mode rotation_90 = rotate_90
convert_rotation_mode rotation_180 = rotate_180
convert_rotation_mode rotation_270 = rotate_270

-- What the adapter answers: the proposed size and the translated camera time.
pub record Adapted : Type 0 where
  pub size : Size
  pub camera_time : ℤ

-- What the capturer calls during one frame, so `adapt_frame` is the adapter in the state that it is
-- in by then. `Format` is `webrtc::VideoType`. A conversion writes to a buffer and
-- returns libyuv's code, 0 for success.
pub record VideoApi : Type 1 where
  pub Format : Type 0
  pub Buffer : Type 0
  pub size_of : Buffer → Size
  pub create : Size → Option Buffer
  pub convert : Bytes → ℕ → Buffer → ℕ × ℕ → Size → Size → RotationMode → Format → ℕ × Buffer
  pub scale_from : Buffer → Buffer → Buffer
  pub adapt_frame : Bool → Size → ℤ → Option Adapted

-- What WebRTC and libyuv document of these: a created buffer has the size asked for, and writing
-- to a buffer leaves its size alone.
pub record KeepsSize (api : VideoApi) : Type 0 where
  pub create_size : (s : Size) {b : api.Buffer} → api.create s ≡ some b → api.size_of b ≡ s
  pub convert_size :
      (frame : Bytes) (count : ℕ) (b : api.Buffer) (crop : ℕ × ℕ) (src dst : Size)
      (mode : RotationMode) (format : api.Format)
      → api.size_of (api.convert frame count b crop src dst mode format).1 ≡ api.size_of b
  pub scale_size : (b from : api.Buffer) → api.size_of (api.scale_from b from) ≡ api.size_of b

-- With its adapter off, WebRTC proposes the size of the frame itself.
pub record PassesThrough (api : VideoApi) : Type 0 where
  pub same_size :
      (given : Size) (time : ℤ)
      → (a : Adapted) × (api.adapt_frame false given time ≡ some a) × (a.size ≡ given)

pub record VideoCapturer : Type 0 where
  pub last_timestamp : ℤ
  pub inter_frame_limit : ℕ
  pub frame_width_max : ℕ
  pub frame_height_max : ℕ
  pub adapter_enabled : Bool

-- The interval between frames, in microseconds.
abbrev pub interval : ℕ → ℕ
interval framerate = 1000000 / (framerate + 2)

-- Whether a result of signed 64-bit arithmetic is defined.
unfoldable pub fits_int64 : ℤ → Bool
fits_int64 (pos n) = ltb n (2 ^ 63)
fits_int64 (negsuc n) = ltb n (2 ^ 63)

-- `seconds::min()`, of a 64-bit count.
abbrev seconds_min : ℤ
seconds_min = negsuc (2 ^ 63 - 1)

unfoldable to_microseconds : ℤ → Option ℤ
unfolding fits_int64 ◌*ℤ◌
to_microseconds seconds = let n = seconds *ℤ pos 1000000 in if fits_int64 n then some n else none

new_from : Option ℤ → Option VideoCapturer
new_from none = none
new_from (some start) = some (record {
  last_timestamp = start;
  inter_frame_limit = interval max_fps;
  frame_width_max = max_frame_width;
  frame_height_max = max_frame_height;
  adapter_enabled = true;
})

-- The constructor. `none` is undefined behaviour.
unfoldable pub new : Option VideoCapturer
unfolding new_from to_microseconds
new = new_from (to_microseconds seconds_min)

unfoldable pub set_framerate_limit : ℕ → VideoCapturer → VideoCapturer
set_framerate_limit framerate v = record v { inter_frame_limit = interval framerate }

unfoldable pub set_frame_size_limit : ℕ → ℕ → VideoCapturer → VideoCapturer
set_frame_size_limit width height v = record v {
  frame_height_max = height;
  frame_width_max = width;
}

unfoldable pub enable_frame_adaption : Bool → VideoCapturer → VideoCapturer
enable_frame_adaption adapt_frames v = record v { adapter_enabled = adapt_frames }

module _ (api : VideoApi) where
  open api use {Format, Buffer, size_of, create, convert, scale_from, adapt_frame}

  turned : VideoRotation → Size → Size
  turned rotation_0 s = s
  turned rotation_90 s = record { width = s.height; height = s.width }
  turned rotation_180 s = s
  turned rotation_270 s = record { width = s.height; height = s.width }

  pub convert_to_i420 : Format → Bytes → ℕ → ℕ → Size → ℕ → VideoRotation → Buffer → ℕ × Buffer
  unfolding turned convert_rotation_mode
  convert_to_i420 format frame crop_x crop_y src sample_size rotation dst =
      convert frame sample_size dst (crop_x, crop_y) src (turned rotation (size_of dst))
        (convert_rotation_mode rotation) format

  -- A frame that `OnFrame` hands on: its buffer and time, and the size that was given.
  pub record Delivered : Type 0 where
    pub buffer : Buffer
    pub camera_time : ℤ
    pub given : Size

  -- The capturer afterwards, the frame that was handed on, and the returned buffer.
  pub record Sent : Type 0 where
    pub capturer : VideoCapturer
    pub frame : Option Delivered

  dropped : VideoCapturer → Option Sent
  dropped v = some (record { capturer = v; frame = none })

  deliver : VideoCapturer → Size → ℤ → Buffer → Option Sent
  deliver v given time b = some (record {
    capturer = v;
    frame = some (record { buffer = b; camera_time = time; given = given });
  })

  -- The converted frame is scaled if the chosen height is not the given one.
  unfoldable pub scale_and_deliver : VideoCapturer → Size → Size → ℤ → Buffer → Option Sent
  unfolding dropped deliver
  scale_and_deliver v given chosen time b =
      if chosen.height == given.height then deliver v given time b else elim (create chosen) [
        | none ↦ dropped v
        | some target ↦ deliver v given time (scale_from target b)
      ]

  unfoldable pub convert_and_deliver :
      VideoCapturer → Format → Bytes → ℕ → Size → Size → ℤ → Option Sent
  unfolding dropped convert_to_i420
  convert_and_deliver v format pixels count given chosen time = elim (create given) [
    | none ↦ dropped v
    | some blank ↦
        let (code, b) = convert_to_i420 format pixels 0 0 given count rotation_0 blank in
        if code == 0 then scale_and_deliver v given chosen time b else dropped v
  ]

  unfoldable pub adapt_and_deliver : VideoCapturer → Format → Bytes → ℕ → Size → ℤ → Option Sent
  unfolding dropped
  adapt_and_deliver v format pixels count given timestamp =
      elim (adapt_frame v.adapter_enabled given timestamp) [
        | none ↦ dropped v
        | some a ↦ elim (fit v.frame_width_max v.frame_height_max given a.size) [
          | none ↦ none
          | some chosen ↦ convert_and_deliver v format pixels count given chosen a.camera_time
        ]
      ]

  -- The source returns the buffer of the frame that it hands on, and null where it hands on none.
  -- `none` is undefined behaviour.
  unfoldable pub send_video : VideoCapturer → Format → Bytes → ℕ → Size → ℤ → Option Sent
  unfolding dropped
  send_video v format pixels count given timestamp =
      if fits_int64 (timestamp -ℤ v.last_timestamp)
      then (if ltb_ℤ (timestamp -ℤ v.last_timestamp) (pos v.inter_frame_limit)
          then dropped v
          else adapt_and_deliver (record v { last_timestamp = timestamp }) format pixels count given
              timestamp)
      else none
