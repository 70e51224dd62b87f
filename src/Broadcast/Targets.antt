-- ===== src/Broadcast/Targets.antt =====
-- The bitrate, frame rate and frame size that `start` chooses.
use libcaffeine.Base.{ℕ, ◌&&◌, Option, none, some, if◌then◌else◌}
use libcaffeine.Base.Int.{pos, pos_part, ltb_ℤ}
use libcaffeine.Base.Int32.{mul_i32, div_i32, ◌>>=◌}
use libcaffeine.Api.{is_ok}
use libcaffeine.Policy.{
  check_aspect_ratio, max_bits_per_second, max_fps, max_frame_width, max_frame_height,
}
use libcaffeine.Rest.Types.{EncoderSettings}

pub record Targets : Type 0 where
  pub max_bitrate : ℕ
  pub fps : ℕ
  pub frame_width : ℕ
  pub frame_height : ℕ

abbrev pub defaults : Targets
defaults = record {
  max_bitrate = max_bits_per_second;
  fps = max_fps;
  frame_width = max_frame_width;
  frame_height = max_frame_height;
}

unfoldable pub raise_fps : EncoderSettings → Targets → Targets
raise_fps e t =
    if ltb_ℤ (pos max_fps) e.framerate then record t { fps = pos_part e.framerate } else t

unfoldable pub raise_size : EncoderSettings → Targets → Targets
raise_size e t =
    if ltb_ℤ (pos max_frame_height) e.height && is_ok (check_aspect_ratio e.width e.height)
    then record t { frame_width = pos_part e.width; frame_height = pos_part e.height }
    else t

-- The frame rate and size are raised only with the bitrate.
unfoldable pub targets : Option EncoderSettings → Targets
unfolding raise_fps raise_size
targets none = defaults
targets (some e) =
    if ltb_ℤ (pos max_bits_per_second) e.target_bitrate
    then raise_size e (raise_fps e (record defaults { max_bitrate = pos_part e.target_bitrate }))
    else defaults

-- `targetMaxBitrate * 3 / 4` in `int` arithmetic.
unfoldable pub min_bitrate : ℕ → Option ℕ
min_bitrate n = mul_i32 n 3 >>= λ m. div_i32 m 4
