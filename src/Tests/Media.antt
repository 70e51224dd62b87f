-- ===== src/Tests/Media.antt =====
-- The title and size policy, the sound and the frames at concrete inputs.
use libcaffeine.Base.{◌≡◌, refl, sym, ◌%◌, arith, true, false, some, List, [], ◌∷◌, replicate}
use mathlib.Core.Option.{some-injective}
use libcaffeine.Base.Int.{pos, ◌-ℤ◌}
use libcaffeine.Base.Bytes.{Bytes, text}
use libcaffeine.Audio
use libcaffeine.Audio.Chunks.{IsReady, Streams, send_audio-Streams}
use libcaffeine.Video.Size.{Size, fit, raise_to_min, cap_height, cap_width, round_up_to_even}
use libcaffeine.Video.Bounds.{FitsIn, IsShown, fit-defined}
use libcaffeine.Video.Capture.{
  VideoApi, KeepsSize, PassesThrough, VideoCapturer, Sent, send_video, adapt_and_deliver,
  convert_and_deliver, scale_and_deliver, fits_int64,
}
use libcaffeine.Video.Rate.{
  Gated, Input, Spaced, delivery_times, send_video-Gated, delivery_times-Spaced,
}
use libcaffeine.Video.Delivery.{IsPlain, sent_size, send_video-size, send_video_odd_width}

abbrev spaced_title : Bytes
spaced_title = text "  Chess  "

abbrev device : Audio.AudioDevice
unfolding Audio.register_audio_callback Audio.new
device = Audio.register_audio_callback true Audio.new

device-IsReady : IsReady device
unfolding device
device-IsReady = record { sized = refl; inside = omega arith; transport = refl }

send_audio-Streams_example : Streams device (replicate 2000 7) 490
send_audio-Streams_example =
    send_audio-Streams device (replicate 2000 7) 490 device-IsReady (omega arith)

abbrev wide_frame : Size
wide_frame = record { width = 2560; height = 1440 }

wide_frame-IsShown : IsShown wide_frame
wide_frame-IsShown = record {
  width_le = omega arith;
  height_le = omega arith;
  width_pos = omega arith;
  height_pos = omega arith;
  not_wide = omega arith;
  not_narrow = omega arith;
}

fit-defined_example : (s : Size) × (fit 1280 720 wide_frame wide_frame ≡ some s) × FitsIn 1280 720 s
fit-defined_example =
    fit-defined 1280 720 wide_frame wide_frame (omega arith) (omega arith) wide_frame-IsShown
      (omega arith) (omega arith)

-- Buffers that are no more than their sizes.
abbrev sizes : VideoApi
sizes = record {
  Format = Unit {0};
  Buffer = Size;
  size_of = λ s. s;
  create = λ s. some s;
  convert = λ frame count b crop src dst mode format. (0, b);
  scale_from = λ b from. b;
  adapt_frame = λ enabled s time. some (record { size = s; camera_time = time });
}

sizes-KeepsSize : KeepsSize sizes
sizes-KeepsSize = record {
  create_size = λ s {b} e. sym (some-injective _ _ e);
  convert_size = λ frame count b crop src dst mode format. refl;
  scale_size = λ b from. refl;
}

sizes-PassesThrough : PassesThrough sizes
sizes-PassesThrough = record { same_size = λ given time. (_, refl, refl) }

abbrev capturer : VideoCapturer
capturer = record {
  last_timestamp = pos 0;
  inter_frame_limit = 31250;
  frame_width_max = 1280;
  frame_height_max = 720;
  adapter_enabled = false;
}

abbrev odd_frame : Size
odd_frame = record { width = 641; height = 480 }

abbrev odd_sent : Sent sizes
odd_sent = record {
  capturer = record capturer { last_timestamp = pos 40000 };
  frame = some (record { buffer = odd_frame; camera_time = pos 40000; given = odd_frame });
}

odd_frame_sent : send_video sizes capturer tt [] 0 odd_frame (pos 40000) ≡ some odd_sent
unfolding fits_int64 send_video adapt_and_deliver convert_and_deliver scale_and_deliver fit
    raise_to_min cap_height cap_width round_up_to_even ◌-ℤ◌
odd_frame_sent = refl

send_video-Gated_example : Gated sizes capturer (pos 40000) odd_sent
send_video-Gated_example =
    send_video-Gated sizes capturer tt [] 0 odd_frame (pos 40000) {s = odd_sent} odd_frame_sent

send_video-size_example :
    (chosen : Size) × (fit 1280 720 odd_frame odd_frame ≡ some chosen)
    × (odd_frame ≡ sent_size sizes sizes-KeepsSize odd_frame chosen)
send_video-size_example =
    send_video-size sizes sizes-KeepsSize capturer tt [] 0 odd_frame (pos 40000)
      (record { size = odd_frame; camera_time = pos 40000 }) {s = odd_sent}
      {f = record { buffer = odd_frame; camera_time = pos 40000; given = odd_frame }} odd_frame_sent
      refl refl

odd_frame-IsPlain : IsPlain 1280 720 odd_frame
odd_frame-IsPlain = record {
  landscape = omega arith;
  tall_enough = omega arith;
  height_even = refl;
  width_le = omega arith;
  height_le = omega arith;
}

send_video_odd_width_example : odd_frame.width % 2 ≡ 1
send_video_odd_width_example =
    send_video_odd_width sizes sizes-KeepsSize sizes-PassesThrough capturer tt [] 0 odd_frame
      (pos 40000) {s = odd_sent}
      {f = record { buffer = odd_frame; camera_time = pos 40000; given = odd_frame }} refl
      odd_frame-IsPlain refl odd_frame_sent refl

abbrev two_frames : List Input
two_frames =
    record {
      api = sizes;
      format = tt;
      pixels = [];
      count = 0;
      given = odd_frame;
      timestamp = pos 40000;
    }
    ∷ record {
      api = sizes;
      format = tt;
      pixels = [];
      count = 0;
      given = odd_frame;
      timestamp = pos 41000;
    }
    ∷ []

two_frames_times : delivery_times capturer two_frames ≡ some (pos 40000 ∷ [])
unfolding delivery_times fits_int64 send_video adapt_and_deliver convert_and_deliver
    scale_and_deliver fit raise_to_min cap_height cap_width round_up_to_even ◌-ℤ◌
two_frames_times = refl

delivery_times-Spaced_example :
    Spaced capturer.inter_frame_limit capturer.last_timestamp (pos 40000 ∷ [])
delivery_times-Spaced_example = delivery_times-Spaced capturer two_frames two_frames_times
