-- ===== src/Tests/Encoding.antt =====
-- The encoder with a library that always gives the same two units.
use libcaffeine.Base.{
  ℕ, zero, suc, ◌*◌, ◌≡◌, refl, ap, arith, true, false, none, some, List, [], ◌∷◌, length, ◌++◌,
  replicate, inl,
}
use libcaffeine.Base.Int.{pos}
use libcaffeine.Base.Bytes.{Bytes}
use libcaffeine.Base.Outcome.{done, fault, undefined, M, pure}
use libcaffeine.Encoder.{Nal, Fragment, EncodedImage, empty_frame}
use libcaffeine.Encoder.Fragments.{Memory, rtp_fragmentize}
use libcaffeine.Encoder.Content.{AreStored, AreUnits, annex_b, contents, cut_all, entries}
use libcaffeine.Encoder.Units.{IsMemory, Backed}
use libcaffeine.Encoder.Delivered.{
  rtp_fragmentize-annex_b, rtp_fragmentize-contents, rtp_fragmentize-Settled, Settled,
}
use libcaffeine.Encoder.Library.{
  X264, Params, Planes, no_planes, allocated, borrowed, Destination, null, local, ImageInfo,
  single_nal_unit, unspecified,
}
use libcaffeine.Encoder.Coding.{X264Encoder, CodecSettings, realtime_video, new}
use libcaffeine.Encoder.Opening.{init_encode}
use libcaffeine.Encoder.Encode.{VideoFrame, encode}
use libcaffeine.Encoder.Sound.{IsX264, IsSound}
use libcaffeine.Encoder.Calls.{
  Call, init, register, set_rate, code, end, run_calls, run_calls-IsSound,
}
use libcaffeine.Encoder.Lifecycle.{IsDocumented, InitStep, is_open, init_encode-InitStep}
use libcaffeine.Encoder.Resized.{encode-undefined}
use libcaffeine.Encoder.Delivery.{Delivers, encode-Delivers}

abbrev two_units : List Nal
two_units =
    record { payload = 0 ∷ 0 ∷ 0 ∷ 1 ∷ 7 ∷ 8 ∷ []; i_payload = pos 6; long_startcode = true }
    ∷ record { payload = 0 ∷ 0 ∷ 1 ∷ 9 ∷ 10 ∷ []; i_payload = pos 5; long_startcode = false }
    ∷ []

two_units-AreStored : AreStored two_units
two_units-AreStored = (refl, (refl, tt))

two_units-AreUnits : AreUnits two_units
two_units-AreUnits = (omega arith, (omega arith, tt))

abbrev zeroed : Memory
zeroed = record { calc_buffer_size = λ w h. w * h; new_bytes = λ n. replicate n 0 }

length-replicate : (n : ℕ) → length {A = ℕ} (replicate n 0) ≡ n
length-replicate zero = refl
length-replicate (suc n) = ap suc (length-replicate n)

zeroed-IsMemory : IsMemory zeroed
zeroed-IsMemory = record { sized = length-replicate }

abbrev small_image : EncodedImage
small_image = record { buffer = some (1 ∷ 2 ∷ []); size = 2; length = 0 }

small_image-Backed : Backed small_image
small_image-Backed = (1 ∷ 2 ∷ [], refl, refl)

rtp_fragmentize-annex_b_example :
    (rest : Bytes) × ((rtp_fragmentize zeroed 4 4 two_units small_image).0
      ≡ done (entries 0 two_units))
    × ((rtp_fragmentize zeroed 4 4 two_units small_image).1.buffer
        ≡ some (annex_b two_units ++ rest))
    × ((rtp_fragmentize zeroed 4 4 two_units small_image).1.length ≡ length (annex_b two_units))
rtp_fragmentize-annex_b_example =
    rtp_fragmentize-annex_b zeroed zeroed-IsMemory 4 4 two_units small_image two_units-AreStored
      small_image-Backed (omega arith) two_units-AreUnits

rtp_fragmentize-contents_example :
    (fs : List Fragment) × (b : Bytes) × ((rtp_fragmentize zeroed 4 4 two_units small_image).0
      ≡ done fs)
    × ((rtp_fragmentize zeroed 4 4 two_units small_image).1.buffer ≡ some b)
    × (cut_all b fs ≡ contents two_units)
rtp_fragmentize-contents_example =
    rtp_fragmentize-contents zeroed zeroed-IsMemory 4 4 two_units small_image two_units-AreStored
      small_image-Backed (omega arith) two_units-AreUnits

rtp_fragmentize-Settled_example :
    Settled zeroed zeroed-IsMemory 4 4 two_units small_image two_units-AreStored small_image-Backed
      (omega arith)
rtp_fragmentize-Settled_example =
    rtp_fragmentize-Settled zeroed zeroed-IsMemory 4 4 two_units small_image two_units-AreStored
      small_image-Backed (omega arith)

abbrev clean : Planes (Unit {0}) → M (List (List Fragment)) (Unit {0})
clean no_planes = fault
clean allocated = pure tt
clean (borrowed b) = fault

abbrev parameters : Unit {0} → Destination → M (List (List Fragment)) (Params (Unit {0}))
parameters h null = fault
parameters h local = pure (record {
  rest = tt;
  log_level = 3;
  csp = 2;
  annexb = true;
  cabac = false;
  width = 4;
  height = 4;
  fps_den = 1;
  fps_num = 30;
  level_idc = 42;
  threads = 1;
  sliced_threads = false;
  intra_refresh = true;
  bframe = 0;
  nal_hrd = 2;
  rc_method = 1;
  bitrate = 500;
  rf_constant = 215;
  vbv_buffer_size = 500;
  vbv_max_bitrate = 500;
  vbv_buffer_init = 5;
  slice_max_size = none;
})

-- The world is the list of the headers that the callback was given.
abbrev coder : X264
coder = record {
  World = List (List Fragment);
  Handle = Unit {0};
  Rest = Unit {0};
  Buffer = Unit {0};
  Callback = Unit {0};
  memory = zeroed;
  param_default_preset = λ w. ((pos 0, tt), w);
  param_apply_profile = λ params. params;
  picture_alloc = λ csp width height w. (pos 0, w);
  picture_clean = clean;
  encoder_open = λ params w. (some tt, w);
  encoder_close = λ h w. w;
  encoder_parameters = parameters;
  encoder_reconfig = λ h params w. (pos 0, w);
  encoder_encode = λ h type planes pts w. (record { size = pos 11; nals = two_units; type = 2 }, w);
  parse_bitstream = λ image w. (none, w);
  on_encoded_image = λ callback image info mode fs w. fs ∷ w;
  histogram = λ event w. w;
}

coder-IsX264 : IsX264 coder
coder-IsX264 = record {
  memory = zeroed-IsMemory;
  stored = λ h type planes pts w. two_units-AreStored;
  room = λ h type planes pts w. omega arith;
}

coder-IsDocumented : IsDocumented coder
coder-IsDocumented = record {
  copies = λ h w. (_, refl);
  follows_null = λ h w. refl;
  cleans = λ w. refl;
  frees = λ b w. refl;
}

abbrev no_info : ImageInfo
no_info = record {
  complete_frame = false;
  encoded_width = 0;
  encoded_height = 0;
  time_stamp = 0;
  ntp_time_ms = pos 0;
  capture_time_ms = pos 0;
  rotation = 0;
  content_type = unspecified;
  frame_type = empty_frame;
  qp = pos 0;
}

abbrev settings : CodecSettings
settings = record {
  is_h264 = true;
  max_framerate = 30;
  width = 4;
  height = 4;
  mode = realtime_video;
  frame_dropping_on = false;
  key_frame_interval = pos 0;
  max_bitrate = 500;
}

abbrev frame : VideoFrame (Unit {0})
frame = record {
  height = 4;
  i420 = tt;
  i420_width = 4;
  i420_height = 4;
  timestamp = 0;
  ntp_time_ms = pos 0;
  render_time_ms = pos 0;
  rotation = 0;
}

abbrev open_encoder : X264Encoder coder
open_encoder = record {
  world = [];
  encoder = some tt;
  planes = allocated;
  width = 4;
  height = 4;
  max_frame_rate = 30;
  target_kbps = 500;
  target_fps = 30;
  mode = realtime_video;
  enable_frame_dropping = false;
  key_frame_interval = pos 0;
  packetization_mode = single_nal_unit;
  max_payload_size = 1000;
  number_of_cores = pos 1;
  image = small_image;
  info = no_info;
  encoded_image_callback = some tt;
  has_reported_init = true;
  has_reported_error = false;
  frame_count = 0;
}

open_encoder-IsSound : IsSound coder open_encoder
open_encoder-IsSound = record { rate = inl refl; backed = λ h e. small_image-Backed }

abbrev some_calls : List (Call coder)
some_calls =
    init (some settings) (pos 1) 1000
    ∷ register (some tt)
    ∷ code frame none
    ∷ set_rate 500000 500 60
    ∷ code frame none
    ∷ end
    ∷ []

run_calls-IsSound_example : IsSound coder (run_calls coder some_calls (new coder none no_info []))
run_calls-IsSound_example = run_calls-IsSound coder coder-IsX264 some_calls none no_info []

init_encode-InitStep_example :
    InitStep
      (init_encode coder (some settings) (pos 1) 1000 open_encoder).0
      true
      (is_open coder (init_encode coder (some settings) (pos 1) 1000 open_encoder).1)
init_encode-InitStep_example =
    init_encode-InitStep coder coder-IsDocumented (some settings) (pos 1) 1000 open_encoder

encode-undefined_example :
    (encode coder (record frame { height = 8 }) none open_encoder).0 ≡ undefined
encode-undefined_example =
    encode-undefined coder coder-IsDocumented (record frame { height = 8 }) none open_encoder
      {h = tt} {callback = tt} refl refl (inl (omega arith))

encode-Delivers_example :
    Delivers coder coder-IsX264 frame open_encoder open_encoder-IsSound tt tt refl
      (encode coder frame none open_encoder)
encode-Delivers_example =
    encode-Delivers coder coder-IsX264 frame open_encoder open_encoder-IsSound tt tt refl refl refl
      refl two_units-AreUnits (λ e. absurd (ground arith))
