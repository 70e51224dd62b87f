-- ===== src/Encoder/Encode.antt =====
-- `Encode` of src/X264Encoder.cpp.
use libcaffeine.Base.{ℕ, ◌+◌, ◌%◌, ◌^◌, ◌==◌, ltb, if◌then◌else◌, Option, none, some, List, [], ◌∷◌}
use libcaffeine.Base.Int.{ℤ}
use libcaffeine.Base.Outcome.{M, pure, throw, ◌>>=◌, ◌>>◌}
use libcaffeine.Encoder.{
  FrameType, empty_frame, video_frame_key, video_frame_delta, Fragment,
  convert_to_webrtc_frame_type,
}
use libcaffeine.Encoder.Fragments.{rtp_fragmentize}
use libcaffeine.Encoder.Library.{
  X264, borrowed, null, Encoded, ContentType, unspecified, screenshare,
}
use libcaffeine.Encoder.Coding.{
  X264Encoder, CodecStatus, ok, codec_error, uninitialized, CodecMode, realtime_video,
  screensharing, get, modify, ask, tell, call, report_error, fails,
}
use libcaffeine.Encoder.Opening.{is_negative}

-- `webrtc::VideoFrame`: `i420_width` and `i420_height` are the sizes of its buffer as I420.
pub record VideoFrame (Buffer : Type 0) : Type 0 where
  pub height : ℕ
  pub i420 : Buffer
  pub i420_width : ℕ
  pub i420_height : ℕ
  pub timestamp : ℕ
  pub ntp_time_ms : ℤ
  pub render_time_ms : ℤ
  pub rotation : ℕ

-- What the requested types of a frame come to; the last two give `i_type`.
pub data Choice : Type 0 where
  skip force_key_frame automatic : Choice

choice : FrameType → Choice
choice empty_frame = skip
choice video_frame_key = force_key_frame
choice video_frame_delta = automatic

-- X264_TYPE_IDR and X264_TYPE_AUTO.
abbrev pub picture_type : Choice → ℕ
picture_type force_key_frame = 1
picture_type _ = 0

content_type : CodecMode → ContentType
content_type realtime_video = unspecified
content_type screensharing = screenshare

module _ (lib : X264) where
  -- One stream only.
  unfoldable pub choose : Option (List FrameType) → M (X264Encoder lib) Choice
  unfolding choice
  choose none = pure automatic
  choose (some []) = throw
  choose (some (t ∷ [])) = pure (choice t)
  choose (some (t ∷ u ∷ ts)) = throw

  -- The pointer that is passed is null, and still is behind the call, so the branch that would
  -- reconfigure the encoder is not taken.
  unfoldable pub change_height : lib.Handle → ℕ → M (X264Encoder lib) (Unit {0})
  change_height h height = get lib >>= λ s.
      if s.height == height
      then pure tt
      else call lib (lib.encoder_parameters h null)
        >> modify lib (λ s. record s { height = height })

  -- `rtpFragmentize` works on the encoder's image.
  unfoldable pub fragmentize : ℕ → ℕ → Encoded → M (X264Encoder lib) (List Fragment)
  fragmentize width height r s =
      let q = rtp_fragmentize lib.memory width height r.nals s.image in
      (q.0, record s { image = q.1 })

  unfoldable pub described : VideoFrame lib.Buffer → ℕ → X264Encoder lib → X264Encoder lib
  unfolding content_type
  described frame type s = record s {
    info = record s.info {
      encoded_width = frame.i420_width;
      encoded_height = frame.i420_height;
      time_stamp = frame.timestamp;
      ntp_time_ms = frame.ntp_time_ms;
      capture_time_ms = frame.render_time_ms;
      rotation = frame.rotation;
      content_type = content_type s.mode;
      frame_type = convert_to_webrtc_frame_type type;
    };
  }

  set_qp : Option ℤ → X264Encoder lib → X264Encoder lib
  set_qp none s = s
  set_qp (some qp) s = record s { info = record s.info { qp = qp } }

  abbrev hand_over : lib.Callback → List Fragment → M (X264Encoder lib) (Unit {0})
  hand_over callback fragments = get lib >>= λ s.
      tell lib (lib.on_encoded_image callback s.image s.info s.packetization_mode fragments)

  unfoldable pub with_qp : lib.Callback → List Fragment → Option ℤ → M (X264Encoder lib) (Unit {0})
  unfolding set_qp
  with_qp callback fragments qp = modify lib (set_qp qp) >> hand_over callback fragments

  -- An image without bytes is not delivered.
  unfoldable pub deliver : lib.Callback → List Fragment → M (X264Encoder lib) (Unit {0})
  unfolding with_qp
  deliver callback fragments = get lib >>= λ s.
      if ltb 0 s.image.length
      then ask lib (lib.parse_bitstream s.image) >>= with_qp callback fragments
      else pure tt

  unfoldable pub with_fragments : lib.Callback → List Fragment → M (X264Encoder lib) CodecStatus
  unfolding deliver
  with_fragments callback fragments =
      deliver callback fragments
      >> (modify lib (λ s. record s { frame_count = (s.frame_count + 1) % 2 ^ 64 }) >> pure ok)

  unfoldable pub finish :
      lib.Callback → VideoFrame lib.Buffer → Encoded → M (X264Encoder lib) CodecStatus
  unfolding fragmentize described with_fragments
  finish callback frame r =
      modify lib (described frame r.type)
      >> (fragmentize frame.i420_width frame.i420_height r >>= with_fragments callback)

  abbrev pub clean_up : M (X264Encoder lib) CodecStatus
  clean_up = get lib >>= λ s. call lib (lib.picture_clean s.planes) >> pure codec_error

  unfoldable pub give_up : lib.Handle → M (X264Encoder lib) CodecStatus
  give_up h =
      report_error lib
      >> (tell lib (lib.encoder_close h)
          >> (modify lib (λ s. record s { encoder = none }) >> clean_up))

  unfoldable pub with_encoded :
      lib.Handle → lib.Callback → VideoFrame lib.Buffer → Encoded → M (X264Encoder lib) CodecStatus
  unfolding finish give_up
  with_encoded h callback frame r =
      if is_negative r.size then give_up h else finish callback frame r

  unfoldable pub run_encoder :
      lib.Handle → lib.Callback → VideoFrame lib.Buffer → Choice → M (X264Encoder lib) CodecStatus
  unfolding with_encoded
  run_encoder h callback frame chosen =
      modify lib (λ s. record s { planes = borrowed frame.i420 })
      >> (get lib >>= λ s.
          ask lib (lib.encoder_encode h (picture_type chosen) s.planes s.frame_count)
          >>= with_encoded h callback frame)

  unfoldable pub unless_skipped :
      lib.Handle → lib.Callback → VideoFrame lib.Buffer → Choice → M (X264Encoder lib) CodecStatus
  unfolding run_encoder
  unless_skipped h callback frame skip = pure ok
  unless_skipped h callback frame force_key_frame = run_encoder h callback frame force_key_frame
  unless_skipped h callback frame automatic = run_encoder h callback frame automatic

  unfoldable pub encode_with :
      VideoFrame lib.Buffer
      → Option (List FrameType)
      → Option lib.Handle
      → Option lib.Callback
      → M (X264Encoder lib) CodecStatus
  unfolding change_height choose unless_skipped
  encode_with frame frame_types none callback = fails lib uninitialized
  encode_with frame frame_types (some h) none = fails lib uninitialized
  encode_with frame frame_types (some h) (some callback) =
      change_height h frame.height >> (choose frame_types >>= unless_skipped h callback frame)

  unfoldable pub encode :
      VideoFrame lib.Buffer → Option (List FrameType) → M (X264Encoder lib) CodecStatus
  unfolding encode_with
  encode frame frame_types =
      get lib >>= λ s. encode_with frame frame_types s.encoder s.encoded_image_callback
