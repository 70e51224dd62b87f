-- ===== src/Encoder/EncodeKeeps.antt =====
-- `Encode` keeps an `X264Encoder` sound.
use mathlib.Core.Option.{none-ne-some}
use libcaffeine.Base.{ℕ, ◌+◌, ◌%◌, ◌^◌, ◌<◌, ◌==◌, ltb, Option, none, some, List, [], ◌∷◌}
use libcaffeine.Base.Int.{ℤ}
use libcaffeine.Base.Outcome.{pure, ◌>>=◌, ◌>>◌}
use libcaffeine.Encoder.{FrameType, Fragment}
use libcaffeine.Encoder.Fragments.{size_limit}
use libcaffeine.Encoder.Content.{AreStored}
use libcaffeine.Encoder.Required.{shares}
use libcaffeine.Encoder.Units.{IsMemory}
use libcaffeine.Encoder.Delivered.{rtp_fragmentize-Settled}
use libcaffeine.Encoder.Library.{X264, borrowed, null, Encoded}
use libcaffeine.Encoder.Coding.{
  ok, codec_error, uninitialized, modify, ask, tell, call, report_error,
}
use libcaffeine.Encoder.Opening.{is_negative}
use libcaffeine.Encoder.Encode.{
  VideoFrame, encode_with, unless_skipped, run_encoder, give_up, finish, deliver, fragmentize,
  described, change_height, choose, picture_type, Choice, skip, force_key_frame, automatic, with_qp,
  with_fragments, clean_up, with_encoded,
}
use libcaffeine.Encoder.Sound.{
  IsX264, Keeps, bind-Keeps, then-Keeps, if-Keeps, fails-Keeps, report_error-Keeps,
}

module _ (lib : X264) where
  change_height-Keeps : (h : lib.Handle) (height : ℕ) → Keeps lib (change_height lib h height)
  unfolding change_height
  change_height-Keeps h height s =
      if-Keeps lib (s.height == height) (pure tt)
        (call lib (lib.encoder_parameters h null) >> modify lib (λ s. record s { height = height }))
        (λ s k. k)
        (then-Keeps lib (call lib (lib.encoder_parameters h null))
          (modify lib (λ s. record s { height = height }))
          (λ s k. record { rate = k.rate; backed = k.backed })
          (λ s k. record { rate = k.rate; backed = k.backed }))
        s

  choose-Keeps : (types : Option (List FrameType)) → Keeps lib (choose lib types)
  unfolding choose
  choose-Keeps none s k = k
  choose-Keeps (some []) s k = k
  choose-Keeps (some (t ∷ [])) s k = k
  choose-Keeps (some (t ∷ u ∷ ts)) s k = k

  with_qp-Keeps :
      (callback : lib.Callback) (fs : List Fragment) (qp : Option ℤ)
      → Keeps lib (with_qp lib callback fs qp)
  unfolding with_qp
  with_qp-Keeps callback fs none s k = record { rate = k.rate; backed = k.backed }
  with_qp-Keeps callback fs (some qp) s k = record { rate = k.rate; backed = k.backed }

  deliver-Keeps :
      (callback : lib.Callback) (fs : List Fragment) → Keeps lib (deliver lib callback fs)
  unfolding deliver
  deliver-Keeps callback fs s =
      if-Keeps lib (ltb 0 s.image.length)
        (ask lib (lib.parse_bitstream s.image) >>= with_qp lib callback fs) (pure tt)
        (bind-Keeps lib (ask lib (lib.parse_bitstream s.image)) (with_qp lib callback fs)
          (λ s k. record { rate = k.rate; backed = k.backed }) (with_qp-Keeps callback fs))
        (λ s k. k) s

  with_fragments-Keeps :
      (callback : lib.Callback) (fs : List Fragment) → Keeps lib (with_fragments lib callback fs)
  unfolding with_fragments
  with_fragments-Keeps callback fs =
      then-Keeps lib (deliver lib callback fs)
        (modify lib (λ s. record s { frame_count = (s.frame_count + 1) % 2 ^ 64 }) >> pure ok)
        (deliver-Keeps callback fs) (λ s k. record { rate = k.rate; backed = k.backed })

  -- The encoder writes into the buffer that it has.
  finish-Keeps :
      IsMemory lib.memory
      → (callback : lib.Callback) (frame : VideoFrame lib.Buffer) (r : Encoded) → AreStored r.nals
      → shares r.nals < size_limit
      → Keeps lib (finish lib callback frame r)
  unfolding finish described fragmentize
  finish-Keeps memory callback frame r stored room s k =
      bind-Keeps lib (fragmentize lib frame.i420_width frame.i420_height r)
        (with_fragments lib callback)
        (λ s k. record {
          rate = k.rate;
          backed = λ h q.
              (rtp_fragmentize-Settled lib.memory memory frame.i420_width frame.i420_height r.nals
                s.image stored (k.backed h q) room).0;
        })
        (with_fragments-Keeps callback) (described lib frame r.type s)
        (record { rate = k.rate; backed = k.backed })

  give_up-Keeps : (h : lib.Handle) → Keeps lib (give_up lib h)
  unfolding give_up
  give_up-Keeps h =
      then-Keeps lib (report_error lib)
        (tell lib (lib.encoder_close h)
          >> (modify lib (λ s. record s { encoder = none }) >> clean_up lib))
        (report_error-Keeps lib)
        (λ s k.
          then-Keeps lib (λ s. call lib (lib.picture_clean s.planes) s) (pure codec_error)
            (λ s k. record { rate = k.rate; backed = k.backed }) (λ s k. k)
            (record s { world = lib.encoder_close h s.world; encoder = none })
            (record { rate = k.rate; backed = λ h q. absurd (none-ne-some h q) }))

  run_encoder-Keeps :
      IsX264 lib
      → (h : lib.Handle) (callback : lib.Callback) (frame : VideoFrame lib.Buffer)
      → (chosen : Choice) → Keeps lib (run_encoder lib h callback frame chosen)
  unfolding run_encoder with_encoded
  run_encoder-Keeps is h callback frame chosen s k =
      if-Keeps lib (is_negative r.0.size) (give_up lib h) (finish lib callback frame r.0)
        (give_up-Keeps h)
        (finish-Keeps is.memory callback frame r.0
          (is.stored h (picture_type chosen) (borrowed frame.i420) s.frame_count s.world)
          (is.room h (picture_type chosen) (borrowed frame.i420) s.frame_count s.world))
        (record s { planes = borrowed frame.i420; world = r.1 })
        (record { rate = k.rate; backed = k.backed })
    where
      r : Encoded × lib.World
      r = lib.encoder_encode h (picture_type chosen) (borrowed frame.i420) s.frame_count s.world

  unless_skipped-Keeps :
      IsX264 lib
      → (h : lib.Handle) (callback : lib.Callback) (frame : VideoFrame lib.Buffer)
      → (chosen : Choice) → Keeps lib (unless_skipped lib h callback frame chosen)
  unfolding unless_skipped
  unless_skipped-Keeps is h callback frame skip s k = k
  unless_skipped-Keeps is h callback frame force_key_frame s k =
      run_encoder-Keeps is h callback frame force_key_frame s k
  unless_skipped-Keeps is h callback frame automatic s k =
      run_encoder-Keeps is h callback frame automatic s k

  pub encode_with-Keeps :
      IsX264 lib
      → (frame : VideoFrame lib.Buffer) (types : Option (List FrameType))
      → (o : Option lib.Handle) (c : Option lib.Callback)
      → Keeps lib (encode_with lib frame types o c)
  unfolding encode_with
  encode_with-Keeps is frame types none c = fails-Keeps lib uninitialized
  encode_with-Keeps is frame types (some h) none = fails-Keeps lib uninitialized
  encode_with-Keeps is frame types (some h) (some callback) =
      then-Keeps lib (change_height lib h frame.height)
        (choose lib types >>= unless_skipped lib h callback frame)
        (change_height-Keeps h frame.height)
        (bind-Keeps lib (choose lib types) (unless_skipped lib h callback frame)
          (choose-Keeps types) (unless_skipped-Keeps is h callback frame))
