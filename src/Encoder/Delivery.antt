-- ===== src/Encoder/Delivery.antt =====
-- A frame that `Encode` of src/X264Encoder.cpp hands on to WebRTC.
use mathlib.Core.Path.{subst}
use libcaffeine.Base.{
  ◌+◌, ◌%◌, ◌^◌, ◌<◌, lt→ltb, ==_iff, ◌++◌, if◌then◌else◌, false, ◌≡◌, ◌≢◌, refl, sym, ap, ◌∙◌,
  arith, Option, none, some, List, [], ◌∷◌, length,
}
use libcaffeine.Base.Int.{ℤ}
use libcaffeine.Base.Bytes.{Bytes}
use libcaffeine.Base.Outcome.{Outcome, done, M, pure, continue, ◌>>=◌, ◌>>◌}
use libcaffeine.Encoder.{Nal, Fragment, EncodedImage}
use libcaffeine.Encoder.Fragments.{rtp_fragmentize}
use libcaffeine.Encoder.Content.{annex_b, contents, cut_all, entries, AreUnits, cut_all-entries}
use libcaffeine.Encoder.Delivered.{rtp_fragmentize-annex_b}
use libcaffeine.Encoder.Library.{X264, Encoded, ImageInfo, borrowed, null}
use libcaffeine.Encoder.Coding.{X264Encoder, CodecStatus, ok, modify, ask, call}
use libcaffeine.Encoder.Opening.{is_negative}
use libcaffeine.Encoder.Encode.{
  VideoFrame, encode, encode_with, change_height, choose, unless_skipped, run_encoder, with_encoded,
  give_up, finish, described, fragmentize, with_fragments, deliver, with_qp,
}
use libcaffeine.Encoder.Sound.{IsX264, IsSound}

annex_b_pos : (nals : List Nal) → nals ≢ [] → 0 < length (annex_b nals)
annex_b_pos [] n = absurd (n refl)
annex_b_pos (nal ∷ nals) n = omega arith

module _ (lib : X264) where
  -- The call has returned, and its last act was to hand this image and these entries to the callback.
  abbrev Handed :
      lib.Callback → EncodedImage → List Fragment → Outcome CodecStatus × X264Encoder lib → Type 0
  Handed callback image fs r =
      (r.0 ≡ done ok)
      × ((info : ImageInfo) × (w : lib.World) × (r.1.world
            ≡ lib.on_encoded_image callback image info r.1.packetization_mode fs w))

  with_fragments-Handed :
      (callback : lib.Callback) (fs : List Fragment) (s : X264Encoder lib)
      → 0 < s.image.length
      → Handed callback s.image fs (with_fragments lib callback fs s)
  unfolding with_fragments deliver with_qp
  with_fragments-Handed callback fs s n =
      subst
        (λ b. Handed callback s.image fs (
          ((λ s.
                (if b
                    then ask lib (lib.parse_bitstream s.image) >>= with_qp lib callback fs
                    else pure tt)
                  s)
              >> (modify lib (λ s. record s { frame_count = (s.frame_count + 1) % 2 ^ 64 })
                  >> pure ok))
            s))
        (sym (lt→ltb 0 s.image.length n))
        (go (lib.parse_bitstream s.image s.world).0
          (record s { world = (lib.parse_bitstream s.image s.world).1 }))
    where
      go :
          (qp : Option ℤ) (t : X264Encoder lib)
          → Handed callback t.image fs (
              (with_qp lib callback fs qp
                  >> (modify lib (λ s. record s { frame_count = (s.frame_count + 1) % 2 ^ 64 })
                      >> pure ok))
                t)
      go none t = (refl, (t.info, t.world, refl))
      go (some qp) t = (refl, (record t.info { qp = qp }, t.world, refl))

  module _ (is : IsX264 lib) (frame : VideoFrame lib.Buffer) (s : X264Encoder lib)
      (sound : IsSound lib s) (h : lib.Handle) (callback : lib.Callback)
      (opened : s.encoder ≡ some h) where
    abbrev encoded : Encoded × lib.World
    encoded = lib.encoder_encode h 0 (borrowed frame.i420) s.frame_count s.world

    abbrev before : X264Encoder lib
    before = record s { planes = borrowed frame.i420; world = encoded.1 }

    -- What WebRTC gets: an image whose entries give back the contents of the units.
    abbrev pub Delivers : Outcome CodecStatus × X264Encoder lib → Type 0
    Delivers r =
        (fs : List Fragment) × (image : EncodedImage) × (b : Bytes) × (image.buffer ≡ some b)
        × (cut_all b fs ≡ contents encoded.0.nals)
        × Handed callback image fs r

    finish-Delivers :
        AreUnits encoded.0.nals
        → encoded.0.nals ≢ []
        → Delivers (finish lib callback frame encoded.0 before)
    unfolding finish described fragmentize
    finish-Delivers us some_units = go (
        rtp_fragmentize-annex_b lib.memory is.memory frame.i420_width frame.i420_height
          encoded.0.nals s.image (is.stored h 0 (borrowed frame.i420) s.frame_count s.world)
          (sound.backed h opened) (is.room h 0 (borrowed frame.i420) s.frame_count s.world) us)
      where
        q : Outcome (List Fragment) × EncodedImage
        q = rtp_fragmentize lib.memory frame.i420_width frame.i420_height encoded.0.nals s.image

        t : X264Encoder lib
        t = record (described lib frame encoded.0.type before) { image = q.1 }

        go :
            (rest : Bytes) × (q.0 ≡ done (entries 0 encoded.0.nals))
              × (q.1.buffer ≡ some (annex_b encoded.0.nals ++ rest))
              × (q.1.length ≡ length (annex_b encoded.0.nals))
            → Delivers (continue (with_fragments lib callback) q.0 t)
        go (rest, e, f, l) =
            subst (λ o. Delivers (continue (with_fragments lib callback) o t)) (sym e)
              (
                entries 0 encoded.0.nals,
                q.1,
                annex_b encoded.0.nals ++ rest,
                f,
                cut_all-entries [] rest encoded.0.nals,
                with_fragments-Handed callback (entries 0 encoded.0.nals) t
                    (subst (λ n. 0 < n) (sym l) (annex_b_pos encoded.0.nals some_units)),
              )

    -- If an open and sound encoder has a callback, a frame of its height comes without requested
    -- types, `new` and the units of x264 are as `IsX264` says, and x264 encodes it into units, at
    -- least one and each at least four bytes long, then `Encode` returns OK, and its last call hands
    -- the callback an image whose header cuts it into the contents of these units.
    pub encode-Delivers :
        s.encoded_image_callback ≡ some callback
        → s.height ≡ frame.height
        → is_negative encoded.0.size ≡ false
        → AreUnits encoded.0.nals
        → encoded.0.nals ≢ []
        → Delivers (encode lib frame none s)
    unfolding encode encode_with change_height choose unless_skipped run_encoder with_encoded
    encode-Delivers registered same encodes us some_units =
        subst Delivers
          (sym (
            ap (λ o. encode_with lib frame none o s.encoded_image_callback s) opened
            ∙ ap (λ o. encode_with lib frame none (some h) o s) registered
            ∙ ap
                (λ b.
                  ((λ s. (if b then pure tt else moved) s)
                      >> (choose lib none >>= unless_skipped lib h callback frame))
                    s)
                ((==_iff s.height frame.height).1 same)
            ∙ ap (λ b. (if b then give_up lib h else finish lib callback frame encoded.0) before)
                encodes))
          (finish-Delivers us some_units)
      where
        moved : M (X264Encoder lib) (Unit {0})
        moved =
            call lib (lib.encoder_parameters h null)
            >> modify lib (λ s. record s { height = frame.height })
