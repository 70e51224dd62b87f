-- ===== src/Encoder/Resized.antt =====
-- Where `Encode` of src/X264Encoder.cpp runs into undefined behaviour.
use libcaffeine.Base.{
  ℕ, ◌==◌, ==_iff, if◌then◌else◌, Bool, true, false, ◌≡◌, ◌≢◌, ◌⊎◌, inl, inr, ap, ◌∙◌, arith,
  Option, none, some, List,
}
use libcaffeine.Base.Outcome.{undefined, M, pure, continue, ◌>>=◌, ◌>>◌}
use libcaffeine.Encoder.{FrameType}
use libcaffeine.Encoder.Library.{X264, null, borrowed, Encoded, event_error}
use libcaffeine.Encoder.Coding.{X264Encoder, codec_error, modify, tell, call, report_error, errored}
use libcaffeine.Encoder.Opening.{is_negative}
use libcaffeine.Encoder.Encode.{
  VideoFrame, encode, encode_with, change_height, choose, unless_skipped, run_encoder, with_encoded,
  give_up, finish, clean_up,
}
use libcaffeine.Encoder.Lifecycle.{IsDocumented}

module _ (lib : X264) where
  followed :
      {A B : Type 0} (m : M (X264Encoder lib) A) (k : A → M (X264Encoder lib) B)
      → (s : X264Encoder lib) → (m s).0 ≡ undefined
      → ((m >>= k) s).0 ≡ undefined
  followed m k s e = ap (λ o. (continue k o (m s).1).0) e

  change_height-undefined :
      IsDocumented lib
      → (h : lib.Handle) (height : ℕ) (s : X264Encoder lib) → s.height ≢ height
      → (change_height lib h height s).0 ≡ undefined
  unfolding change_height
  change_height-undefined documented h height s n =
      ap (λ b. ((if b then pure tt else moved) s).0) different
      ∙ followed (call lib (lib.encoder_parameters h null))
          (λ _. modify lib (λ s. record s { height = height })) s
          (documented.follows_null h s.world)
    where
      moved : M (X264Encoder lib) (Unit {0})
      moved =
          call lib (lib.encoder_parameters h null) >> modify lib (λ s. record s { height = height })

      different : (s.height == height) ≡ false
      different = ground arith

  clean_up-undefined :
      IsDocumented lib
      → (b : lib.Buffer) (s : X264Encoder lib)
      → (clean_up lib (record s { planes = borrowed b })).0 ≡ undefined
  clean_up-undefined documented b s =
      followed (λ s. call lib (lib.picture_clean s.planes) s) (λ _. pure codec_error)
        (record s { planes = borrowed b }) (documented.frees b s.world)

  -- A failed encoding ends with the planes of the frame in the picture.
  give_up-undefined :
      IsDocumented lib
      → (h : lib.Handle) (b : lib.Buffer) (s : X264Encoder lib)
      → (give_up lib h (record s { planes = borrowed b })).0 ≡ undefined
  unfolding give_up report_error
  give_up-undefined documented h b s = go s.has_reported_error
    where
      t : X264Encoder lib
      t = record s { planes = borrowed b }

      go :
          (reported : Bool)
          → (((λ s. (if reported then pure tt else modify lib (errored lib)) s)
                >> (tell lib (lib.encoder_close h)
                    >> (modify lib (λ s. record s { encoder = none }) >> clean_up lib)))
              t).0
            ≡ undefined
      go true =
          clean_up-undefined documented b
            (record s { world = lib.encoder_close h s.world; encoder = none })
      go false = clean_up-undefined documented b (record (errored lib s) {
        world = lib.encoder_close h (lib.histogram event_error s.world);
        encoder = none;
      })

  -- A frame of another height than the encoder's; or one of its height, without requested types, at
  -- which the encoding fails.
  abbrev pub IsMisused :
      VideoFrame lib.Buffer → Option (List FrameType) → X264Encoder lib → lib.Handle → Type 0
  IsMisused frame types s h =
      (s.height ≢ frame.height)
      ⊎ ((s.height ≡ frame.height)
          × (types ≡ none)
          × (is_negative (lib.encoder_encode h 0 (borrowed frame.i420) s.frame_count s.world).0.size
              ≡ true))

  -- If x264 copies its parameters to the pointer that it is given and frees the planes of a picture,
  -- as its header says, so that a null pointer and planes that are not its own are undefined
  -- behaviour, then `Encode`, from an open encoder with a callback, runs into undefined behaviour for
  -- every frame whose height is not the encoder's, and for every frame of its height without requested
  -- types that x264 fails to encode.
  pub encode-undefined :
      IsDocumented lib
      → (frame : VideoFrame lib.Buffer) (types : Option (List FrameType)) (s : X264Encoder lib)
      → {h : lib.Handle} {callback : lib.Callback} → s.encoder ≡ some h
      → s.encoded_image_callback ≡ some callback
      → IsMisused frame types s h
      → (encode lib frame types s).0 ≡ undefined
  unfolding encode encode_with change_height choose unless_skipped run_encoder with_encoded
  encode-undefined documented frame types s {h} {callback} e c misused =
      ap (λ o. (encode_with lib frame types o s.encoded_image_callback s).0) e
      ∙ ap (λ o. (encode_with lib frame types (some h) o s).0) c
      ∙ go misused
    where
      moved : M (X264Encoder lib) (Unit {0})
      moved =
          call lib (lib.encoder_parameters h null)
          >> modify lib (λ s. record s { height = frame.height })

      r : Encoded × lib.World
      r = lib.encoder_encode h 0 (borrowed frame.i420) s.frame_count s.world

      go :
          IsMisused frame types s h
          → (encode_with lib frame types (some h) (some callback) s).0 ≡ undefined
      go (inl n) =
          followed (change_height lib h frame.height)
            (λ _. choose lib types >>= unless_skipped lib h callback frame) s
            (change_height-undefined documented h frame.height s n)
      go (inr (same, plain, fails)) =
          ap (λ t. (encode_with lib frame t (some h) (some callback) s).0) plain
          ∙ ap
              (λ b.
                (((λ s. (if b then pure tt else moved) s)
                    >> (choose lib none >>= unless_skipped lib h callback frame))
                  s).0)
              ((==_iff s.height frame.height).1 same)
          ∙ ap
              (λ b.
                ((if b then give_up lib h else finish lib callback frame r.0)
                  (record s { planes = borrowed frame.i420; world = r.1 })).0)
              fails
          ∙ give_up-undefined documented h frame.i420 (record s { world = r.1 })
