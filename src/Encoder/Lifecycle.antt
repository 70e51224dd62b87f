-- ===== src/Encoder/Lifecycle.antt =====
-- An `X264Encoder` seen from outside: it is open or closed, and its calls open and close it.
use mathlib.Core.Path.{subst}
use libcaffeine.Base.{
  ℕ, ◌==◌, ltb, if◌then◌else◌, Bool, true, false, not, ◌||◌, ◌≡◌, refl, sym, Option, none, some,
  has_value,
}
use libcaffeine.Base.Int.{ℤ}
use libcaffeine.Base.Outcome.{Outcome, done, undefined, M, pure, continue, ◌>>=◌, ◌>>◌}
use libcaffeine.Encoder.Library.{X264, Params, allocated, borrowed, null, local}
use libcaffeine.Encoder.Coding.{
  X264Encoder, CodecSettings, CodecStatus, ok, err_parameter, codec_error, modify, ask, report_init,
  report_error, errored, reported, emptied, fails, close, release, configured, encoder_params,
}
use libcaffeine.Encoder.Opening.{
  init_encode, with_settings, after_release, set_up, set_up_failed, with_preset, with_picture,
  open_encoder, opened, with_image, is_zero,
}

-- What x264.h says: parameters are copied to the pointer that is given, and only the planes that x264
-- has allocated may be cleaned up.
pub record IsDocumented (lib : X264) : Type 0 where
  pub copies :
      (h : lib.Handle) (w : lib.World)
      → (params : Params lib.Rest) × ((lib.encoder_parameters h local w).0 ≡ done params)
  pub follows_null :
      (h : lib.Handle) (w : lib.World) → (lib.encoder_parameters h null w).0 ≡ undefined
  pub cleans : (w : lib.World) → (lib.picture_clean allocated w).0 ≡ done tt
  pub frees : (b : lib.Buffer) (w : lib.World) → (lib.picture_clean (borrowed b) w).0 ≡ undefined

-- How `InitEncode` ends, from a closed or an open encoder.
pub data InitStep : Outcome CodecStatus → Bool → Bool → Type 0 where
  opens : {b : Bool} → InitStep (done ok) b true
  refuses : {b : Bool} → InitStep (done err_parameter) b b
  breaks : {b : Bool} → InitStep (done codec_error) b false

module _ (lib : X264) where
  abbrev pub is_open : X264Encoder lib → Bool
  is_open s = has_value s.encoder

  abbrev Result : Type 0
  Result = Outcome CodecStatus × X264Encoder lib

  pub if-at :
      (P : Result → Type 0) (b : Bool) (m n : M (X264Encoder lib) CodecStatus)
      → (s : X264Encoder lib) → P (m s)
      → P (n s)
      → P ((if b then m else n) s)
  if-at P true m n s j k = j
  if-at P false m n s j k = k

  module _ (Q : Outcome CodecStatus → Bool → Type 0) where
    abbrev pub Ends : Result → Type 0
    Ends r = Q r.0 (is_open r.1)

    fails-Ends :
        (status : CodecStatus) (s : X264Encoder lib)
        → Q (done status) (is_open s)
        → Ends (fails lib status s)
    unfolding fails report_error
    fails-Ends status s q = go s.has_reported_error
      where
        go :
            (b : Bool)
            → Ends (((λ s. (if b then pure tt else modify lib (errored lib)) s) >> pure status) s)
        go true = q
        go false = q

    module _ (broken : Q (done codec_error) false) (works : Q (done ok) true)
        (documented : IsDocumented lib) where
      set_up_failed-Ends :
          (s : X264Encoder lib) → Ends (set_up_failed lib (record s { encoder = none }))
      set_up_failed-Ends s = fails-Ends codec_error (record s { encoder = none }) broken

      opened-Ends :
          (c : CodecSettings) (o : Option lib.Handle) (s : X264Encoder lib)
          → Ends (opened lib c o (record s { encoder = none; planes = allocated }))
      unfolding opened with_image
      opened-Ends c (some h) s = works
      opened-Ends c none s = go (lib.picture_clean allocated s.world).0 (documented.cleans s.world)
        where
          t : X264Encoder lib
          t = record s {
            encoder = none;
            planes = allocated;
            world = (lib.picture_clean allocated s.world).1;
          }

          go :
              (o : Outcome (Unit {0}))
              → o ≡ done tt
              → Ends (
                  continue
                    (λ _. modify lib (λ s. record s { encoder = none }) >> pure codec_error)
                    o
                    t)
          go o e =
              subst
                (λ o. Ends (
                  continue (λ _. modify lib (λ s. record s { encoder = none }) >> pure codec_error)
                    o t))
                (sym e) broken

      with_picture-Ends :
          (c : CodecSettings) (params : Params lib.Rest) (result : ℤ) (s : X264Encoder lib)
          → Ends (with_picture lib c params result (record s { encoder = none }))
      unfolding with_picture
      with_picture-Ends c params result s =
          if-at Ends (is_zero result)
            (modify lib (λ s. record s { planes = allocated })
              >> (ask lib (lib.encoder_open params) >>= opened lib c))
            (set_up_failed lib) (record s { encoder = none })
            (opened-Ends c (lib.encoder_open params s.world).0
              (record s { world = (lib.encoder_open params s.world).1 }))
            (set_up_failed-Ends s)

      open_encoder-Ends :
          (c : CodecSettings) (params : Params lib.Rest) (s : X264Encoder lib)
          → Ends (open_encoder lib c params (record s { encoder = none }))
      unfolding open_encoder
      open_encoder-Ends c params s =
          with_picture-Ends c params
            (lib.picture_alloc params.csp params.width params.height s.world).0
            (record s {
              world = (lib.picture_alloc params.csp params.width params.height s.world).1;
            })

      with_preset-Ends :
          (c : CodecSettings) (r : ℤ × lib.Rest) (s : X264Encoder lib)
          → Ends (with_preset lib c r (record s { encoder = none }))
      unfolding with_preset
      with_preset-Ends c (result, rest) s =
          if-at Ends (is_zero result)
            (λ s. open_encoder lib c (lib.param_apply_profile (encoder_params lib rest s)) s)
            (set_up_failed lib) (record s { encoder = none })
            (open_encoder-Ends c
              (lib.param_apply_profile (encoder_params lib rest (record s { encoder = none }))) s)
            (set_up_failed-Ends s)

      -- From a closed encoder.
      set_up-Ends :
          (c : CodecSettings) (cores : ℤ) (payload : ℕ) (s : X264Encoder lib)
          → Ends (after_release lib c cores payload ok (record s { encoder = none }))
      unfolding after_release set_up configured
      set_up-Ends c cores payload s =
          with_preset-Ends c (lib.param_default_preset s.world).0
            (record (configured lib c cores payload s) {
              world = (lib.param_default_preset s.world).1;
            })

      released-Ends :
          (c : CodecSettings) (cores : ℤ) (payload : ℕ) (o : Option lib.Handle)
          → (s : X264Encoder lib) → s.encoder ≡ o
          → Ends (
              (close lib o
                  >> (modify lib (emptied lib) >> pure ok)
                  >>= after_release lib c cores payload)
                s)
      unfolding close
      released-Ends c cores payload none s e =
          subst
            (λ o.
              Ends (after_release lib c cores payload ok (emptied lib (record s { encoder = o }))))
            (sym e) (set_up-Ends c cores payload (emptied lib s))
      released-Ends c cores payload (some h) s e =
          set_up-Ends c cores payload
            (record (emptied lib s) { world = lib.encoder_close h s.world })

      with_settings-Ends :
          (cores : ℤ) (payload : ℕ) (settings : Option CodecSettings) (s : X264Encoder lib)
          → Q (done err_parameter) (is_open s)
          → Ends (with_settings lib cores payload settings s)
      unfolding with_settings release
      with_settings-Ends cores payload none s q = fails-Ends err_parameter s q
      with_settings-Ends cores payload (some c) s q = unless (not c.is_h264) _ (
          unless (c.max_framerate == 0) _ (
            unless (ltb c.width 1 || ltb c.height 1)
              (release lib >>= after_release lib c cores payload)
              (released-Ends c cores payload s.encoder s refl)))
        where
          unless :
              (b : Bool) (m : M (X264Encoder lib) CodecStatus)
              → Ends (m s)
              → Ends ((if b then fails lib err_parameter else m) s)
          unless b m k = if-at Ends b (fails lib err_parameter) m s (fails-Ends err_parameter s q) k

  -- If x264 does what its header says of reading parameters and of cleaning up a picture, then
  -- `InitEncode` returns, from a closed or an open encoder: with OK it leaves an open one, with an
  -- error code a closed one, and with the code for a wrong parameter it leaves it open or closed as
  -- it was.
  pub init_encode-InitStep :
      IsDocumented lib
      → (settings : Option CodecSettings) (cores : ℤ) (payload : ℕ) (s : X264Encoder lib)
      → InitStep
          (init_encode lib settings cores payload s).0
          (is_open s)
          (is_open (init_encode lib settings cores payload s).1)
  unfolding init_encode report_init
  init_encode-InitStep documented settings cores payload s = go s.has_reported_init
    where
      Q : Outcome CodecStatus → Bool → Type 0
      Q o b = InitStep o (is_open s) b

      go :
          (b : Bool)
          → Ends Q (
              ((λ s. (if b then pure tt else modify lib (reported lib)) s)
                  >> with_settings lib cores payload settings)
                s)
      go true = with_settings-Ends Q breaks opens documented cores payload settings s refuses
      go false =
          with_settings-Ends Q breaks opens documented cores payload settings (reported lib s)
            refuses
