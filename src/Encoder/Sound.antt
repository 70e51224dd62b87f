-- ===== src/Encoder/Sound.antt =====
-- What holds of an `X264Encoder` between its calls, and the calls in any order.
use mathlib.Core.Option.{none-ne-some}
use libcaffeine.Base.{
  ℕ, ◌<◌, if◌then◌else◌, Bool, true, false, not, ◌≡◌, refl, sym, ◌∙◌, ◌⊎◌, Option, none, some,
  has_value,
}
use libcaffeine.Base.Outcome.{
  Outcome, done, thrown, unfinished, undefined, M, pure, throw, continue, ◌>>=◌, ◌>>◌,
}
use libcaffeine.Encoder.Fragments.{size_limit}
use libcaffeine.Encoder.Content.{AreStored}
use libcaffeine.Encoder.Required.{shares}
use libcaffeine.Encoder.Units.{IsMemory, Backed}
use libcaffeine.Encoder.Library.{X264, Planes}
use libcaffeine.Encoder.Coding.{
  X264Encoder, CodecStatus, ok, codec_error, modify, report_error, errored, emptied, fails, close,
  release,
}
use libcaffeine.Encoder.Opening.{check_closed, set_up_failed}

-- The units that x264 gives stand in memory of their sizes, within what a `size_t` counts.
pub record IsX264 (lib : X264) : Type 0 where
  pub memory : IsMemory lib.memory
  pub stored :
      (h : lib.Handle) (type : ℕ) (p : Planes lib.Buffer) (pts : ℕ) (w : lib.World)
      → AreStored (lib.encoder_encode h type p pts w).0.nals
  pub room :
      (h : lib.Handle) (type : ℕ) (p : Planes lib.Buffer) (pts : ℕ) (w : lib.World)
      → shares (lib.encoder_encode h type p pts w).0.nals < size_limit

-- The frame rate is one of two, and an open encoder has a buffer of the size that it keeps.
pub record IsSound (lib : X264) (s : X264Encoder lib) : Type 0 where
  pub rate : (s.target_fps ≡ 30) ⊎ (s.target_fps ≡ 60)
  pub backed : (h : lib.Handle) → s.encoder ≡ some h → Backed s.image

module _ (lib : X264) where
  -- However the call ends.
  abbrev pub Keeps : {A : Type 0} → M (X264Encoder lib) A → Type 0
  Keeps m = (s : X264Encoder lib) → IsSound lib s → IsSound lib (m s).1

  continue-Keeps :
      {A : Type 0} {B : Type 0} (f : A → M (X264Encoder lib) B)
      → ((a : A) → Keeps (f a))
      → (o : Outcome A) (s : X264Encoder lib) → IsSound lib s
      → IsSound lib (continue f o s).1
  continue-Keeps f k (done a) s h = k a s h
  continue-Keeps f k thrown s h = h
  continue-Keeps f k unfinished s h = h
  continue-Keeps f k undefined s h = h

  pub bind-Keeps :
      {A : Type 0} {B : Type 0} (m : M (X264Encoder lib) A) (f : A → M (X264Encoder lib) B)
      → Keeps m
      → ((a : A) → Keeps (f a))
      → Keeps (m >>= f)
  bind-Keeps m f j k s h = continue-Keeps f k (m s).0 (m s).1 (j s h)

  pub then-Keeps :
      {A : Type 0} {B : Type 0} (m : M (X264Encoder lib) A) (n : M (X264Encoder lib) B)
      → Keeps m
      → Keeps n
      → Keeps (m >> n)
  then-Keeps m n j k s h = continue-Keeps (λ _. n) (λ _. k) (m s).0 (m s).1 (j s h)

  pub if-Keeps :
      {A : Type 0} (b : Bool) (m n : M (X264Encoder lib) A)
      → Keeps m
      → Keeps n
      → Keeps (if b then m else n)
  if-Keeps true m n j k = j
  if-Keeps false m n j k = k

  pub report_error-Keeps : Keeps (report_error lib)
  unfolding report_error
  report_error-Keeps s =
      if-Keeps s.has_reported_error (pure tt) (modify lib (errored lib)) (λ s k. k)
        (λ s k. record { rate = k.rate; backed = k.backed }) s

  pub fails-Keeps : (status : CodecStatus) → Keeps (fails lib status)
  unfolding fails
  fails-Keeps status = then-Keeps (report_error lib) (pure status) report_error-Keeps (λ s k. k)

  -- Closing first makes it true that the buffer of an open encoder is there.
  release_from :
      (o : Option lib.Handle) (s : X264Encoder lib)
      → s.encoder ≡ o
      → IsSound lib s
      → IsSound lib ((close lib o >> (modify lib (emptied lib) >> pure ok)) s).1
  unfolding close
  release_from none s e k = record {
    rate = k.rate;
    backed = λ h q. absurd (none-ne-some h (sym e ∙ q));
  }
  release_from (some h) s e k = record { rate = k.rate; backed = λ h q. absurd (none-ne-some h q) }

  pub release-Keeps : Keeps (release lib)
  unfolding release
  release-Keeps s k = release_from s.encoder s refl k

  pub check_closed-Keeps : Keeps (check_closed lib)
  check_closed-Keeps s =
      if-Keeps (not (has_value s.encoder)) (pure tt) throw (λ s k. k) (λ s k. k) s

  pub set_up_failed-Keeps : Keeps (set_up_failed lib)
  set_up_failed-Keeps =
      then-Keeps (check_closed lib) (fails lib codec_error) check_closed-Keeps
        (fails-Keeps codec_error)
