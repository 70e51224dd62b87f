-- ===== src/Broadcast/Limits.antt =====
-- The bounds of the chosen bitrate, frame rate and frame size.
use libcaffeine.Base.{
  ℕ, ◌≤◌, ◌<◌, ◌*◌, ◌/◌, ◌≡◌, refl, arith, Option, none, some, true, ◌&&◌, Bool-cases, inl, inr,
  ◌⊎◌,
}
use libcaffeine.Base.Int.{ℤ, pos, negsuc, pos_part, ltb_ℤ}
use libcaffeine.Api.{CaffResult, success, is_ok}
use libcaffeine.Policy.{
  check_aspect_ratio, max_bits_per_second, max_fps, max_frame_height, max_frame_width,
}
use libcaffeine.Rest.Types.{EncoderSettings}
use libcaffeine.Broadcast.Targets.{Targets, defaults, targets, raise_fps, raise_size, min_bitrate}

-- The built-in bitrate and frame rate are never lowered; nothing is raised without the bitrate;
-- and the frame size is the built-in one, or one that is higher and has an accepted aspect ratio.
pub record Raises (t : Targets) : Type 0 where
  pub bitrate : max_bits_per_second ≤ t.max_bitrate
  pub fps : max_fps ≤ t.fps
  pub with_bitrate : (t ≡ defaults) ⊎ (max_bits_per_second < t.max_bitrate)
  pub size :
      ((t.frame_width ≡ max_frame_width) × (t.frame_height ≡ max_frame_height))
      ⊎ ((max_frame_height < t.frame_height)
          × (w : ℤ) × (pos_part w ≡ t.frame_width)
          × (check_aspect_ratio w (pos t.frame_height) ≡ success))

tall : (h : ℤ) → ltb_ℤ (pos max_frame_height) h ≡ true → pos (pos_part h) ≡ h
tall (pos n) e = refl
tall (negsuc n) e = absurd (ground arith)

is_ok-success : (r : CaffResult) → is_ok r ≡ true → r ≡ success
is_ok-success r e = ground arith

raised :
    (e : EncoderSettings) (t : Targets)
    → t.frame_width ≡ max_frame_width
    → t.frame_height ≡ max_frame_height
    → max_bits_per_second < t.max_bitrate
    → max_fps ≤ t.fps
    → Raises (raise_size e t)
unfolding raise_size
raised e t w h b f =
    elim (Bool-cases
      (ltb_ℤ (pos max_frame_height) e.height && is_ok (check_aspect_ratio e.width e.height))) [
        | inl high ↦
            rw (high, raise_size)
              (record {
                bitrate = omega arith;
                fps = f;
                with_bitrate = inr b;
                size = inr (
                  ground (arith, high),
                  e.width,
                  refl,
                  rw (tall e.height (ground (arith, high)))
                      (is_ok-success (check_aspect_ratio e.width e.height) (ground (arith, high))),
                );
              })
        | inr low ↦
            rw (low, raise_size)
              (record { bitrate = omega arith; fps = f; with_bitrate = inr b; size = inl (w, h) })
      ]

defaults-Raises : Raises defaults
defaults-Raises = record {
  bitrate = omega arith;
  fps = omega arith;
  with_bitrate = inl refl;
  size = inl (refl, refl);
}

-- Whatever the service answers about the encoder: the bitrate and the frame rate are never below
-- the built-in ones; all targets are the built-in ones unless the bitrate is higher; and the frame
-- size is the built-in one, or one that is higher and passes the aspect ratio check.
pub targets-Raises : (e : Option EncoderSettings) → Raises (targets e)
unfolding targets raise_fps
targets-Raises none = defaults-Raises
targets-Raises (some e) = elim (Bool-cases (ltb_ℤ (pos max_bits_per_second) e.target_bitrate)) [
  | inl high ↦
      rw (high, targets)
        (raised e (raise_fps e (record defaults { max_bitrate = pos_part e.target_bitrate }))
          (ground arith) (ground arith) (ground (arith, high)) (ground arith))
  | inr low ↦ rw (low, targets) defaults-Raises
]

-- The lower bitrate is defined exactly up to an upper one of 715827882, and then it is three
-- quarters of it, rounded down.
pub min_bitrate-defined :
    (n : ℕ)
    → ((n ≤ 715827882) × (min_bitrate n ≡ some (n * 3 / 4)))
      ⊎ ((715827882 < n) × (min_bitrate n ≡ none))
unfolding min_bitrate
min_bitrate-defined n = ground arith
