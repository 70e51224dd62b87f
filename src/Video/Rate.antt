-- ===== src/Video/Rate.antt =====
-- The frame rate limit.
use libcaffeine.Base.{
  ℕ, ◌≡◌, arith, Option, none, some, Bool-cases, inl, inr, ◌⊎◌, Option-cases, none_ne_some, ◌∙◌,
  sym, List, [], ◌∷◌, ◌≤◌, ◌<◌, ◌+◌,
}
use mathlib.Core.Path.{subst}
use mathlib.Core.Option.{some-injective}
use libcaffeine.Base.Int.{ℤ, pos, pos_part, neg_part, ◌-ℤ◌, ltb_ℤ}
use libcaffeine.Base.Bytes.{Bytes}
use libcaffeine.Video.Size.{Size}
use libcaffeine.Video.Capture.{
  VideoApi, VideoCapturer, Sent, scale_and_deliver, convert_and_deliver, adapt_and_deliver,
  send_video,
}

-- `later` is at least `gap` microseconds after `earlier`.
abbrev pub Apart : ℕ → ℤ → ℤ → Type 0
Apart gap earlier later =
    gap + (pos_part earlier + neg_part later) ≤ pos_part later + neg_part earlier

-- `later` is less than `gap` microseconds after `earlier`, or before it.
abbrev pub TooEarly : ℕ → ℤ → ℤ → Type 0
TooEarly gap earlier later =
    pos_part later + neg_part earlier < gap + (pos_part earlier + neg_part later)

module _ (api : VideoApi) where
  open api use {Format}

  -- A frame comes less than one interval after the last one, nothing is changed and nothing handed
  -- on; or it comes at least one interval after the last one and becomes the last one, and nothing
  -- else of the capturer changes.
  abbrev pub Gated : VideoCapturer → ℤ → Sent api → Type 0
  Gated v timestamp s =
      (TooEarly v.inter_frame_limit v.last_timestamp timestamp
        × (s.capturer ≡ v)
        × (s.frame ≡ none))
      ⊎ (Apart v.inter_frame_limit v.last_timestamp timestamp
          × (s.capturer ≡ record v { last_timestamp = timestamp }))

  scale-capturer :
      (v : VideoCapturer) (given chosen : Size) (time : ℤ) (b : api.Buffer) {s : Sent api}
      → scale_and_deliver api v given chosen time b ≡ some s
      → s.capturer ≡ v
  unfolding scale_and_deliver
  scale-capturer v given chosen time b e = ground arith

  convert-capturer :
      (v : VideoCapturer) (format : Format) (pixels : Bytes) (count : ℕ) (given chosen : Size)
      (time : ℤ) {s : Sent api}
      → convert_and_deliver api v format pixels count given chosen time ≡ some s
      → s.capturer ≡ v
  unfolding convert_and_deliver
  convert-capturer v format pixels count given chosen time e = grind (arith, scale-capturer)

  adapt-capturer :
      (v : VideoCapturer) (format : Format) (pixels : Bytes) (count : ℕ) (given : Size) (time : ℤ)
      {s : Sent api}
      → adapt_and_deliver api v format pixels count given time ≡ some s
      → s.capturer ≡ v
  unfolding adapt_and_deliver
  adapt-capturer v format pixels count given time e = grind (arith, convert-capturer)

  -- If `sendVideo` is defined, the frame either comes less than one interval after the last one that
  -- was not refused, and then nothing is changed and nothing handed on, or comes at least one
  -- interval after it, and then its time alone is recorded.
  pub send_video-Gated :
      (v : VideoCapturer) (format : Format) (pixels : Bytes) (count : ℕ) (given : Size)
      (timestamp : ℤ) {s : Sent api}
      → send_video api v format pixels count given timestamp ≡ some s
      → Gated v timestamp s
  unfolding send_video ◌-ℤ◌
  send_video-Gated v format pixels count given timestamp {s} e =
      elim (Bool-cases (ltb_ℤ (timestamp -ℤ v.last_timestamp) (pos v.inter_frame_limit))) [
        | inl early ↦ inl (ground (arith, early), ground (arith, early), ground (arith, early))
        | inr late ↦ inr (
          ground (arith, late),
          adapt-capturer (record v { last_timestamp = timestamp }) format pixels count given
              timestamp {s = s} (ground (arith, late)),
        )
      ]

-- A frame that the application sends, and what the capturer calls for it.
pub record Input : Type 1 where
  pub api : VideoApi
  pub format : api.Format
  pub pixels : Bytes
  pub count : ℕ
  pub given : Size
  pub timestamp : ℤ

abbrev sent_video : VideoCapturer → (i : Input) → Option (Sent i.api)
sent_video v i = send_video i.api v i.format i.pixels i.count i.given i.timestamp

abbrev delivered_at : {api : VideoApi} → ℤ → Sent api → List ℤ → List ℤ
delivered_at t s ts = elim s.frame [ none ↦ ts | some f ↦ t ∷ ts ]

-- The timestamps of the frames that are handed on.
unfoldable pub delivery_times : VideoCapturer → List Input → Option (List ℤ)
delivery_times v [] = some []
delivery_times v (i ∷ is) = elim (sent_video v i) [
  | none ↦ none
  | some s ↦ elim (delivery_times s.capturer is) [
    | none ↦ none
    | some ts ↦ some (delivered_at i.timestamp s ts)
  ]
]

-- Each time is at least `gap` after the one before it, the first after `last`.
abbrev pub Spaced : ℕ → ℤ → List ℤ → Type 0
Spaced gap last [] = Unit {0}
Spaced gap last (t ∷ ts) = Apart gap last t × Spaced gap t ts

Spaced-earlier :
    (gap : ℕ) (first last : ℤ) (ts : List ℤ)
    → Apart gap first last
    → Spaced gap last ts
    → Spaced gap first ts
Spaced-earlier gap first last [] a h = tt
Spaced-earlier gap first last (t ∷ ts) a h = (omega arith, h.1)

cons-Spaced :
    (api : VideoApi) (v : VideoCapturer) (t : ℤ) (s : Sent api) (ts : List ℤ)
    → Gated api v t s
    → Spaced s.capturer.inter_frame_limit s.capturer.last_timestamp ts
    → Spaced v.inter_frame_limit v.last_timestamp (delivered_at t s ts)
cons-Spaced api v t s ts (inl (early, e, f)) h = rw f (rw e at h)
cons-Spaced api v t s ts (inr (a, e)) h = elim (Option-cases s.frame) [
  | inl f ↦ rw f (Spaced-earlier v.inter_frame_limit v.last_timestamp t ts a (rw e at h))
  | inr (d, f) ↦ rw f (a, rw e at h)
]

-- In any run of frames for which `sendVideo` is defined, the frames that are handed on lie at
-- least one interval apart, and the first at least one after the last frame before the run.
pub delivery_times-Spaced :
    (v : VideoCapturer) (inputs : List Input) {ts : List ℤ}
    → delivery_times v inputs ≡ some ts
    → Spaced v.inter_frame_limit v.last_timestamp ts
unfolding delivery_times
delivery_times-Spaced v [] e =
    subst (Spaced v.inter_frame_limit v.last_timestamp) (some-injective _ _ e) tt
delivery_times-Spaced v (i ∷ is) e = elim (Option-cases (sent_video v i)) [
  | inl f ↦ absurd (none_ne_some (sym (rw (f, delivery_times)) ∙ e))
  | inr (s, f) ↦ elim (Option-cases (delivery_times s.capturer is)) [
    | inl g ↦ absurd (none_ne_some (sym (rw (f, delivery_times, g)) ∙ e))
    | inr (us, g) ↦
        subst (Spaced v.inter_frame_limit v.last_timestamp)
          (some-injective _ _ (sym (rw (f, delivery_times, g)) ∙ e))
          (cons-Spaced i.api v i.timestamp s us
            (send_video-Gated i.api v i.format i.pixels i.count i.given i.timestamp f)
            (delivery_times-Spaced s.capturer is g))
  ]
]
