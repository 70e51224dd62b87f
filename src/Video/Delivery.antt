-- ===== src/Video/Delivery.antt =====
-- The size of the frames that are handed on.
use libcaffeine.Base.{
  ℕ, ◌%◌, ◌≤◌, ◌≡◌, ◌∙◌, arith, false, some, Option-cases, inl, inr, ◌==◌, if◌then◌else◌,
}
use libcaffeine.Base.Int.{ℤ}
use libcaffeine.Base.Bytes.{Bytes}
use libcaffeine.Video.Size.{Size, fit, raise_to_min, cap_height, cap_width, round_up_to_even}
use libcaffeine.Video.Capture.{
  rotate_0, VideoApi, KeepsSize, PassesThrough, VideoCapturer, Adapted, Delivered, Sent,
  scale_and_deliver, convert_and_deliver, adapt_and_deliver, send_video,
}

module _ (api : VideoApi) (k : KeepsSize api) where
  open api use {Format, Buffer, size_of}

  -- The size of a frame that is handed on: the chosen one, unless its height is the given one.
  abbrev pub sent_size : Size → Size → Size
  sent_size given chosen = if chosen.height == given.height then given else chosen

  scale-size :
      (v : VideoCapturer) (given chosen : Size) (time : ℤ) (b : Buffer) {s : Sent api}
      {f : Delivered api}
      → size_of b ≡ given
      → scale_and_deliver api v given chosen time b ≡ some s
      → s.frame ≡ some f
      → size_of f.buffer ≡ sent_size given chosen
  unfolding scale_and_deliver
  scale-size v given chosen time b {s} {f} h e d = elim (Option-cases (api.create chosen)) [
    | inl c ↦ ground (arith, c)
    | inr (t, c) ↦ ground (arith, c, k.create_size chosen c, k.scale_size t b)
  ]

  convert-size :
      (v : VideoCapturer) (format : Format) (pixels : Bytes) (count : ℕ) (given chosen : Size)
      (time : ℤ) {s : Sent api} {f : Delivered api}
      → convert_and_deliver api v format pixels count given chosen time ≡ some s
      → s.frame ≡ some f
      → size_of f.buffer ≡ sent_size given chosen
  unfolding convert_and_deliver
  convert-size v format pixels count given chosen time {s} {f} e d =
      elim (Option-cases (api.create given)) [
        | inl c ↦ ground (arith, c)
        | inr (t, c) ↦
            let b = (api.convert pixels count t (0, 0) given (size_of t) rotate_0 format).1 in
            ground (
              arith,
              c,
              scale-size v given chosen time b {s = s} {f = f} (
                  k.convert_size pixels count t (0, 0) given (size_of t) rotate_0 format
                  ∙ k.create_size given c),
            )
      ]

  -- If buffers keep the size that they were created with, a frame that is handed on has the size
  -- that was chosen for it if the chosen height differs from the given one, and the given size
  -- otherwise.
  pub send_video-size :
      (v : VideoCapturer) (format : Format) (pixels : Bytes) (count : ℕ) (given : Size)
      (timestamp : ℤ) (a : Adapted) {s : Sent api} {f : Delivered api}
      → send_video api v format pixels count given timestamp ≡ some s
      → s.frame ≡ some f
      → api.adapt_frame v.adapter_enabled given timestamp ≡ some a
      → (chosen : Size) × (fit v.frame_width_max v.frame_height_max given a.size ≡ some chosen)
        × (size_of f.buffer ≡ sent_size given chosen)
  unfolding send_video adapt_and_deliver
  send_video-size v format pixels count given timestamp a {s} {f} e d p =
      elim (Option-cases (fit v.frame_width_max v.frame_height_max given a.size)) [
        | inl none_fits ↦ absurd (ground (arith, none_fits))
        | inr (chosen, q) ↦ (
          chosen,
          q,
          ground (
            arith,
            q,
            convert-size (record v { last_timestamp = timestamp }) format pixels count given chosen
                a.camera_time {s = s} {f = f},
          ),
        )
      ]

-- A frame that is not taller than wide, has an even height of at least 360, and is within the
-- limits.
pub record IsPlain (width_max height_max : ℕ) (s : Size) : Type 0 where
  pub landscape : s.height ≤ s.width
  pub tall_enough : 360 ≤ s.height
  pub height_even : s.height % 2 ≡ 0
  pub width_le : s.width ≤ width_max
  pub height_le : s.height ≤ height_max

fit-IsPlain :
    (wm hm : ℕ) (given chosen : Size)
    → IsPlain wm hm given
    → fit wm hm given given ≡ some chosen
    → chosen.height ≡ given.height
unfolding fit raise_to_min cap_height cap_width round_up_to_even
fit-IsPlain wm hm given chosen h e = ground (arith, h)

-- If buffers keep their size and WebRTC's adapter, switched off, proposes the given size, then a
-- frame of odd width that is not taller than wide, has an even height of at least 360 and is
-- within the limits is handed on, when it is, with an odd width.
pub send_video_odd_width :
    (api : VideoApi)
    → KeepsSize api
    → PassesThrough api
    → (v : VideoCapturer) (format : api.Format) (pixels : Bytes) (count : ℕ) (given : Size)
      (timestamp : ℤ) {s : Sent api} {f : Delivered api}
    → v.adapter_enabled ≡ false
    → IsPlain v.frame_width_max v.frame_height_max given
    → given.width % 2 ≡ 1
    → send_video api v format pixels count given timestamp ≡ some s
    → s.frame ≡ some f
    → (api.size_of f.buffer).width % 2 ≡ 1
send_video_odd_width api k through v format pixels count given timestamp off plain odd e d =
    let (a, same, at) = through.same_size given timestamp in
    let (chosen, q, size) =
      send_video-size api k v format pixels count given timestamp a e d (rw off same) in
    let kept = fit-IsPlain v.frame_width_max v.frame_height_max given chosen plain (rw at at q) in
    ground (arith, size, kept)
