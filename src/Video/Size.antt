-- ===== src/Video/Size.antt =====
-- The size that a frame is scaled to, from `sendVideo` of src/VideoCapturer.cpp.
use libcaffeine.Base.{ℕ, ◌+◌, ◌-◌, ◌%◌, ltb, leb, if◌then◌else◌, ◌&&◌, Option, some}
use libcaffeine.Base.Int32.{add_i32, mul_i32, div_i32, ◌>>=◌}
use libcaffeine.Policy.{min_frame_dimension}

pub record Size : Type 0 where
  pub width : ℕ
  pub height : ℕ

-- a * b / c
abbrev pub mul_div : ℕ → ℕ → ℕ → Option ℕ
mul_div a b c = do p ← mul_i32 a b; div_i32 p c

-- At least 360 on the smaller side of the given frame, in proportion to it.
unfoldable pub raise_to_min : Size → Size → Option Size
raise_to_min given adapted =
    if leb given.height given.width && ltb adapted.height min_frame_dimension
    then (mul_div given.width min_frame_dimension given.height)
      >>= (λ w. some (record { width = w; height = min_frame_dimension }))
    else if ltb given.width given.height && ltb adapted.width min_frame_dimension
    then (mul_div given.height min_frame_dimension given.width)
      >>= (λ h. some (record { width = min_frame_dimension; height = h }))
    else some adapted

unfoldable pub cap_height : ℕ → Size → Option Size
cap_height height_max s =
    if ltb height_max s.height
    then (mul_div s.width height_max s.height)
      >>= (λ w. some (record { width = w; height = height_max }))
    else some s

unfoldable pub cap_width : ℕ → Size → Option Size
cap_width width_max s =
    if ltb width_max s.width
    then (mul_div s.height width_max s.width)
      >>= (λ h. some (record { width = width_max; height = h }))
    else some s

-- `(n + 1) & ~1`.
abbrev pub even_up : ℕ → ℕ
even_up n = n + 1 - (n + 1) % 2

unfoldable pub round_up_to_even : Size → Option Size
round_up_to_even s = do
  w ← add_i32 s.width 1
  h ← add_i32 s.height 1
  some (record { width = w - w % 2; height = h - h % 2 })

-- From the size of the given frame and the size that the adapter proposes.
unfoldable pub fit : ℕ → ℕ → Size → Size → Option Size
fit width_max height_max given adapted = do
  raised ← raise_to_min given adapted
  low ← cap_height height_max raised
  narrow ← cap_width width_max low
  round_up_to_even narrow
