-- ===== src/Policy/Aspect.antt =====
-- Which frame sizes pass the aspect ratio check.
use libcaffeine.Base.{ℕ, ◌*◌, ◌≤◌, ◌≡◌, ◌↔◌, arith}
use libcaffeine.Base.Int.{pos}
use libcaffeine.Api.{success, aspect_too_narrow, aspect_too_wide}
use libcaffeine.Policy.{check_aspect_ratio}

-- A frame of a width and a height that are not negative passes exactly if neither side is more
-- than three times the other.
check_aspect_ratio-success :
    (w h : ℕ) → (check_aspect_ratio (pos w) (pos h) ≡ success) ↔ ((w ≤ 3 * h) × (h ≤ 3 * w))
unfolding check_aspect_ratio
check_aspect_ratio-success w h = (λ e. ground arith, λ p. ground arith)

-- For sides that are not negative, a frame is too wide exactly if the frame turned by a right
-- angle is too narrow.
pub check_aspect_ratio_transpose :
    (w h : ℕ)
    → (check_aspect_ratio (pos w) (pos h) ≡ aspect_too_wide)
      ↔ (check_aspect_ratio (pos h) (pos w) ≡ aspect_too_narrow)
unfolding check_aspect_ratio
check_aspect_ratio_transpose w h = (λ e. ground arith, λ e. ground arith)
