-- ===== src/Video/Bounds.antt =====
-- The sizes that `fit` chooses.
use libcaffeine.Base.{ℕ, ◌*◌, ◌/◌, ◌%◌, ◌≤◌, ◌<◌, ◌≡◌, refl, arith, Option, none, some}
use libcaffeine.Base.Int32.{◌>>=◌}
use libcaffeine.Video.Size.{
  Size, raise_to_min, cap_height, cap_width, even_up, round_up_to_even, fit,
}

-- The value is defined and has the property.
abbrev pub Yields {ℓ} : {A : Type ℓ} → Option A → (A → Type 0) → Type ℓ
Yields {A = A} o P = (a : A) × (o ≡ some a) × P a

-- Both sides are even and within the limits, rounded up to even numbers.
abbrev pub FitsIn : ℕ → ℕ → Size → Type 0
FitsIn w h s =
    (s.width ≤ even_up w) × (s.height ≤ even_up h) × (s.width % 2 ≡ 0) × (s.height % 2 ≡ 0)

mul-div-le : (a m n : ℕ) → m ≤ n → a * m / n ≤ a
mul-div-le a m n h = grind arith

cap_height-le : (m : ℕ) (s : Size) {t : Size} → cap_height m s ≡ some t → t.height ≤ m
unfolding cap_height
cap_height-le m s e = ground arith

cap_width-le :
    (m k : ℕ) (s : Size) {t : Size}
    → s.height ≤ k
    → cap_width m s ≡ some t
    → (t.width ≤ m) × (t.height ≤ k)
unfolding cap_width
cap_width-le m k s h e = ground (arith, mul-div-le s.height m s.width)

round-FitsIn :
    (w h : ℕ) (s : Size) {t : Size}
    → s.width ≤ w
    → s.height ≤ h
    → round_up_to_even s ≡ some t
    → FitsIn w h t
unfolding round_up_to_even
round-FitsIn w h s p q e = ground arith

>>=-eq-some {ℓ κ} :
    {A : Type ℓ} {B : Type κ} (m : Option A) (f : A → Option B) {b : B}
    → (m >>= f) ≡ some b
    → (a : A) × (m ≡ some a) × (f a ≡ some b)
>>=-eq-some none f h = cc
>>=-eq-some (some a) f h = (a, refl, h)

-- Where the arithmetic is defined, the chosen size has even sides within the frame size limit,
-- each limit rounded up to an even number.
pub fit-FitsIn :
    (width_max height_max : ℕ) (given adapted s : Size)
    → fit width_max height_max given adapted ≡ some s
    → FitsIn width_max height_max s
unfolding fit
fit-FitsIn wm hm given adapted s e =
    let (raised, e1, f1) = >>=-eq-some (raise_to_min given adapted) _ e in
    let (low, e2, f2) = >>=-eq-some (cap_height hm raised) _ f1 in
    let (narrow, e3, f3) = >>=-eq-some (cap_width wm low) _ f2 in
    let b = cap_width-le wm hm low (cap_height-le hm raised e2) e3 in
    round-FitsIn wm hm narrow b.0 b.1 f3

-- The size is defined, and no side is longer than `k`.
abbrev Sized : ℕ → Option Size → Type 0
Sized k none = ⊥
Sized k (some s) = (s.width ≤ k) × (s.height ≤ k)

-- A side in proportion to 360 is at most three times that.
scaled-le : (a c : ℕ) → 0 < c → a ≤ 3 * c → a * 360 / c ≤ 1080
scaled-le a c h k = grind arith

mul-le : (a b c d : ℕ) → a ≤ c → b ≤ d → a * b ≤ c * d
mul-le a b c d h k = grind arith

raise-Sized :
    (k : ℕ) (given adapted : Size)
    → 1080 ≤ k
    → given.width ≤ 16384
    → given.height ≤ 16384
    → 0 < given.width
    → 0 < given.height
    → given.width ≤ 3 * given.height
    → given.height ≤ 3 * given.width
    → adapted.width ≤ k
    → adapted.height ≤ k
    → Sized k (raise_to_min given adapted)
unfolding raise_to_min
raise-Sized k given adapted hk w h w0 h0 r t aw ah =
    ground (arith, scaled-le given.width given.height h0 r, scaled-le given.height given.width w0 t)

cap_height-Sized :
    (k m : ℕ) (s : Size)
    → k ≤ 16384
    → m ≤ 16384
    → s.width ≤ k
    → s.height ≤ k
    → Sized k (cap_height m s)
unfolding cap_height
cap_height-Sized k m s hk hm w h =
    ground (arith, mul-div-le s.width m s.height, mul-le s.width m 16384 16384)

cap_width-Sized :
    (k m : ℕ) (s : Size)
    → k ≤ 16384
    → m ≤ 16384
    → s.width ≤ k
    → s.height ≤ k
    → Sized k (cap_width m s)
unfolding cap_width
cap_width-Sized k m s hk hm w h =
    ground (arith, mul-div-le s.height m s.width, mul-le s.height m 16384 16384)

Sized-some :
    (k : ℕ) (o : Option Size)
    → Sized k o
    → (s : Size) × (o ≡ some s) × (s.width ≤ k) × (s.height ≤ k)
Sized-some k none h = absurd h
Sized-some k (some s) h = (s, refl, h.0, h.1)

round-defined :
    (s : Size) → s.width < 16385 → s.height < 16385 → (t : Size) × (round_up_to_even s ≡ some t)
unfolding round_up_to_even
round-defined s w h = (record { width = even_up s.width; height = even_up s.height }, ground arith)

-- No side of the given frame is longer than 16384 or than three times the other.
pub record IsShown (given : Size) : Type 0 where
  pub width_le : given.width ≤ 16384
  pub height_le : given.height ≤ 16384
  pub width_pos : 0 < given.width
  pub height_pos : 0 < given.height
  pub not_wide : given.width ≤ 3 * given.height
  pub not_narrow : given.height ≤ 3 * given.width

fit-eq-some :
    (wm hm : ℕ) (given adapted : Size) {raised low narrow s : Size}
    → raise_to_min given adapted ≡ some raised
    → cap_height hm raised ≡ some low
    → cap_width wm low ≡ some narrow
    → round_up_to_even narrow ≡ some s
    → fit wm hm given adapted ≡ some s
unfolding fit
fit-eq-some wm hm given adapted e1 e2 e3 e4 = rw (e1, e2, e3, e4)

-- For a frame with sides from 1 to 16384, neither more than three times the other, and with no
-- proposed side and no limit above 16384, the choice of the size has no overflow and no division
-- by zero, and the chosen size has even sides within the limits, each rounded up to an even
-- number.
pub fit-defined :
    (width_max height_max : ℕ) (given adapted : Size)
    → width_max ≤ 16384
    → height_max ≤ 16384
    → IsShown given
    → adapted.width ≤ 16384
    → adapted.height ≤ 16384
    → (s : Size) × (fit width_max height_max given adapted ≡ some s) × FitsIn width_max height_max s
fit-defined wm hm given adapted hw hh v aw ah =
    let (raised, e1, w1, h1) = Sized-some 16384 (raise_to_min given adapted) (
      raise-Sized 16384 given adapted (omega arith) v.width_le v.height_le v.width_pos v.height_pos
        v.not_wide v.not_narrow aw ah) in
    let (low, e2, w2, h2) =
      Sized-some 16384 (cap_height hm raised)
        (cap_height-Sized 16384 hm raised (omega arith) hh w1 h1) in
    let (narrow, e3, w3, h3) =
      Sized-some 16384 (cap_width wm low) (cap_width-Sized 16384 wm low (omega arith) hw w2 h2) in
    let (s, e4) = round-defined narrow (omega arith) (omega arith) in
    let e : fit wm hm given adapted ≡ some s = fit-eq-some wm hm given adapted e1 e2 e3 e4 in
    (s, e, fit-FitsIn wm hm given adapted s e)
