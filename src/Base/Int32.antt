-- ===== src/Base/Int32.antt =====
-- `int32_t` arithmetic on values that are not negative. `none` is undefined behaviour: a result
-- that does not fit, or a division by zero.
use Prim.Native.Nat.{ℕ, ◌+◌, ◌*◌, ◌/◌}
use mathlib.Core.Option.{Option, none, some}
use libcaffeine.Base.Tests.{ltb, ◌==◌, if◌then◌else◌}

abbrev pub i32_limit : ℕ
i32_limit = 2147483648

abbrev pub fits : ℕ → Option ℕ
fits n = if ltb n i32_limit then some n else none

abbrev pub add_i32 : ℕ → ℕ → Option ℕ
add_i32 a b = fits (a + b)

abbrev pub mul_i32 : ℕ → ℕ → Option ℕ
mul_i32 a b = fits (a * b)

abbrev pub div_i32 : ℕ → ℕ → Option ℕ
div_i32 a b = if b == 0 then none else some (a / b)

infixl 5 ◌>>=◌
abbrev pub ◌>>=◌ {ℓ κ} : {A : Type ℓ} {B : Type κ} → Option A → (A → Option B) → Option B
none >>= f = none
some a >>= f = f a
