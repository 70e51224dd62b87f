-- ===== src/Utils.antt =====
-- src/Utils.hpp: C strings and trimming.
pub mod Trim
use libcaffeine.Base.{
  ℕ, ◌==◌, ltb, leb, if◌then◌else◌, Bool, true, false, ◌&&◌, ◌||◌, Option, none, some,
}
use libcaffeine.Base.{List, [], ◌∷◌, ◌++◌}
use libcaffeine.Base.Bytes.{Bytes}
use libcaffeine.Base.Int32.{◌>>=◌}
use mathlib.Core.List.{reverse}

-- A `char const *`: null, or the bytes before the terminating zero.
abbrev pub CString : Type 0
CString = Option Bytes

unfoldable pub is_empty_cstr : CString → Bool
is_empty_cstr none = true
is_empty_cstr (some []) = true
is_empty_cstr (some (c ∷ s)) = false

-- The spaces of the "C" locale: the blank, and the bytes from tab to carriage return.
unfoldable pub is_blank : ℕ → Bool
is_blank c = c == 32 || (leb 9 c && leb c 13)

-- `std::isspace` of a `char` that is passed as an `int`. Where `char` is signed, as here, a byte from
-- 128 on is a negative number, for which it is not defined.
unfoldable pub is_space : ℕ → Option Bool
unfolding is_blank
is_space c = if ltb c 128 then some (is_blank c) else none

-- `none` is undefined behaviour, here and below.
unfoldable pub skip_space : Option Bool → Bytes → Option Bytes → Option Bytes
skip_space none s rest = none
skip_space (some true) s rest = rest
skip_space (some false) s rest = some s

unfoldable pub ltrim : Bytes → Option Bytes
unfolding is_space skip_space
ltrim [] = some []
ltrim (c ∷ s) = let rest = ltrim s in skip_space (is_space c) (c ∷ s) rest

abbrev pub reversed : Option Bytes → Option Bytes
reversed none = none
reversed (some s) = some (reverse s)

-- The search runs over the reversed string, and the bytes behind its result are erased.
unfoldable pub rtrim : Bytes → Option Bytes
unfolding ltrim
rtrim s = reversed (ltrim (reverse s))

unfoldable pub trim : Bytes → Option Bytes
unfolding ltrim rtrim
trim s = ltrim s >>= rtrim
