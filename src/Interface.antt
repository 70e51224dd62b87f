-- ===== src/Interface.antt =====
-- src/Caffeine.cpp: the C interface. An enumeration comes in as the integer that C passes.
pub mod Results
pub mod Library
pub mod Functions
pub mod Handles
use libcaffeine.Base.{
  Bool, true, false, if◌then◌else◌, Option, none, some, List, [], ◌∷◌, get_elem?,
}
use libcaffeine.Base.Int.{ℤ, pos, negsuc}
use libcaffeine.Base.Outcome.{Outcome, done, thrown, unfinished, undefined, M, pure, throw}
use libcaffeine.Api.{
  Rating, rating_none, seventeen_plus, LogLevel, all_levels, debug, warning, error, no_levels,
}

-- `CATCHALL_RETURN`.
unfoldable pub catch_all {ℓ κ} : {S : Type ℓ} {A : Type κ} → A → Outcome A × S → Outcome A × S
catch_all value (done a, s) = (done a, s)
catch_all value (thrown, s) = (done value, s)
catch_all value (unfinished, s) = (unfinished, s)
catch_all value (undefined, s) = (undefined, s)

-- The checks of an argument: they throw where it fails.
abbrev pub check {ℓ} : {S : Type ℓ} → Bool → M S (Unit {0})
check b = if b then pure tt else throw

-- `CHECK_ENUM`: the enumerator with this number, of those in the order of include/caffeine.h.
unfoldable pub enumerator {ℓ} : {A : Type ℓ} → List A → ℤ → Option A
enumerator values (pos n) = get_elem? values n
enumerator values (negsuc n) = none

abbrev pub ratings : List Rating
ratings = rating_none ∷ seventeen_plus ∷ []

abbrev pub log_levels : List LogLevel
log_levels = all_levels ∷ debug ∷ warning ∷ error ∷ no_levels ∷ []
