-- ===== src/Interface/Library.antt =====
-- `caff_initialize` of src/Caffeine.cpp.
use mathlib.Core.Path.{subst}
use libcaffeine.Base.{Bool, if◌then◌else◌, Option, none, some, [], ◌∷◌, ◌≡◌, refl, sym, ap, ◌∙◌}
use libcaffeine.Base.Int.{ℤ}
use libcaffeine.Base.Bytes.{Bytes}
use libcaffeine.Base.Outcome.{Outcome, done, M, continue, pure, or_throw, ◌>>=◌, ◌>>◌}
use libcaffeine.Api.{CaffResult, success, failure, LogLevel}
use libcaffeine.Utils.{CString}
use libcaffeine.Logging.{Severity, caff_to_rtc_severity}
use libcaffeine.Interface.{catch_all, enumerator, log_levels}

-- Where WebRTC's log goes: to the debugger, or to a sink with a lowest severity.
pub data Log (Callback : Type 0) : Type 0 where
  to_debug : Log Callback
  to_sink : Callback → Severity → Log Callback

-- The globals. `result` is the static variable, `none` before the first call.
pub record Globals (Callback : Type 0) : Type 0 where
  pub result : Option CaffResult
  pub client_type : Bytes
  pub client_version : Bytes
  pub log : Log Callback
  pub ssl : Bool

module _ {Callback : Type 0} (initialize_ssl : Bool) where
  abbrev set : (Globals Callback → Globals Callback) → M (Globals Callback) (Unit {0})
  set f g = (done tt, f g)

  log_to : Option Callback → LogLevel → M (Globals Callback) (Unit {0})
  log_to none level = set (λ g. record g { log = to_debug })
  log_to (some callback) level =
      set (λ g. record g { log = to_sink callback (caff_to_rtc_severity level) })

  -- `rtc::InitializeSSL` answers `initialize_ssl`.
  unfoldable start_ssl : M (Globals Callback) CaffResult
  start_ssl =
      set (λ g. record g { ssl = initialize_ssl })
      >> pure (if initialize_ssl then success else failure)

  unfoldable pub with_version : CString → M (Globals Callback) CaffResult
  unfolding start_ssl
  with_version none = pure failure
  with_version (some []) = pure failure
  with_version (some (c ∷ v)) = set (λ g. record g { client_version = c ∷ v }) >> start_ssl

  unfoldable with_type : CString → CString → M (Globals Callback) CaffResult
  unfolding with_version
  with_type none version = pure failure
  with_type (some []) version = pure failure
  with_type (some (c ∷ t)) version =
      set (λ g. record g { client_type = c ∷ t }) >> with_version version

  -- The initialiser of the static variable.
  unfoldable first_initialize :
      CString → CString → LogLevel → Option Callback → M (Globals Callback) CaffResult
  unfolding log_to with_type
  first_initialize type version level callback = log_to callback level >> with_type type version

  keep : CaffResult → M (Globals Callback) CaffResult
  keep result = set (λ g. record g { result = some result }) >> pure result

  unfoldable pub once :
      Option CaffResult
      → CString
      → CString
      → LogLevel
      → Option Callback
      → M (Globals Callback) CaffResult
  unfolding first_initialize keep
  once (some result) type version level callback = pure result
  once none type version level callback = first_initialize type version level callback >>= keep

  unfoldable pub initialize :
      CString → CString → ℤ → Option Callback → M (Globals Callback) CaffResult
  unfolding once catch_all enumerator
  initialize type version level callback g =
      catch_all failure
        ((or_throw (enumerator log_levels level) >>= λ l. once g.result type version l callback) g)

  -- What a call leaves behind, its result being kept.
  abbrev Kept : Outcome CaffResult × Globals Callback → Type 0
  Kept r = (x : CaffResult) × (r.0 ≡ done x) × (r.1.result ≡ some x)

  with_type-done :
      (type version : CString) (g : Globals Callback)
      → (x : CaffResult) × ((with_type type version g).0 ≡ done x)
  unfolding with_type with_version start_ssl
  with_type-done none version g = (failure, refl)
  with_type-done (some []) version g = (failure, refl)
  with_type-done (some (c ∷ t)) none g = (failure, refl)
  with_type-done (some (c ∷ t)) (some []) g = (failure, refl)
  with_type-done (some (c ∷ t)) (some (d ∷ v)) g = (_, refl)

  first_initialize-done :
      (type version : CString) (level : LogLevel) (callback : Option Callback)
      → (g : Globals Callback)
      → (x : CaffResult) × ((first_initialize type version level callback g).0 ≡ done x)
  unfolding first_initialize log_to
  first_initialize-done type version level none g = with_type-done type version _
  first_initialize-done type version level (some callback) g = with_type-done type version _

  keep-Kept :
      (r : Outcome CaffResult × Globals Callback)
      → (x : CaffResult) × (r.0 ≡ done x)
      → Kept (continue keep r.0 r.1)
  unfolding keep
  keep-Kept r (x, e) = subst (λ o. Kept (continue keep o r.1)) (sym e) (x, refl, refl)

  once-Kept :
      (o : Option CaffResult) (type version : CString) (level : LogLevel)
      → (callback : Option Callback) (g : Globals Callback) → g.result ≡ o
      → Kept (once o type version level callback g)
  unfolding once
  once-Kept none type version level callback g e =
      keep-Kept (first_initialize type version level callback g)
        (first_initialize-done type version level callback g)
  once-Kept (some result) type version level callback g e = (result, refl, e)

  caught-Kept : (r : Outcome CaffResult × Globals Callback) → Kept r → Kept (catch_all failure r)
  unfolding catch_all
  caught-Kept r (x, e, h) =
      subst
        (λ o.
          Kept (catch_all failure (let q : Outcome CaffResult × Globals Callback = (o, r.1) in q)))
        (sym e) (x, refl, h)

  initialize-Kept :
      (g : Globals Callback) (type version : CString) (l : ℤ) (callback : Option Callback)
      → {level : LogLevel} → enumerator log_levels l ≡ some level
      → Kept (initialize type version l callback g)
  unfolding initialize
  initialize-Kept g type version l callback {level} e =
      subst
        (λ o.
          Kept (catch_all failure ((or_throw o >>= λ l. once g.result type version l callback) g)))
        (sym e) (caught-Kept _ (once-Kept g.result type version level callback g refl))

  initialize-later :
      (g : Globals Callback) (type version : CString) (l : ℤ) (callback : Option Callback)
      → {level : LogLevel} {x : CaffResult} → enumerator log_levels l ≡ some level
      → g.result ≡ some x
      → initialize type version l callback g ≡ (done x, g)
  unfolding initialize once catch_all
  initialize-later g type version l callback {level} {x} e h =
      ap (λ o. catch_all failure ((or_throw o >>= λ l. once g.result type version l callback) g)) e
      ∙ ap (λ r. catch_all failure (once r type version level callback g)) h

  -- If both calls of `caff_initialize` have valid log levels, then the second one, whatever its other
  -- arguments are, returns what the first one returned and changes nothing.
  pub initialize-initialize :
      (g : Globals Callback) (type version type' version' : CString) (l l' : ℤ)
      → (callback callback' : Option Callback) {level level' : LogLevel}
      → enumerator log_levels l ≡ some level
      → enumerator log_levels l' ≡ some level'
      → initialize type' version' l' callback' (initialize type version l callback g).1
        ≡ initialize type version l callback g
  initialize-initialize g type version type' version' l l' callback callback' e e' =
      go (initialize-Kept g type version l callback e)
    where
      r : Outcome CaffResult × Globals Callback
      r = initialize type version l callback g

      go : Kept r → initialize type' version' l' callback' r.1 ≡ r
      go (x, p, q) =
          initialize-later r.1 type' version' l' callback' e' q ∙ ap (λ o. (o, r.1)) (sym p)
