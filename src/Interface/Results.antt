-- ===== src/Interface/Results.antt =====
-- `caff_resultString` of src/Caffeine.cpp.
use libcaffeine.Base.{Option, none, some, List, [], ◌∷◌, ◌≡◌, refl, sym, ap, ◌∙◌, if◌then◌else◌}
use mathlib.Core.Option.{some-injective}
use libcaffeine.Base.Int.{ℤ}
use libcaffeine.Base.Bytes.{Bytes, text, bytes_eq}
use libcaffeine.Base.Outcome.{M, pure, or_throw, ◌>>=◌}
use libcaffeine.Api.{
  CaffResult, success, failure, username_required, password_required, refresh_token_required,
  info_incorrect, legal_acceptance_required, email_verification_required, mfa_otp_required,
  mfa_otp_incorrect, old_version, not_signed_in, out_of_capacity, takeover, already_broadcasting,
  aspect_too_narrow, aspect_too_wide, disconnected, internet_disconnected, caffeine_unreachable,
  broadcast_failed,
}
use libcaffeine.Interface.{catch_all, enumerator}

-- The order of include/caffeine.h.
abbrev all_results : List CaffResult
all_results =
    success ∷ failure ∷ username_required ∷ password_required ∷ refresh_token_required
    ∷ info_incorrect ∷ legal_acceptance_required ∷ email_verification_required ∷ mfa_otp_required
    ∷ mfa_otp_incorrect ∷ old_version ∷ not_signed_in ∷ out_of_capacity ∷ takeover
    ∷ already_broadcasting ∷ aspect_too_narrow ∷ aspect_too_wide ∷ disconnected
    ∷ internet_disconnected ∷ caffeine_unreachable ∷ broadcast_failed ∷ []

unfoldable result_text : CaffResult → Bytes
result_text success = text "Success"
result_text failure = text "Failure"
result_text username_required = text "Username required"
result_text password_required = text "Password required"
result_text refresh_token_required = text "Refresh token required"
result_text info_incorrect = text "Incorrect signin info"
result_text legal_acceptance_required = text "User must accept Terms of Service"
result_text email_verification_required = text "User must verify email address"
result_text mfa_otp_required = text "One-time password required"
result_text mfa_otp_incorrect = text "One-time password incorrect"
result_text old_version = text "Old version"
result_text not_signed_in = text "Not signed in"
result_text out_of_capacity = text "Out of capacity"
result_text takeover = text "Broadcast takeover"
result_text already_broadcasting = text "Already broadcasting"
result_text aspect_too_narrow = text "Aspect ratio too narrow"
result_text aspect_too_wide = text "Aspect ratio too wide"
result_text disconnected = text "Disconnected from server"
result_text broadcast_failed = text "Broadcast failed"
result_text internet_disconnected = text "Internet Connection Lost"
result_text caffeine_unreachable = text "Caffeine unreachable"

-- A null pointer where the check throws.
unfoldable result_string {ℓ} : {S : Type ℓ} → ℤ → M S (Option Bytes)
unfolding catch_all enumerator result_text
result_string result s =
    catch_all none
      ((or_throw (enumerator all_results result) >>= λ r. pure (some (result_text r))) s)

-- The first result with this text.
lookup : List CaffResult → Bytes → Option CaffResult
lookup [] t = none
lookup (r ∷ rs) t = if bytes_eq (result_text r) t then some r else lookup rs t

lookup-result_text : (r : CaffResult) → lookup all_results (result_text r) ≡ some r
unfolding lookup result_text bytes_eq
lookup-result_text success = refl
lookup-result_text failure = refl
lookup-result_text username_required = refl
lookup-result_text password_required = refl
lookup-result_text refresh_token_required = refl
lookup-result_text info_incorrect = refl
lookup-result_text legal_acceptance_required = refl
lookup-result_text email_verification_required = refl
lookup-result_text mfa_otp_required = refl
lookup-result_text mfa_otp_incorrect = refl
lookup-result_text old_version = refl
lookup-result_text not_signed_in = refl
lookup-result_text out_of_capacity = refl
lookup-result_text takeover = refl
lookup-result_text already_broadcasting = refl
lookup-result_text aspect_too_narrow = refl
lookup-result_text aspect_too_wide = refl
lookup-result_text disconnected = refl
lookup-result_text broadcast_failed = refl
lookup-result_text internet_disconnected = refl
lookup-result_text caffeine_unreachable = refl

result_text_injective : (a b : CaffResult) → result_text a ≡ result_text b → a ≡ b
result_text_injective a b e =
    some-injective _ _
      (sym (lookup-result_text a) ∙ ap (lookup all_results) e ∙ lookup-result_text b)
