-- ===== src/Api.antt =====
-- The enumerations of include/caffeine.h.
use libcaffeine.Base.{Bool, true, false}

-- `caff_Result`.
pub data CaffResult : Type 0 where
  success failure : CaffResult
  username_required password_required refresh_token_required info_incorrect : CaffResult
  legal_acceptance_required email_verification_required : CaffResult
  mfa_otp_required mfa_otp_incorrect : CaffResult
  old_version not_signed_in out_of_capacity takeover already_broadcasting : CaffResult
  aspect_too_narrow aspect_too_wide disconnected : CaffResult
  internet_disconnected caffeine_unreachable broadcast_failed : CaffResult

-- As the condition of an `if`, where `success` is 0.
abbrev pub is_ok : CaffResult → Bool
is_ok success = true
is_ok _ = false

pub CaffResult-discrete : Discrete CaffResult
CaffResult-discrete = hlevel

-- `caff_Rating`.
pub data Rating : Type 0 where
  rating_none seventeen_plus : Rating

-- `caff_ConnectionQuality`.
pub data ConnectionQuality : Type 0 where
  good poor unknown : ConnectionQuality

-- `caff_LogLevel`.
pub data LogLevel : Type 0 where
  all_levels debug warning error no_levels : LogLevel
