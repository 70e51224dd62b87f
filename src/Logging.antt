-- ===== src/Logging.antt =====
-- src/LogSink.cpp: the severities of WebRTC's log and the levels of the application's.
use libcaffeine.Base.{Option, none, some, List, [], ◌∷◌, ◌≡◌, refl}
use libcaffeine.Base.Bytes.{Bytes}
use libcaffeine.Api.{LogLevel, all_levels, debug, warning, error, no_levels}
use libcaffeine.Base.Int32.{◌>>=◌}
use libcaffeine.Utils.{rtrim}

-- `rtc::LoggingSeverity`.
pub data Severity : Type 0 where
  ls_sensitive ls_verbose ls_info ls_warning ls_error ls_none : Severity

unfoldable rtc_to_caff_log_level : Severity → LogLevel
rtc_to_caff_log_level ls_sensitive = all_levels
rtc_to_caff_log_level ls_verbose = all_levels
rtc_to_caff_log_level ls_info = debug
rtc_to_caff_log_level ls_warning = warning
rtc_to_caff_log_level ls_error = error
rtc_to_caff_log_level ls_none = no_levels

unfoldable pub caff_to_rtc_severity : LogLevel → Severity
caff_to_rtc_severity all_levels = ls_sensitive
caff_to_rtc_severity debug = ls_info
caff_to_rtc_severity warning = ls_warning
caff_to_rtc_severity error = ls_error
caff_to_rtc_severity no_levels = ls_none

-- What the callback is called with, if there is one; `none` is undefined behaviour.
unfoldable on_log_message :
    {Callback : Type 0}
    → Option Callback
    → Bytes
    → Severity
    → Option (List (Callback × (LogLevel × Bytes)))
unfolding rtc_to_caff_log_level
on_log_message none message severity = some []
on_log_message (some callback) message severity =
    rtrim message >>= λ trimmed. some ((callback, (rtc_to_caff_log_level severity, trimmed)) ∷ [])

-- A level that the application chooses is the one that its messages come back with.
rtc_to_caff_log_level-caff_to_rtc_severity :
    (level : LogLevel) → rtc_to_caff_log_level (caff_to_rtc_severity level) ≡ level
unfolding rtc_to_caff_log_level caff_to_rtc_severity
rtc_to_caff_log_level-caff_to_rtc_severity all_levels = refl
rtc_to_caff_log_level-caff_to_rtc_severity debug = refl
rtc_to_caff_log_level-caff_to_rtc_severity warning = refl
rtc_to_caff_log_level-caff_to_rtc_severity error = refl
rtc_to_caff_log_level-caff_to_rtc_severity no_levels = refl
