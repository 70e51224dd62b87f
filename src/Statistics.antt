-- ===== src/Statistics.antt =====
-- `serializeWebrtcStats` of src/Serialization.cpp: the part of WebRTC's reports that is sent as JSON.

pub mod Fields
use libcaffeine.Base.{ℕ, Bool, true, false, if◌then◌else◌, Option, none, some, List, [], ◌∷◌}
use libcaffeine.Base.Int.{ℤ}
use libcaffeine.Base.Bytes.{Bytes, text}

-- `StatsType` and `StatsValueName` of WebRTC, with a number for those that the source does not name.
pub data StatsType : Type 0 where
  ssrc bwe : StatsType
  other_type : ℕ → StatsType

pub data StatsValueName : Type 0 where
  bytes_sent media_type packets_lost packets_sent : StatsValueName
  encode_usage_percent avg_encode_ms rtt nacks_received : StatsValueName
  frame_rate_input frame_rate_sent frame_height_input frame_height_sent : StatsValueName
  frame_width_input frame_width_sent cpu_limited_resolution firs_received : StatsValueName
  audio_input_level : StatsValueName
  available_send_bandwidth target_enc_bitrate actual_enc_bitrate transmit_bitrate : StatsValueName
  other_name : ℕ → StatsValueName

unfoldable pub is_whitelisted_report_type : StatsType → Bool
is_whitelisted_report_type ssrc = true
is_whitelisted_report_type bwe = true
is_whitelisted_report_type (other_type n) = false

unfoldable pub is_whitelisted_stat : StatsValueName → Bool
is_whitelisted_stat bytes_sent = true
is_whitelisted_stat media_type = true
is_whitelisted_stat packets_lost = true
is_whitelisted_stat packets_sent = true
is_whitelisted_stat encode_usage_percent = true
is_whitelisted_stat avg_encode_ms = true
is_whitelisted_stat rtt = true
is_whitelisted_stat nacks_received = true
is_whitelisted_stat frame_rate_input = true
is_whitelisted_stat frame_rate_sent = true
is_whitelisted_stat frame_height_input = true
is_whitelisted_stat frame_height_sent = true
is_whitelisted_stat frame_width_input = true
is_whitelisted_stat frame_width_sent = true
is_whitelisted_stat cpu_limited_resolution = true
is_whitelisted_stat firs_received = true
is_whitelisted_stat audio_input_level = true
is_whitelisted_stat available_send_bandwidth = true
is_whitelisted_stat target_enc_bitrate = true
is_whitelisted_stat actual_enc_bitrate = true
is_whitelisted_stat transmit_bitrate = true
is_whitelisted_stat (other_name n) = false

-- What is called of the JSON library. `set` is the assignment to a key.
pub record Format : Type 1 where
  pub Json : Type 0
  pub Float : Type 0
  pub of_bool : Bool → Json
  pub of_float : Float → Json
  pub of_int : ℤ → Json
  pub of_string : Bytes → Json
  pub object : List (Bytes × Json) → Json
  pub array : List Json → Json
  pub set : Bytes → Json → Json → Json
  pub find : Bytes → Json → Option Json
  pub is_object : Json → Bool

module _ (format : Format) where
  open format use {Json, Float, of_bool, of_float, of_int, of_string, object, array, set}

  -- The content of `StatsReport::Value`, by its type.
  pub data Content : Type 0 where
    bool_val : Bool → Content
    float_val : Float → Content
    id_val : Content
    int_val int64_val : ℤ → Content
    static_string_val string_val : Bytes → Content

  pub record Value : Type 0 where
    pub display_name : Bytes
    pub content : Content

  pub record StatsReport : Type 0 where
    pub type : StatsType
    pub timestamp : Float
    pub type_to_string : Bytes
    pub values : List (StatsValueName × Value)

  unfoldable pub add_content : Json → Bytes → Content → Json
  add_content json name (bool_val b) = set name (of_bool b) json
  add_content json name (float_val x) = set name (of_float x) json
  add_content json name id_val = json
  add_content json name (int_val n) = set name (of_int n) json
  add_content json name (int64_val n) = set name (of_int n) json
  add_content json name (static_string_val s) = set name (of_string s) json
  add_content json name (string_val s) = set name (of_string s) json

  unfoldable pub add_stat : Json → Value → Json
  unfolding add_content
  add_stat json stat = add_content json stat.display_name stat.content

  unfoldable pub add_stats : Json → List (StatsValueName × Value) → Json
  unfolding is_whitelisted_stat add_stat
  add_stats json [] = json
  add_stats json ((name, stat) ∷ entries) =
      add_stats (if is_whitelisted_stat name then add_stat json stat else json) entries

  unfoldable pub header : StatsReport → Json
  header report = object (
      (text "caffeineUnixTimestamp", of_float report.timestamp)
      ∷ (text "caffeineReportType", of_string report.type_to_string)
      ∷ [])

  unfoldable pub serialize_reports : List StatsReport → List Json
  unfolding is_whitelisted_report_type add_stats header
  serialize_reports [] = []
  serialize_reports (report ∷ reports) =
      let rest = serialize_reports reports in
      if is_whitelisted_report_type report.type
      then add_stats (header report) report.values ∷ rest
      else rest

  unfoldable pub serialize_webrtc_stats : List StatsReport → Json
  unfolding serialize_reports
  serialize_webrtc_stats reports = array (serialize_reports reports)
