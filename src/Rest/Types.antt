-- ===== src/Rest/Types.antt =====
-- The data of src/RestApi.hpp.
use libcaffeine.Base.{Option, List, Bool}
use libcaffeine.Base.Int.{ℤ}
use libcaffeine.Base.Bytes.{Bytes}
use libcaffeine.Api.{CaffResult, ConnectionQuality}

pub record Credentials : Type 0 where
  pub access_token : Bytes
  pub refresh_token : Bytes
  pub caid : Bytes
  pub credential : Bytes

pub record AuthResponse : Type 0 where
  pub result : CaffResult
  pub credentials : Option Credentials

pub record UserInfo : Type 0 where
  pub username : Bytes
  pub can_broadcast : Bool

pub record GameInfo : Type 0 where
  pub id : Bytes
  pub name : Bytes
  pub process_names : List Bytes

abbrev pub GameList : Type 0
GameList = List GameInfo

pub record IceInfo : Type 0 where
  pub sdp : Bytes
  pub sdp_mid : Bytes
  pub sdp_m_line_index : ℤ

abbrev pub ScreenshotData : Type 0
ScreenshotData = Bytes

pub record HeartbeatResponse : Type 0 where
  pub connection_quality : ConnectionQuality

pub record EncoderSettings : Type 0 where
  pub width : ℤ
  pub height : ℤ
  pub target_bitrate : ℤ
  pub framerate : ℤ

pub record EncoderInfoResponse : Type 0 where
  pub encoder_type : Bytes
  pub setting : EncoderSettings
