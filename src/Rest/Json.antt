-- ===== src/Rest/Json.antt =====
-- src/Serialization.hpp and src/Serialization.cpp: JSON to data and back. `none` is an exception.
use libcaffeine.Base.{ℕ, ◌+◌, ◌/◌, ◌%◌, zero, suc, ltb, if◌then◌else◌, Option, none, some}
use libcaffeine.Base.{List, [], ◌∷◌, true, false, is_empty}
use libcaffeine.Base.Int.{ℤ}
use libcaffeine.Base.Int32.{◌>>=◌}
use libcaffeine.Base.Outcome.{Outcome, done, thrown, unfinished, undefined}
use libcaffeine.Base.Bytes.{Bytes, text, bytes_eq}
use libcaffeine.Api.{ConnectionQuality, good, poor, unknown}
use libcaffeine.Rest.Types.{
  Credentials, UserInfo, GameInfo, GameList, IceInfo, HeartbeatResponse, EncoderInfoResponse,
}
use libcaffeine.Rest.Network.{Network}

-- The decimal digits that `std::ostringstream` prints, on fuel that is above the number.
digits_from : ℕ → ℕ → Bytes → Bytes
digits_from zero n rest = rest
digits_from (suc fuel) n rest =
    let digit = b'0' + n % 10 in
    elim (ltb n 10) [ true ↦ digit ∷ rest | false ↦ digits_from fuel (n / 10) (digit ∷ rest) ]

unfoldable pub decimal : ℕ → Bytes
unfolding digits_from
decimal n = digits_from (suc n) n []

module _ (net : Network) where
  open net use {
    Json, json_string, json_int, json_object, at_key, index_key, get_string, get_bool, get_int,
    get_size, is_null, items,
  }

  abbrev string_at : Bytes → Json → Option Bytes
  string_at key json = do v ← at_key key json; get_string v

  abbrev int_at : Bytes → Json → Option ℤ
  int_at key json = do v ← at_key key json; get_int v

  unfoldable pub credentials_from_json : Json → Option Credentials
  credentials_from_json json = do
    access ← string_at (text "access_token") json
    refresh ← string_at (text "refresh_token") json
    caid ← string_at (text "caid") json
    credential ← string_at (text "credential") json
    some (record {
      access_token = access;
      refresh_token = refresh;
      caid = caid;
      credential = credential;
    })

  unfoldable pub user_info_from_json : Json → Option UserInfo
  user_info_from_json json = do
    username ← string_at (text "username") json
    flag ← at_key (text "can_broadcast") json
    can_broadcast ← get_bool flag
    some (record { username = username; can_broadcast = can_broadcast })

  -- Names that are empty or no strings are skipped.
  unfoldable pub process_names_from : List Json → List Bytes
  process_names_from [] = []
  process_names_from (v ∷ vs) =
      let rest = process_names_from vs in
      elim (get_string v) [ none ↦ rest | some name ↦ if is_empty name then rest else name ∷ rest ]

  unfoldable pub game_info_from_json : Json → Option GameInfo
  unfolding process_names_from decimal
  game_info_from_json json = do
    id ← at_key (text "id") json
    number ← get_size id
    name ← string_at (text "name") json
    names ← at_key (text "process_names") json
    some (record {
      id = decimal number;
      name = name;
      process_names = process_names_from (items names);
    })

  unfoldable pub game_list_from : List Json → Option GameList
  game_list_from [] = some []
  game_list_from (v ∷ vs) =
      let rest = game_list_from vs in
      game_info_from_json v >>= λ game. rest >>= λ games. some (game ∷ games)

  unfoldable pub ice_info_to_json : IceInfo → Json
  ice_info_to_json info = json_object (
      (text "candidate", json_string info.sdp)
      ∷ (text "sdpMid", json_string info.sdp_mid)
      ∷ (text "sdpMLineIndex", json_int info.sdp_m_line_index)
      ∷ [])

  -- The enumeration's table: a value that is not in it reads as its first entry.
  unfoldable pub connection_quality_from_json : Json → ConnectionQuality
  connection_quality_from_json json = if is_null json then unknown else elim (get_string json) [
    | none ↦ good
    | some s ↦ if bytes_eq s (text "POOR") then poor else good
  ]

  unfoldable pub heartbeat_from_json : Json → Option HeartbeatResponse
  unfolding connection_quality_from_json
  heartbeat_from_json json = do
    v ← at_key (text "connection_quality") json
    some (record { connection_quality = connection_quality_from_json v })

  setting_from_json : Bytes → Json → Option EncoderInfoResponse
  setting_from_json encoder_type setting = do
    bitrate ← int_at (text "bitrate") setting
    framerate ← int_at (text "framerate") setting
    width ← int_at (text "width") setting
    height ← int_at (text "height") setting
    some (record {
      encoder_type = encoder_type;
      setting = record {
        width = width;
        height = height;
        target_bitrate = bitrate;
        framerate = framerate;
      };
    })

  abbrev or_thrown : {A : Type 0} → Option A → Outcome A
  or_thrown none = thrown
  or_thrown (some a) = done a

  with_setting : Bytes → Outcome Json → Outcome EncoderInfoResponse
  unfolding setting_from_json
  with_setting encoder_type (done setting) = or_thrown (setting_from_json encoder_type setting)
  with_setting encoder_type thrown = thrown
  with_setting encoder_type unfinished = unfinished
  with_setting encoder_type undefined = undefined

  with_encoder_type : Json → Option Bytes → Outcome EncoderInfoResponse
  unfolding with_setting
  with_encoder_type json none = thrown
  with_encoder_type json (some encoder_type) =
      with_setting encoder_type (index_key (text "encoder_setting") json)

  unfoldable pub encoder_info_from_json : Json → Outcome EncoderInfoResponse
  unfolding with_encoder_type
  encoder_info_from_json json = with_encoder_type json (string_at (text "encoder_type") json)
