-- ===== src/Interface/Handles.antt =====
-- What holds of all functions of the C interface.
use libcaffeine.Base.{ℕ, Bool, false, Option, none, List, [], arith, ◌≡◌, ◌≢◌, refl}
use libcaffeine.Base.Int.{ℤ}
use libcaffeine.Base.Bytes.{Bytes}
use libcaffeine.Base.Outcome.{
  Outcome, done, thrown, unfinished, undefined, M, pure, continue, ◌>>=◌,
}
use libcaffeine.Api.{CaffResult, failure, broadcast_failed, Rating, ConnectionQuality, unknown}
use libcaffeine.Utils.{CString}
use libcaffeine.Rest.Network.{Network, Client}
use libcaffeine.Broadcast.Platform.{Platform}
use libcaffeine.Interface.{catch_all}
use libcaffeine.Interface.Functions
use libcaffeine.Interface.Functions.{
  Handle, null, Host, guarded, is_positive, is_format, is_generate,
}

-- The functions that check their handle, with their other arguments.
pub data Call : Type 0 where
  sign_in : CString → CString → CString → Call
  refresh_auth : CString → Call
  sign_out is_signed_in get_refresh_token get_access_token get_credential get_username : Call
  can_broadcast get_connection_quality end_broadcast : Call
  enumerate_games : Bool → Call
  start_broadcast : Bytes → Bytes → CString → ℤ → CString → Bool → Bool → Call
  set_game_id set_title : CString → Call
  set_rating : Rating → Call
  send_audio : Option Bytes → ℕ → Call

-- What they return.
pub data Value : Type 0 where
  nothing : Value
  result : CaffResult → Value
  flag : Bool → Value
  string : CString → Value
  quality : ConnectionQuality → Value
  games : CaffResult × List (Bytes × (Bytes × Bytes)) → Value

-- What they return where an exception is caught.
abbrev pub error_value : Call → Value
error_value (sign_in username password otp) = result failure
error_value (refresh_auth token) = result failure
error_value sign_out = nothing
error_value is_signed_in = flag false
error_value get_refresh_token = string none
error_value get_access_token = string none
error_value get_credential = string none
error_value get_username = string none
error_value can_broadcast = flag false
error_value get_connection_quality = quality unknown
error_value end_broadcast = nothing
error_value (enumerate_games enumerator) = games (failure, [])
error_value (start_broadcast id feed_id title rating game_id started failed) =
    result broadcast_failed
error_value (set_game_id id) = nothing
error_value (set_title title) = nothing
error_value (set_rating rating) = nothing
error_value (send_audio samples count) = nothing

module _ (net : Network) (client : Client) (p : Platform)
    (start : Bytes → M (net.World) (Unit {0})) where
  abbrev returns : {A : Type 0} → (A → Value) → M (Host net p) A → M (Host net p) Value
  returns f m = m >>= λ a. pure (f a)

  abbrev pub run_call : ℕ → Handle → Call → M (Host net p) Value
  run_call fuel h (sign_in username password otp) =
      returns result (Functions.sign_in net client p fuel h username password otp)
  run_call fuel h (refresh_auth token) =
      returns result (Functions.refresh_auth net client p fuel h token)
  run_call fuel h sign_out = returns (λ _. nothing) (Functions.sign_out net client p h)
  run_call fuel h is_signed_in = returns flag (Functions.is_signed_in net client p h)
  run_call fuel h get_refresh_token = returns string (Functions.get_refresh_token net client p h)
  run_call fuel h get_access_token = returns string (Functions.get_access_token net client p h)
  run_call fuel h get_credential = returns string (Functions.get_credential net client p h)
  run_call fuel h get_username = returns string (Functions.get_username net client p h)
  run_call fuel h can_broadcast = returns flag (Functions.can_broadcast net client p h)
  run_call fuel h get_connection_quality =
      returns quality (Functions.get_connection_quality net client p h)
  run_call fuel h end_broadcast = returns (λ _. nothing) (Functions.end_broadcast net client p h)
  run_call fuel h (enumerate_games enumerator) =
      returns games (Functions.enumerate_games net client p h enumerator)
  run_call fuel h (start_broadcast id feed_id title rating game_id started failed) =
      returns result (
        Functions.start_broadcast net client p start fuel id feed_id h title rating game_id started
          failed)
  run_call fuel h (set_game_id id) =
      returns (λ _. nothing) (Functions.set_game_id net client p h id)
  run_call fuel h (set_title title) =
      returns (λ _. nothing) (Functions.set_title net client p h title)
  run_call fuel h (set_rating rating) =
      returns (λ _. nothing) (Functions.set_rating net client p h rating)
  run_call fuel h (send_audio samples count) =
      returns (λ _. nothing) (Functions.send_audio net client p h samples count)

  run_call-null :
      (fuel : ℕ) (c : Call) (s : Host net p) → run_call fuel null c s ≡ (done (error_value c), s)
  unfolding guarded catch_all Functions.sign_in Functions.refresh_auth Functions.sign_out
      Functions.is_signed_in Functions.get_refresh_token Functions.get_access_token
      Functions.get_credential Functions.get_username Functions.can_broadcast
      Functions.get_connection_quality Functions.end_broadcast Functions.enumerate_games
      Functions.start_broadcast Functions.set_game_id Functions.set_title Functions.set_rating
      Functions.send_audio
  run_call-null fuel (sign_in username password otp) s = refl
  run_call-null fuel (refresh_auth token) s = refl
  run_call-null fuel sign_out s = refl
  run_call-null fuel is_signed_in s = refl
  run_call-null fuel get_refresh_token s = refl
  run_call-null fuel get_access_token s = refl
  run_call-null fuel get_credential s = refl
  run_call-null fuel get_username s = refl
  run_call-null fuel can_broadcast s = refl
  run_call-null fuel get_connection_quality s = refl
  run_call-null fuel end_broadcast s = refl
  run_call-null fuel (enumerate_games enumerator) s = refl
  run_call-null fuel (start_broadcast id feed_id title rating game_id started failed) s = refl
  run_call-null fuel (set_game_id id) s = refl
  run_call-null fuel (set_title title) s = refl
  run_call-null fuel (set_rating rating) s = refl
  run_call-null fuel (send_audio samples count) s = refl

  -- What is caught does not throw, and neither does the return of a value.
  caught :
      {A : Type 0} (f : A → Value) (value : A) (r : Outcome A × Host net p)
      → (let q = catch_all value r in
          (continue (let g : A → M (Host net p) Value = λ a. pure (f a) in g) q.0 q.1).0)
        ≢ thrown
  unfolding catch_all
  caught f value (done a, s) = λ e. absurd (ground arith)
  caught f value (thrown, s) = λ e. absurd (ground arith)
  caught f value (unfinished, s) = λ e. absurd (ground arith)
  caught f value (undefined, s) = λ e. absurd (ground arith)

  never-thrown :
      (fuel : ℕ) (h : Handle) (c : Call) (s : Host net p) → (run_call fuel h c s).0 ≢ thrown
  unfolding guarded Functions.sign_in Functions.refresh_auth Functions.sign_out
      Functions.is_signed_in Functions.get_refresh_token Functions.get_access_token
      Functions.get_credential Functions.get_username Functions.can_broadcast
      Functions.get_connection_quality Functions.end_broadcast Functions.enumerate_games
      Functions.start_broadcast Functions.set_game_id Functions.set_title Functions.set_rating
      Functions.send_audio
  never-thrown fuel h (sign_in username password otp) s = caught result failure _
  never-thrown fuel h (refresh_auth token) s = caught result failure _
  never-thrown fuel h sign_out s = caught (λ _. nothing) tt _
  never-thrown fuel h is_signed_in s = caught flag false _
  never-thrown fuel h get_refresh_token s = caught string none _
  never-thrown fuel h get_access_token s = caught string none _
  never-thrown fuel h get_credential s = caught string none _
  never-thrown fuel h get_username s = caught string none _
  never-thrown fuel h can_broadcast s = caught flag false _
  never-thrown fuel h get_connection_quality s = caught quality unknown _
  never-thrown fuel h end_broadcast s = caught (λ _. nothing) tt _
  never-thrown fuel h (enumerate_games enumerator) s = caught games (failure, []) _
  never-thrown fuel h (start_broadcast id feed_id title rating game_id started failed) s =
      caught result broadcast_failed _
  never-thrown fuel h (set_game_id id) s = caught (λ _. nothing) tt _
  never-thrown fuel h (set_title title) s = caught (λ _. nothing) tt _
  never-thrown fuel h (set_rating rating) s = caught (λ _. nothing) tt _
  never-thrown fuel h (send_audio samples count) s = caught (λ _. nothing) tt _

  -- No exception leaves a function that checks its handle, and for a null handle it changes nothing
  -- and returns its error value.
  pub run_call-Contained :
      (fuel : ℕ) (h : Handle) (c : Call) (s : Host net p)
      → ((run_call fuel h c s).0 ≢ thrown) × (run_call fuel null c s ≡ (done (error_value c), s))
  run_call-Contained fuel h c s = (never-thrown fuel h c s, run_call-null fuel c s)
