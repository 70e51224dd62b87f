-- ===== src/Tests/Accounts.antt =====
-- An instance at concrete inputs.
use libcaffeine.Base.{◌≡◌, refl, true, none, some, List, [], ◌∷◌}
use libcaffeine.Base.Bytes.{Bytes, text, bytes_eq}
use libcaffeine.Base.Outcome.{M, pure, done}
use libcaffeine.Api.{success, takeover}
use libcaffeine.Rest.Types.{Credentials}
use libcaffeine.Rest.Auth
use libcaffeine.Rest.Retry.{retry_request, try_from}
use libcaffeine.Rest.Curl.{basic_request, authenticated_request}
use libcaffeine.Rest.Json.{credentials_from_json, user_info_from_json}
use libcaffeine.Rest.Calls.{get_user_info, do_get_user_info, user_info_reply}
use libcaffeine.Rest.Checks.{check_version}
use libcaffeine.Instance.{
  authenticate, with_credentials, with_user, is_signed_in, with_version, check_user,
  begin_broadcast, Instance, began, ended, reported, idle, sign_in, refresh_auth, start_broadcast,
  check_failure, dispatch_failure, end_from,
}
use libcaffeine.Instance.History.{Step, starts, fails, ends_broadcast, goes_on, System, run_steps}
use libcaffeine.Instance.SignedIn.{Agrees, Settles, sign_in-Settles, refresh_auth-Settles}
use libcaffeine.Instance.Starting.{Begun, start_broadcast-Begun}
use libcaffeine.Tests.Net.{granting, client, start}

abbrev pub signed_out : Instance granting
signed_out = record {
  world = start;
  refresh_token = none;
  shared_credentials = none;
  user_info = none;
  game_list = none;
  broadcast = none;
  events = [];
}

signed_out-Agrees : Agrees granting client signed_out
signed_out-Agrees = record { user = refl; token = refl }

abbrev new_credentials : Credentials
new_credentials = record {
  access_token = text "t";
  refresh_token = text "t";
  caid = text "t";
  credential = text "t";
}

abbrev pub signed_in : Instance granting
signed_in = record {
  world = record { requests = 2; seconds = 0 };
  refresh_token = some (text "t");
  shared_credentials = some new_credentials;
  user_info = some (record { username = text "t"; can_broadcast = true });
  game_list = none;
  broadcast = none;
  events = [];
}

sign_in_run :
    sign_in granting client 2 (text "u") (text "p") none signed_out ≡ (done success, signed_in)
unfolding sign_in Auth.sign_in Auth.do_sign_in Auth.sign_in_reply Auth.sign_in_answer authenticate
    retry_request basic_request bytes_eq credentials_from_json with_credentials get_user_info
    do_get_user_info authenticated_request user_info_reply user_info_from_json with_user try_from
sign_in_run = refl

sign_in-Settles_example : Settles granting client success signed_in
sign_in-Settles_example =
    sign_in-Settles granting client 2 (text "u") (text "p") none signed_out {r = success}
      {s' = signed_in} signed_out-Agrees sign_in_run

refresh_auth_run : refresh_auth granting client 2 (text "r") signed_out ≡ (done success, signed_in)
unfolding refresh_auth Auth.refresh_auth Auth.do_refresh_auth Auth.refresh_reply Auth.refresh_answer
    authenticate retry_request basic_request bytes_eq credentials_from_json with_credentials
    get_user_info do_get_user_info authenticated_request user_info_reply user_info_from_json
    with_user try_from
refresh_auth_run = refl

refresh_auth-Settles_example : Settles granting client success signed_in
refresh_auth-Settles_example =
    refresh_auth-Settles granting client 2 (text "r") signed_out {r = success} {s' = signed_in}
      signed_out-Agrees refresh_auth_run

abbrev broadcasting : Instance granting
broadcasting = record signed_in { broadcast = some (text "i"); events = began (text "i") ∷ [] }

-- A start of a broadcast that returns.
abbrev returning : Bytes → M (granting.World) (Unit {0})
returning id = pure tt

start_broadcast_run :
    start_broadcast granting client returning 2 (text "i") signed_in ≡ (done success, broadcasting)
unfolding start_broadcast is_signed_in check_version with_version check_user begin_broadcast
start_broadcast_run = refl

start_broadcast-Begun_example : Begun granting client returning (text "i") signed_in broadcasting
start_broadcast-Begun_example =
    start_broadcast-Begun granting client returning 2 (text "i") signed_in {s' = broadcasting}
      start_broadcast_run

-- Between the check of a failure and its second step, the broadcast ends and another one begins.
abbrev steps : List Step
steps =
    starts 2 (text "i")
    ∷ fails (text "i") takeover
    ∷ ends_broadcast
    ∷ starts 2 (text "j")
    ∷ goes_on
    ∷ goes_on
    ∷ []

abbrev resting : System granting
resting = record { instance = signed_in; task = idle }

other_broadcast_ended :
    (run_steps granting client returning steps resting).instance.events
    ≡ reported takeover
      ∷ ended (text "j")
      ∷ began (text "j")
      ∷ ended (text "i")
      ∷ began (text "i")
      ∷ []
unfolding start_broadcast is_signed_in check_version with_version check_user begin_broadcast
    check_failure dispatch_failure end_from bytes_eq
other_broadcast_ended = refl
