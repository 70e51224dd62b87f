-- ===== src/Tests/Outside.antt =====
-- The C interface, the subscription and its ends at concrete inputs.
use libcaffeine.Base.{◌==◌, List, [], ◌∷◌, ℕ, ◌≡◌, ◌≢◌, refl, true, none, some}
use libcaffeine.Base.Int.{pos}
use libcaffeine.Base.Bytes.{Bytes, text}
use libcaffeine.Base.Outcome.{M, pure, done, thrown}
use libcaffeine.Api.{debug, error}
use libcaffeine.Interface.{enumerator, log_levels}
use libcaffeine.Interface.Library.{Globals, to_debug, initialize, initialize-initialize}
use libcaffeine.Interface.Functions.{Host, instance, null}
use libcaffeine.Interface.Handles.{Call, sign_in, run_call, error_value, run_call-Contained}
use libcaffeine.Websocket.{Wire, Subscription, errors}
use libcaffeine.Websocket.Balance
use libcaffeine.Websocket.Balance.{Balanced, starts, run_calls-Balanced}
use libcaffeine.Broadcast.Reconnect.{failed, Handled, ended_handler-Handled}
use libcaffeine.Tests.Net.{granting, client}
use libcaffeine.Tests.Accounts.{signed_in}
use libcaffeine.Tests.Stage.{granting_start, live_run}

abbrev unset_globals : Globals (Unit {0})
unset_globals = record {
  result = none;
  client_type = [];
  client_version = [];
  log = to_debug;
  ssl = true;
}

debug_enumerated : enumerator log_levels (pos 1) ≡ some debug
unfolding enumerator
debug_enumerated = refl

error_enumerated : enumerator log_levels (pos 3) ≡ some error
unfolding enumerator
error_enumerated = refl

initialize-initialize_example :
    initialize true
      (some (text "obs"))
      (some (text "2"))
      (pos 3)
      (some tt)
      (initialize true (some (text "obs")) none (pos 1) none unset_globals).1
    ≡ initialize true (some (text "obs")) none (pos 1) none unset_globals
initialize-initialize_example =
    initialize-initialize true unset_globals (some (text "obs")) none (some (text "obs"))
      (some (text "2")) (pos 1) (pos 3) none (some tt) {level = debug} {level' = error}
      debug_enumerated error_enumerated

-- A start of a broadcast that returns.
abbrev idle_start : Bytes → M (granting.World) (Unit {0})
idle_start id = pure tt

abbrev host : Host granting granting_start
host = record { instance = signed_in; run = live_run }

abbrev sign_in_again : Call
sign_in_again = sign_in (some (text "u")) (some (text "p")) none

run_call-Contained_example :
    ((run_call granting client granting_start idle_start 2 instance sign_in_again host).0 ≢ thrown)
    × (run_call granting client granting_start idle_start 2 null sign_in_again host
        ≡ (done (error_value sign_in_again), host))
run_call-Contained_example =
    run_call-Contained granting client granting_start idle_start 2 instance sign_in_again host

-- A platform on which every message reports an expired credential, and every refresh succeeds.
abbrev expired_wire : Wire
expired_wire = record {
  World = Unit {0};
  Connection = ℕ;
  Json = Unit {0};
  Data = Unit {0};
  connect = λ w. (some 1, w);
  send = λ c message w. w;
  close = λ c w. w;
  parse = λ message. some tt;
  find_type = λ json. some (text "data");
  unpack = λ json. some (errors (text "credential expired" ∷ []));
  connection_init = λ credential. credential;
  credential = λ w. text "c";
  refresh_credentials = λ w. (true, w);
}

abbrev subscription : Subscription expired_wire
subscription = record {
  world = tt;
  connection = none;
  connection_params = text "start";
  has_message_handler = true;
  has_ended_handler = true;
  events = [];
}

abbrev subscription_calls : List (Balance.Call expired_wire)
subscription_calls =
    Balance.start
    ∷ Balance.on_open 1
    ∷ Balance.on_message (text "m")
    ∷ Balance.on_end 1 failed
    ∷ Balance.finish
    ∷ []

run_calls-Balanced_example :
    Balance.Keeps expired_wire ◌==◌
      (Balance.run_calls expired_wire ◌==◌ subscription_calls subscription)
run_calls-Balanced_example =
    run_calls-Balanced expired_wire ◌==◌ subscription_calls subscription
      (Balance.nothing, refl, starts)

ended_handler-Handled_example :
    Handled granting_start (λ w. true) (λ s. (done tt, s)) (λ s. refl) failed 1 live_run
ended_handler-Handled_example =
    ended_handler-Handled granting_start (λ w. true) (λ s. (done tt, s)) (λ s. refl) failed 1
      live_run
