-- ===== src/Broadcast/State.antt =====
-- The state of a broadcast, and its tests and changes.
use libcaffeine.Base.{ℕ, Bool, true, false, Option, none, List, [], ◌∷◌, if◌then◌else◌}
use libcaffeine.Base.Bytes.{Bytes}
use libcaffeine.Api.{CaffResult, Rating, ConnectionQuality, unknown}
use libcaffeine.Rest.Types.{ScreenshotData}

pub data State : Type 0 where
  offline starting streaming live stopping : State

pub data SubscriptionState : Type 0 where
  none_yet open_yet feed_has_appeared stage_has_gone_live : SubscriptionState

-- A `std::promise<ScreenshotData>`.
pub data ScreenshotPromise : Type 0 where
  unset broken : ScreenshotPromise
  fulfilled : ScreenshotData → ScreenshotPromise

-- A call of one of the two callbacks that `start` is given.
pub data Callback : Type 0 where
  started : Callback
  failed_with : CaffResult → Callback

-- `calls` are the callbacks that have been called, the last one first.
pub record Broadcast : Type 0 where
  pub state : State
  pub screenshot_promise : ScreenshotPromise
  pub is_screenshot_needed : Bool
  pub title : Bytes
  pub rating : Rating
  pub game_id : Bytes
  pub feed_id : Bytes
  pub client_id : Bytes
  pub connection_quality : ConnectionQuality
  pub broadcast_id : Option Bytes
  pub stream_url : Bytes
  pub subscription_state : SubscriptionState
  pub subscription_opened : Bool
  pub calls : List Callback

-- The constructor, with the two random ids.
unfoldable pub new : Bytes → Bytes → Bytes → Rating → Bytes → Broadcast
new client_id feed_id title rating game_id = record {
  state = offline;
  screenshot_promise = unset;
  is_screenshot_needed = true;
  title = title;
  rating = rating;
  game_id = game_id;
  feed_id = feed_id;
  client_id = client_id;
  connection_quality = unknown;
  broadcast_id = none;
  stream_url = [];
  subscription_state = none_yet;
  subscription_opened = false;
  calls = [];
}

-- The position of a state in the run of a broadcast.
abbrev pub rank : State → ℕ
rank offline = 0
rank starting = 1
rank streaming = 2
rank live = 3
rank stopping = 4

abbrev pub same_state : State → State → Bool
same_state offline offline = true
same_state starting starting = true
same_state streaming streaming = true
same_state live live = true
same_state stopping stopping = true
same_state offline _ = false
same_state starting _ = false
same_state streaming _ = false
same_state live _ = false
same_state stopping _ = false

unfoldable pub require_state : State → Broadcast → Bool
require_state expected b = same_state b.state expected

-- `compare_exchange_strong`, with whether the state was the expected one.
unfoldable pub transition_state : State → State → Broadcast → Bool × Broadcast
transition_state expected next b =
    if same_state b.state expected then (true, record b { state = next }) else (false, b)

abbrev online : State → Bool
online offline = false
online starting = false
online streaming = true
online live = true
online stopping = false

unfoldable pub is_online : Broadcast → Bool
is_online b = online b.state

-- The call of `failedCallback`.
unfoldable pub fail : CaffResult → Broadcast → Broadcast
fail r b = record b { calls = failed_with r ∷ b.calls }
