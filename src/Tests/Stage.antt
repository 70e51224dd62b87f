-- ===== src/Tests/Stage.antt =====
-- The broadcast at concrete inputs.
use libcaffeine.Base.{ℕ, ◌≤◌, ◌+◌, ◌≡◌, refl, arith, Bool, true, false, Option, none, some, [], ◌∷◌}
use libcaffeine.Base.Int.{pos}
use libcaffeine.Base.Bytes.{Bytes, text}
use libcaffeine.Base.Outcome.{done}
use libcaffeine.Api.{disconnected, unknown, rating_none}
use libcaffeine.Rest.Types.{EncoderSettings}
use libcaffeine.Broadcast.State.{
  failed_with, Broadcast, State, starting, streaming, live, unset, none_yet, open_yet,
  require_state,
}
use libcaffeine.Broadcast.Platform.{
  Platform, Run, AddFeedPayload, BroadcasterStream, StartPayload, stage, ready,
}
use libcaffeine.Utils.{trim}
use libcaffeine.Policy.{annotate_title}
use libcaffeine.Broadcast.Calls.{
  full_title, create_feed, with_payload, with_id, with_stream, answered,
}
use libcaffeine.Broadcast.Targets.{targets}
use libcaffeine.Broadcast.Frames.{send_video}
use libcaffeine.Broadcast.Thread.{start, set_stage_live, heartbeats, heartbeat_interval}
use libcaffeine.Broadcast.Subscription.{handle_message}
use libcaffeine.Broadcast.Forward.{rank_of}
use libcaffeine.Broadcast.Forward.Negotiation.{start-Forward}
use libcaffeine.Broadcast.Messages.{InStep, handle_message-InStep}
use libcaffeine.Broadcast.Limits.{Raises, targets-Raises}
use libcaffeine.Broadcast.Feed.{Created, create_feed-Created}
use libcaffeine.Broadcast.Screenshot.{Awaits, send_video-Awaits}
use libcaffeine.Broadcast.Disconnect.{Fails, heartbeats-disconnected}
use libcaffeine.Broadcast.Start.{quiet, gone_live, set_stage_live-failed}

abbrev feed_stream : BroadcasterStream
feed_stream = record { url = text "u"; sdp_answer = text "a" }

abbrev feed_payload : AddFeedPayload
feed_payload = record { error = none; broadcast_id = some (text "b"); stream = some feed_stream }

-- A platform that answers the start of the broadcast as given, grants every other request, and
-- fails the heartbeats, which its world counts.
abbrev stage_answering : Option StartPayload → Platform
stage_answering payload = record {
  World = ℕ;
  Offer = Bytes;
  Description = Bytes;
  I420Buffer = Bytes;
  Frame = Unit {0};
  add_feed = λ feed w. (done (some feed_payload), w);
  mutate_feed = λ feed w. (done (some false), w);
  change_stage_title = λ title w. (done (some false), w);
  start_broadcast = λ title w. (done payload, w);
  stop_broadcast = λ w. (done tt, w);
  encoder_info = λ w. (done none, w);
  trickle = λ candidates url w. (done true, w);
  heartbeat = λ url w. (done none, w + 1);
  send_screenshot = λ id d w. (some true, w);
  create_offer = λ w. (ready (some []), w);
  offer_type_is_offer = λ offer. true;
  offer_to_string = λ offer. some offer;
  parse_offer = λ sdp. some sdp;
  parse_answer = λ sdp. some sdp;
  set_local = λ d w. (ready true, w);
  set_remote = λ d w. (ready true, w);
  set_bitrates = λ high low w. w;
  set_sender_bitrates = λ high low w. w;
  await_candidates = λ w. (ready [], w);
  get_stats = λ w. w;
  capture = λ frame width height w. (some (text "f"), w);
  encode_screenshot = λ frame. some frame;
  play_audio = λ samples n w. w;
  sleep = λ n w. w;
  await_for = λ n w. w;
  set_up = λ fps width height w. w;
}

abbrev pub granting_start : Platform
granting_start = stage_answering (some (record { has_error = false; live = true }))

abbrev refusing_start : Platform
refusing_start = stage_answering none

-- A broadcast in a state, with whether its subscription has opened.
abbrev broadcast_in : State → Bool → Broadcast
broadcast_in state opened = record {
  state = state;
  screenshot_promise = unset;
  is_screenshot_needed = true;
  title = text "Chess";
  rating = rating_none;
  game_id = [];
  feed_id = text "f";
  client_id = text "c";
  connection_quality = unknown;
  broadcast_id = none;
  stream_url = [];
  subscription_state = elim opened [ true ↦ open_yet | false ↦ none_yet ];
  subscription_opened = opened;
  calls = [];
}

abbrev fresh_run : Run granting_start
fresh_run = record { broadcast = broadcast_in starting false; world = 0 }

start-Forward_example :
    rank_of granting_start fresh_run
    ≤ rank_of granting_start (start granting_start (quiet granting_start) 400 fresh_run).1
start-Forward_example =
    start-Forward granting_start (quiet granting_start) (λ s. omega arith) 400 fresh_run

handle_message-InStep_example :
    (b' : Broadcast) × (handle_message (stage (text "f" ∷ []) true) (broadcast_in streaming false)
      ≡ (done tt, b'))
    × InStep b'
handle_message-InStep_example =
    handle_message-InStep (stage (text "f" ∷ []) true) (broadcast_in streaming false) refl

abbrev pub live_run : Run granting_start
live_run = record { broadcast = broadcast_in live true; world = 0 }

send_video-Awaits_example :
    (s' : Run granting_start) × (send_video granting_start tt (pos 1280) (pos 720) live_run
      ≡ (done tt, s'))
    × Awaits s'.broadcast
send_video-Awaits_example = send_video-Awaits granting_start tt (pos 1280) (pos 720) live_run refl

abbrev fed_run : Run granting_start
fed_run = record {
  broadcast = record (broadcast_in starting false) {
    broadcast_id = some (text "b");
    stream_url = text "u";
  };
  world = 0;
}

feed_created :
    create_feed granting_start (text "o") fresh_run ≡ (done (answered (text "a")), fed_run)
unfolding create_feed with_payload with_id with_stream require_state
feed_created = refl

create_feed-Created_example : Created granting_start fresh_run (text "o") (text "a") fed_run
create_feed-Created_example =
    create_feed-Created granting_start (text "o") (text "a") fresh_run fed_run feed_created

abbrev encoder : EncoderSettings
encoder = record {
  width = pos 1920;
  height = pos 1080;
  target_bitrate = pos 6000000;
  framerate = pos 60;
}

targets-Raises_example : Raises (targets (some encoder))
targets-Raises_example = targets-Raises (some encoder)

abbrev refused_run : Run refusing_start
refused_run = record { broadcast = broadcast_in streaming true; world = 0 }

abbrev refused_title : Bytes
refused_title = text "Chess"

refused_title_full : full_title refused_run.broadcast ≡ some refused_title
unfolding full_title annotate_title trim
refused_title_full = refl

set_stage_live-failed_example :
    set_stage_live refusing_start (quiet refusing_start) 400 refused_run
    ≡ heartbeats refusing_start
        (quiet refusing_start)
        400
        heartbeat_interval
        0
        (gone_live refusing_start refused_run)
set_stage_live-failed_example =
    set_stage_live-failed refusing_start 400 refused_run refused_title refl refl refused_title_full
      refl

granting_start-Fails : Fails granting_start
granting_start-Fails = record {
  seen = λ w. w;
  no_answer = λ url w. refl;
  seen_heartbeat = λ url w. refl;
  seen_stats = λ w. refl;
  seen_sleep = λ n w. refl;
}

heartbeats-disconnected_example :
    let r = heartbeats granting_start (quiet granting_start) 300 heartbeat_interval 0 live_run in
    (r.0 ≡ done tt)
    × (r.1.broadcast ≡ record (broadcast_in live true) { calls = failed_with disconnected ∷ [] })
    × (r.1.world ≡ 0 + 6)
unfolding granting_start-Fails
heartbeats-disconnected_example =
    heartbeats-disconnected granting_start granting_start-Fails (broadcast_in live true) refl 300 0
      (omega arith)
