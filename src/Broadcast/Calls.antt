-- ===== src/Broadcast/Calls.antt =====
-- What a broadcast sends about its feed and its title.
use libcaffeine.Base.{Bool, true, false, Option, none, some, is_empty, if◌then◌else◌}
use libcaffeine.Base.Bytes.{Bytes}
use libcaffeine.Base.Outcome.{M, pure, fault, ◌>>=◌, ◌>>◌}
use libcaffeine.Api.{
  CaffResult, ConnectionQuality, good, poor, unknown, broadcast_failed, out_of_capacity,
}
use libcaffeine.Policy.{annotate_title}
use libcaffeine.Broadcast.State.{Broadcast, require_state, starting}
use libcaffeine.Broadcast.Platform.{
  Platform, Run, request, get, modify, FeedInput, SourceConnectionQuality, good_quality,
  poor_quality, AddFeedPayload, FeedError, out_of_capacity_error, other_feed_error,
  BroadcasterStream,
}

source_quality : ConnectionQuality → Option SourceConnectionQuality
source_quality good = some good_quality
source_quality poor = some poor_quality
source_quality unknown = none

unfoldable pub current_feed_input : Broadcast → FeedInput
unfolding source_quality
current_feed_input b = record {
  id = b.feed_id;
  game = if is_empty b.game_id then none else some b.game_id;
  source_connection_quality = source_quality b.connection_quality;
  sdp_offer = none;
}

-- `none` is undefined behaviour.
unfoldable pub full_title : Broadcast → Option Bytes
full_title b = annotate_title b.title b.rating

-- What `createFeed` returns: the SDP answer, or the error.
pub data Feed : Type 0 where
  answered : Bytes → Feed
  refused : CaffResult → Feed

feed_error : FeedError → CaffResult
feed_error out_of_capacity_error = out_of_capacity
feed_error other_feed_error = broadcast_failed

-- Whether a mutation went through.
unfoldable pub went_through : Option Bool → Bool
went_through none = false
went_through (some has_error) = if has_error then false else true

module _ (p : Platform) where
  unfoldable pub with_stream : Option BroadcasterStream → M (Run p) Feed
  with_stream none = pure (refused broadcast_failed)
  with_stream (some stream) =
      modify p (λ b. record b { stream_url = stream.url }) >> pure (answered stream.sdp_answer)

  unfoldable pub with_id : Option BroadcasterStream → Option Bytes → M (Run p) Feed
  with_id stream none = pure (refused broadcast_failed)
  with_id stream (some id) =
      modify p (λ b. record b { broadcast_id = some id }) >> with_stream stream

  unfoldable pub with_payload : Option AddFeedPayload → M (Run p) Feed
  unfolding feed_error
  with_payload none = pure (refused broadcast_failed)
  with_payload (some payload) = elim payload.error [
    | some e ↦ pure (refused (feed_error e))
    | none ↦ with_id payload.stream payload.broadcast_id
  ]

  abbrev pub offer_input : Bytes → Broadcast → FeedInput
  offer_input offer b = record (current_feed_input b) { sdp_offer = some offer }

  unfoldable pub create_feed : Bytes → M (Run p) Feed
  create_feed offer = get p >>= λ b.
      if require_state starting b
      then request p (p.add_feed (offer_input offer b)) >>= with_payload
      else pure (refused broadcast_failed)

  unfoldable pub update_feed : M (Run p) Bool
  update_feed =
      get p >>= λ b. request p (p.mutate_feed (current_feed_input b)) >>= λ r. pure (went_through r)

  -- A step that takes the annotated title.
  unfoldable pub titled : {A : Type 0} → Option Bytes → (Bytes → M (Run p) A) → M (Run p) A
  titled none f = fault
  titled (some title) f = f title

  abbrev pub with_title : {A : Type 0} → (Bytes → M (Run p) A) → M (Run p) A
  with_title f = get p >>= λ b. titled (full_title b) f

  unfoldable pub update_title : M (Run p) Bool
  unfolding titled
  update_title =
      with_title (λ title. request p (p.change_stage_title title) >>= λ r. pure (went_through r))
