-- ===== src/Broadcast/Platform.antt =====
-- What a broadcast calls: the requests of src/RestApi.cpp, the GraphQL mutations, WebRTC, the JPEG
-- writer and the clock. Other threads run between the steps of the broadcast's thread.
use libcaffeine.Base.{ℕ, Bool, Option, List}
use libcaffeine.Base.Int.{ℤ}
use libcaffeine.Base.Bytes.{Bytes}
use libcaffeine.Base.Outcome.{Outcome, done, M}
use libcaffeine.Rest.Types.{IceInfo, ScreenshotData, HeartbeatResponse, EncoderInfoResponse}
use libcaffeine.Broadcast.State.{Broadcast}

pub data SourceConnectionQuality : Type 0 where
  good_quality poor_quality : SourceConnectionQuality

-- The input of the mutations of a feed, with the fields that the broadcast sets.
pub record FeedInput : Type 0 where
  pub id : Bytes
  pub game : Option Bytes
  pub source_connection_quality : Option SourceConnectionQuality
  pub sdp_offer : Option Bytes

pub data FeedError : Type 0 where
  out_of_capacity_error other_feed_error : FeedError

pub record BroadcasterStream : Type 0 where
  pub url : Bytes
  pub sdp_answer : Bytes

pub record AddFeedPayload : Type 0 where
  pub error : Option FeedError
  pub broadcast_id : Option Bytes
  pub stream : Option BroadcasterStream

pub record StartPayload : Type 0 where
  pub has_error : Bool
  pub live : Bool

-- A message of the subscription: the ids of the feeds on the stage and whether it is live, or a
-- list of errors.
pub data StageUpdate : Type 0 where
  stage : List Bytes → Bool → StageUpdate
  errors : StageUpdate

-- What a future holds after the wait for it.
pub data Awaited (A : Type 0) : Type 0 where
  timeout : Awaited A
  ready : A → Awaited A

-- The requests may throw, which ends the thread. Those for a payload answer `none` if they fail, and
-- `mutate_feed` and `change_stage_title` else say whether the payload has an error.
pub record Platform : Type 1 where
  pub World : Type 0
  pub Offer : Type 0
  pub Description : Type 0
  pub I420Buffer : Type 0
  -- the format, the bytes and the timestamp of a frame
  pub Frame : Type 0
  pub add_feed : FeedInput → World → Outcome (Option AddFeedPayload) × World
  pub mutate_feed : FeedInput → World → Outcome (Option Bool) × World
  pub change_stage_title : Bytes → World → Outcome (Option Bool) × World
  pub start_broadcast : Bytes → World → Outcome (Option StartPayload) × World
  pub stop_broadcast : World → Outcome (Unit {0}) × World
  pub encoder_info : World → Outcome (Option EncoderInfoResponse) × World
  pub trickle : List IceInfo → Bytes → World → Outcome Bool × World
  pub heartbeat : Bytes → World → Outcome (Option HeartbeatResponse) × World
  -- `none` if the call throws
  pub send_screenshot : Bytes → ScreenshotData → World → Option Bool × World
  pub create_offer : World → Awaited (Option Offer) × World
  pub offer_type_is_offer : Offer → Bool
  pub offer_to_string : Offer → Option Bytes
  pub parse_offer : Bytes → Option Description
  pub parse_answer : Bytes → Option Description
  pub set_local : Description → World → Awaited Bool × World
  pub set_remote : Description → World → Awaited Bool × World
  pub set_bitrates : ℕ → ℕ → World → World
  -- the upper and the lower bitrate of WebRTC's first encoding of every video sender
  pub set_sender_bitrates : ℕ → ℕ → World → World
  pub await_candidates : World → Awaited (List IceInfo) × World
  pub get_stats : World → World
  pub capture : Frame → ℤ → ℤ → World → Option I420Buffer × World
  -- `none` if `createScreenshot` throws
  pub encode_screenshot : I420Buffer → Option ScreenshotData
  pub play_audio : Bytes → ℕ → World → World
  pub sleep : ℕ → World → World
  -- a wait for a future, up to a number of milliseconds
  pub await_for : ℕ → World → World
  -- the subscription, the capturer with its limits, the tracks, and the peer connection
  pub set_up : ℕ → ℕ → ℕ → World → World

-- A broadcast and the world around it.
pub record Run (p : Platform) : Type 0 where
  pub broadcast : Broadcast
  pub world : p.World

module _ (p : Platform) where
  -- A call that leaves the broadcast alone.
  abbrev pub ask {ℓ} : {A : Type ℓ} → (p.World → A × p.World) → M (Run p) A
  ask f s = let r = f s.world in (done r.0, record s { world = r.1 })

  -- A request.
  abbrev pub request {ℓ} : {A : Type ℓ} → (p.World → Outcome A × p.World) → M (Run p) A
  request f s = let r = f s.world in (r.0, record s { world = r.1 })

  abbrev pub tell : (p.World → p.World) → M (Run p) (Unit {0})
  tell f s = (done tt, record s { world = f s.world })

  abbrev pub get : M (Run p) Broadcast
  get s = (done s.broadcast, s)

  abbrev pub modify : (Broadcast → Broadcast) → M (Run p) (Unit {0})
  modify f s = (done tt, record s { broadcast = f s.broadcast })
