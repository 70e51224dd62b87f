-- ===== src/Lib.antt =====
-- libcaffeine: the C++ library that signs in to the platform and sends a broadcast to it.
--
-- The application signs in (src/RestApi.cpp) and starts a broadcast (src/Broadcast.cpp). The
-- broadcast negotiates with the platform on a thread of its own, over requests that are retried and
-- that refresh the shared credentials, and then sends heartbeats until it is stopped or fails. The
-- frames and the sound that the application sends go through the broadcast to the video capturer
-- (src/VideoCapturer.cpp) and the audio device (src/AudioDevice.cpp), which hand them on to WebRTC.
--
-- Base: numbers, lists, 32-bit arithmetic, and `Outcome`, what a call does: it returns, throws, does
--   not return within the given depth, or is undefined. `M S A` passes a state of type `S` on.
-- Api: the enums of include/caffeine.h.
-- Utils, Policy: src/Utils.hpp, src/Policy.hpp, src/Policy.cpp: strings, limits, the aspect ratio and
--   the title. Strings are lists of bytes. `trim` is `none` where `std::isspace` is undefined, which is
--   for bytes from 128 on, as `char` is taken to be signed.
-- Audio: `AudioDevice` of src/AudioDevice.cpp. `send_audio` is the loop of `sendAudio` on fuel; one
--   more than the number of bytes is enough.
-- Video: `VideoCapturer` of src/VideoCapturer.cpp. `fit` chooses the size in `int` arithmetic, where
--   `none` is undefined behaviour, and `send_video` is the whole of `sendVideo`, where `none` is also an
--   overflow of the time span.
-- Rest: src/RestApi.hpp, src/RestApi.cpp, src/Urls.cpp, src/Serialization.cpp. `Network` holds what
--   libcurl, the clock and the JSON library do; `Session` adds the shared credentials. `Retry` is
--   `retryRequest`; `Auth` is `signIn`, `refreshAuth` and `refreshCredentials`; `Calls` are the other
--   requests, and `Checks` those of the version and the connection. A request that calls itself after
--   a refresh has the depth of these calls as fuel.
-- Broadcast: src/Broadcast.hpp, src/Broadcast.cpp. `State` is the object, `Platform` what it calls; its
--   requests may throw.
--   `Calls` are `createFeed`, `updateFeed` and `updateTitle`; `Settings` the setters and `stop`;
--   `Subscription` the message handler of `setupSubscription`; `Frames` are `sendVideo` and
--   `sendAudio`; `Thread` is `start` with its thread and `startHeartbeat`. What other threads do
--   between two steps of that thread is a parameter, `meanwhile`, that is run after every call; a
--   handler itself is one step. `Reconnect` is the `endedHandler`, up to its call of
--   `setupSubscription`. The loop of the heartbeats takes the number of its rounds as fuel.
-- Websocket: `GraphqlSubscription` of src/WebsocketApi.hpp; `Wire` holds what websocketpp and the JSON
--   library do. Its `ended` handler calls the one of `Reconnect`.
-- Peer: src/PeerConnectionObserver.cpp, src/SessionDescriptionObserver.cpp. A promise is its value.
-- Statistics: `serializeWebrtcStats` of src/Serialization.cpp; `Format` holds what the JSON library does.
-- Instance: `Instance` of src/Instance.cpp, which owns the credentials and the broadcast. It calls the
--   requests of Rest; its broadcast is a client id, with a record of what was begun, ended, reported. The
--   task of a failure takes two steps, `dispatch_failure`, and other threads may run between them. What
--   `Broadcast::start` does to the world of the instance is a parameter.
-- Encoder: src/X264Encoder.hpp, src/X264Encoder.cpp. `Fragments` is `rtpFragmentize`, with the memory that
--   `new` and WebRTC give as parameters; `Library` holds what x264 and WebRTC do; `Coding` is the object
--   with its constructor and `Release`, `Opening` is `InitEncode` and `SetRateAllocation`, and `Encode`
--   is `Encode`. `Content` describes the byte stream on its own.
-- Logging: src/LogSink.cpp.
-- Interface: src/Caffeine.cpp. `Results` is `caff_resultString`, `Library` is `caff_initialize`, and
--   `Functions` are those of an instance, which call Instance and Broadcast. A handle is null or points
--   to the one instance; a call is one step.
-- Tests: the theorems at concrete inputs.
--
-- Not modelled: logging, and the locks, since every access that they guard is one step here; WebRTC,
-- libyuv, x264, libcurl and the JSON library, which are parameters; the set-up of websocketpp's
-- client, and the queue of src/StatsObserver.cpp; the making and freeing of an instance;
-- src/CaffQL.hpp, which is generated, and third_party.
pub mod Base
pub mod Api
pub mod Utils
pub mod Policy
pub mod Audio
pub mod Video
pub mod Rest
pub mod Encoder
pub mod Broadcast
pub mod Peer
pub mod Websocket
pub mod Statistics
pub mod Instance
pub mod Logging
pub mod Interface
pub mod Tests
