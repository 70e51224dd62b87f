-- ===== src/Peer.antt =====
-- src/PeerConnectionObserver.cpp and src/SessionDescriptionObserver.cpp: what WebRTC's callbacks keep for
-- the thread that waits for them. A promise is the value that it has, and takes one only once.

pub mod Gathering
use libcaffeine.Base.{Bool, true, false, Option, none, some, List, [], ◌∷◌, ◌++◌}
use libcaffeine.Base.Int.{ℤ}
use libcaffeine.Base.Bytes.{Bytes}
use libcaffeine.Base.Outcome.{done, M, pure, throw, continue}
use libcaffeine.Api.{CaffResult, broadcast_failed}
use libcaffeine.Rest.Types.{IceInfo}

-- `std::promise::set_value`, which throws where there is a value.
unfoldable pub set_value : {A : Type 0} → A → M (Option A) (Unit {0})
set_value a none = (done tt, some a)
set_value a (some b) = (throw (some b))

-- The promises of `CreateSessionDescriptionObserver` and `SetSessionDescriptionObserver`; a description
-- that is missing is the null pointer.
unfoldable create_on_success :
    {Description : Type 0} → Description → M (Option (Option Description)) (Unit {0})
unfolding set_value
create_on_success description = set_value (some description)

unfoldable create_on_failure :
    {Description : Type 0} → Bytes → M (Option (Option Description)) (Unit {0})
unfolding set_value
create_on_failure error = set_value none

unfoldable set_on_success : M (Option Bool) (Unit {0})
unfolding set_value
set_on_success = set_value true

unfoldable set_on_failure : Bytes → M (Option Bool) (Unit {0})
unfolding set_value
set_on_failure error = set_value false

-- WebRTC's `IceConnectionState` and `IceGatheringState`.
pub data IceConnectionState : Type 0 where
  ice_new checking connected completed failed disconnected closed invalid : IceConnectionState

pub data IceGatheringState : Type 0 where
  gathering_new gathering complete unrecognized : IceGatheringState

-- `sdp` is what `ToString` writes, if it can.
pub record IceCandidate : Type 0 where
  pub sdp : Option Bytes
  pub sdp_mid : Bytes
  pub sdp_m_line_index : ℤ

-- The promise is of a reference to `gathered_candidates`, so it holds no list of its own. `failures`
-- are the calls of `failedCallback`, the last one first.
pub record PeerConnectionObserver : Type 0 where
  pub promise : Option (Unit {0})
  pub gathered_candidates : List IceInfo
  pub failures : List CaffResult

unfoldable pub on_ice_connection_change : IceConnectionState → M PeerConnectionObserver (Unit {0})
on_ice_connection_change failed s = (done tt, record s { failures = broadcast_failed ∷ s.failures })
on_ice_connection_change disconnected s = (done tt, s)
on_ice_connection_change closed s = (done tt, s)
on_ice_connection_change ice_new s = (done tt, s)
on_ice_connection_change checking s = (done tt, s)
on_ice_connection_change completed s = (done tt, s)
on_ice_connection_change connected s = (done tt, s)
on_ice_connection_change invalid s = (done tt, s)

unfoldable pub on_ice_gathering_change : IceGatheringState → M PeerConnectionObserver (Unit {0})
unfolding set_value
on_ice_gathering_change gathering_new s = (done tt, s)
on_ice_gathering_change gathering s = (done tt, s)
on_ice_gathering_change complete s =
    let r = set_value tt s.promise in (r.0, record s { promise = r.1 })
on_ice_gathering_change unrecognized s = (done tt, s)

unfoldable pub gathered : Option Bytes → IceCandidate → M PeerConnectionObserver (Unit {0})
gathered none candidate s = (done tt, s)
gathered (some sdp) candidate s = (
  done tt,
  record s {
    gathered_candidates =
        s.gathered_candidates
        ++ (record {
          sdp = sdp;
          sdp_mid = candidate.sdp_mid;
          sdp_m_line_index = candidate.sdp_m_line_index;
        }
            ∷ []);
  },
)

-- `none` is the null pointer.
unfoldable pub on_ice_candidate : Option IceCandidate → M PeerConnectionObserver (Unit {0})
unfolding gathered
on_ice_candidate none = throw
on_ice_candidate (some candidate) = gathered candidate.sdp candidate
