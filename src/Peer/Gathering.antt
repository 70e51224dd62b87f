-- ===== src/Peer/Gathering.antt =====
-- What the observer of src/PeerConnectionObserver.cpp keeps over any sequence of callbacks.
use libcaffeine.Base.{
  Bool, true, false, not, ◌&&◌, ◌||◌, Option, none, some, List, [], ◌∷◌, ◌++◌, append-nil,
  append_assoc, ◌≡◌, refl, sym, ap, ◌∙◌, arith,
}
use libcaffeine.Base.Bytes.{Bytes}
use libcaffeine.Base.Outcome.{Outcome, done, M, pure, ◌>>◌, then_done}
use libcaffeine.Api.{CaffResult, broadcast_failed}
use libcaffeine.Rest.Types.{IceInfo}
use libcaffeine.Peer.{
  IceConnectionState, ice_new, checking, connected, completed, failed, disconnected, closed,
  invalid, IceGatheringState, gathering_new, gathering, complete, unrecognized, IceCandidate,
  PeerConnectionObserver, on_ice_connection_change, on_ice_gathering_change, on_ice_candidate,
  gathered,
}

pub data Callback : Type 0 where
  ice_connection_change : IceConnectionState → Callback
  ice_gathering_change : IceGatheringState → Callback
  ice_candidate : Option IceCandidate → Callback

abbrev run_callback : Callback → M PeerConnectionObserver (Unit {0})
run_callback (ice_connection_change state) = on_ice_connection_change state
run_callback (ice_gathering_change state) = on_ice_gathering_change state
run_callback (ice_candidate candidate) = on_ice_candidate candidate

abbrev pub run_callbacks : List Callback → M PeerConnectionObserver (Unit {0})
run_callbacks [] = pure tt
run_callbacks (c ∷ cs) = run_callback c >> run_callbacks cs

-- What a callback says, apart from what the observer does with it.
unfoldable pub completes : Callback → Bool
completes (ice_connection_change state) = false
completes (ice_gathering_change gathering_new) = false
completes (ice_gathering_change gathering) = false
completes (ice_gathering_change complete) = true
completes (ice_gathering_change unrecognized) = false
completes (ice_candidate candidate) = false

unfoldable pub is_null : Callback → Bool
is_null (ice_connection_change state) = false
is_null (ice_gathering_change state) = false
is_null (ice_candidate none) = true
is_null (ice_candidate (some candidate)) = false

-- Nothing, where WebRTC cannot write the candidate.
unfoldable pub written : Option Bytes → IceCandidate → List IceInfo
written none candidate = []
written (some sdp) candidate =
    record { sdp = sdp; sdp_mid = candidate.sdp_mid; sdp_m_line_index = candidate.sdp_m_line_index }
    ∷ []

unfoldable pub candidate_of : Callback → List IceInfo
unfolding written
candidate_of (ice_connection_change state) = []
candidate_of (ice_gathering_change state) = []
candidate_of (ice_candidate none) = []
candidate_of (ice_candidate (some candidate)) = written candidate.sdp candidate

unfoldable pub failure_of : Callback → List CaffResult
failure_of (ice_connection_change failed) = broadcast_failed ∷ []
failure_of (ice_connection_change ice_new) = []
failure_of (ice_connection_change checking) = []
failure_of (ice_connection_change connected) = []
failure_of (ice_connection_change completed) = []
failure_of (ice_connection_change disconnected) = []
failure_of (ice_connection_change closed) = []
failure_of (ice_connection_change invalid) = []
failure_of (ice_gathering_change state) = []
failure_of (ice_candidate candidate) = []

-- No candidate is null, and the gathering completes once at most, where `b` says that it has.
unfoldable pub is_legal : Bool → List Callback → Bool
unfolding completes is_null
is_legal b [] = true
is_legal b (c ∷ cs) = not (is_null c) && (not (completes c && b) && is_legal (completes c || b) cs)

unfoldable pub has_completed : Bool → List Callback → Bool
unfolding completes
has_completed b [] = b
has_completed b (c ∷ cs) = has_completed (completes c || b) cs

unfoldable pub candidates_of : List Callback → List IceInfo
unfolding candidate_of
candidates_of [] = []
candidates_of (c ∷ cs) = candidate_of c ++ candidates_of cs

unfoldable pub failures_of : List CaffResult → List Callback → List CaffResult
unfolding failure_of
failures_of fs [] = fs
failures_of fs (c ∷ cs) = failures_of (failure_of c ++ fs) cs

abbrev pub promised : Bool → Option (Unit {0})
promised true = some tt
promised false = none

abbrev pub observer : Bool → List IceInfo → List CaffResult → PeerConnectionObserver
observer b candidates fs = record {
  promise = promised b;
  gathered_candidates = candidates;
  failures = fs;
}

abbrev pub returned : PeerConnectionObserver → Outcome (Unit {0}) × PeerConnectionObserver
returned s = (done tt, s)

unchanged :
    (b : Bool) (ds : List IceInfo) (fs : List CaffResult)
    → returned (observer b ds fs) ≡ returned (observer b (ds ++ []) fs)
unchanged b ds fs = ap (λ ds. returned (observer b ds fs)) (sym (append-nil ds))

run_callback_lem :
    (c : Callback) (b : Bool) (ds : List IceInfo) (fs : List CaffResult)
    → is_null c ≡ false
    → (completes c && b) ≡ false
    → run_callback c (observer b ds fs)
      ≡ returned (observer (completes c || b) (ds ++ candidate_of c) (failure_of c ++ fs))
unfolding completes is_null candidate_of failure_of on_ice_connection_change on_ice_gathering_change
    on_ice_candidate gathered written
run_callback_lem (ice_connection_change failed) b ds fs n k = unchanged b ds (broadcast_failed ∷ fs)
run_callback_lem (ice_connection_change ice_new) b ds fs n k = unchanged b ds fs
run_callback_lem (ice_connection_change checking) b ds fs n k = unchanged b ds fs
run_callback_lem (ice_connection_change connected) b ds fs n k = unchanged b ds fs
run_callback_lem (ice_connection_change completed) b ds fs n k = unchanged b ds fs
run_callback_lem (ice_connection_change disconnected) b ds fs n k = unchanged b ds fs
run_callback_lem (ice_connection_change closed) b ds fs n k = unchanged b ds fs
run_callback_lem (ice_connection_change invalid) b ds fs n k = unchanged b ds fs
run_callback_lem (ice_gathering_change gathering_new) b ds fs n k = unchanged b ds fs
run_callback_lem (ice_gathering_change gathering) b ds fs n k = unchanged b ds fs
run_callback_lem (ice_gathering_change complete) true ds fs n k = ground arith
run_callback_lem (ice_gathering_change complete) false ds fs n k = unchanged true ds fs
run_callback_lem (ice_gathering_change unrecognized) b ds fs n k = unchanged b ds fs
run_callback_lem (ice_candidate none) b ds fs n k = ground arith
run_callback_lem (ice_candidate (some candidate)) b ds fs n k = gathers candidate.sdp
  where
    gathers :
        (sdp : Option Bytes)
        → gathered sdp candidate (observer b ds fs)
          ≡ returned (observer b (ds ++ written sdp candidate) fs)
    gathers none = unchanged b ds fs
    gathers (some sdp) = refl

run_callbacks_lem :
    (cs : List Callback) (b : Bool) (ds : List IceInfo) (fs : List CaffResult)
    → is_legal b cs ≡ true
    → run_callbacks cs (observer b ds fs)
      ≡ returned (observer (has_completed b cs) (ds ++ candidates_of cs) (failures_of fs cs))
unfolding is_legal has_completed candidates_of failures_of
run_callbacks_lem [] b ds fs l = unchanged b ds fs
run_callbacks_lem (c ∷ cs) b ds fs l =
    then_done (run_callback c) (run_callbacks cs) (observer b ds fs)
      (run_callback_lem c b ds fs (ground arith) (ground arith))
    ∙ run_callbacks_lem cs (completes c || b) (ds ++ candidate_of c) (failure_of c ++ fs)
        (ground arith)
    ∙ ap
        (λ ds. (
          done tt,
          observer (has_completed (completes c || b) cs) ds (failures_of (failure_of c ++ fs) cs),
        ))
        (append_assoc ds (candidate_of c) (candidates_of cs))

-- Over callbacks in which no candidate is null and the gathering completes once at most, a new observer
-- returns from each, keeps its promise exactly if the gathering completed, gathers the candidates that
-- WebRTC can write, in their order, and reports a failed broadcast for each failed connection.
pub run_callbacks-observer :
    (cs : List Callback)
    → is_legal false cs ≡ true
    → run_callbacks cs (observer false [] [])
      ≡ returned (observer (has_completed false cs) (candidates_of cs) (failures_of [] cs))
run_callbacks-observer cs l = run_callbacks_lem cs false [] [] l
