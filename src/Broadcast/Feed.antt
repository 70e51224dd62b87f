-- ===== src/Broadcast/Feed.antt =====
-- What a created feed leaves in the broadcast.
use libcaffeine.Base.{◌≡◌, refl, ap, arith, Option, none, some, Option-cases, Bool-cases, inl, inr}
use libcaffeine.Base.Bytes.{Bytes}
use libcaffeine.Base.Outcome.{Outcome, done, thrown, unfinished, undefined, continue}
use libcaffeine.Broadcast.State.{starting, require_state}
use libcaffeine.Broadcast.Platform.{Platform, Run, AddFeedPayload, BroadcasterStream}
use libcaffeine.Broadcast.Calls.{
  answered, create_feed, with_payload, with_id, with_stream, offer_input,
}

module _ (p : Platform) where
  -- The request for the feed went through without an error, with an id and a stream, and the
  -- broadcast holds that id and the address of the stream.
  pub record Created (s : Run p) (offer sdp : Bytes) (s' : Run p) : Type 0 where
    pub payload : AddFeedPayload
    pub stream : BroadcasterStream
    pub id : Bytes
    pub asked : (p.add_feed (offer_input p offer s.broadcast) s.world).0 ≡ done (some payload)
    pub no_error : payload.error ≡ none
    pub the_id : payload.broadcast_id ≡ some id
    pub the_stream : payload.stream ≡ some stream
    pub same_sdp : stream.sdp_answer ≡ sdp
    pub kept :
        s'.broadcast ≡ record (s.broadcast) { broadcast_id = some id; stream_url = stream.url }

  -- The same of what is done with the answer to the request.
  with_stream-Created :
      (sdp : Bytes) (o : Option BroadcasterStream) (s s' : Run p)
      → with_stream p o s ≡ (done (answered sdp), s')
      → (stream : BroadcasterStream) × (o ≡ some stream)
        × (stream.sdp_answer ≡ sdp)
        × (s'.broadcast ≡ record (s.broadcast) { stream_url = stream.url })
  unfolding with_stream
  with_stream-Created sdp none s s' e = cc
  with_stream-Created sdp (some stream) s s' e = (stream, refl, ground arith, ground arith)

  with_payload-Created :
      (sdp : Bytes) (o : Option AddFeedPayload) (s s' : Run p)
      → with_payload p o s ≡ (done (answered sdp), s')
      → (payload : AddFeedPayload) × (stream : BroadcasterStream) × (id : Bytes) × (o
          ≡ some payload)
        × (payload.error ≡ none)
        × (payload.broadcast_id ≡ some id)
        × (payload.stream ≡ some stream)
        × (stream.sdp_answer ≡ sdp)
        × (s'.broadcast ≡ record (s.broadcast) { broadcast_id = some id; stream_url = stream.url })
  unfolding with_payload with_id
  with_payload-Created sdp none s s' e = cc
  with_payload-Created sdp (some payload) s s' e = elim (Option-cases payload.error) [
    | inr (r, f) ↦ absurd (ground (arith, f))
    | inl f ↦ elim (Option-cases payload.broadcast_id) [
      | inl g ↦ absurd (ground (arith, f, g))
      | inr (id, g) ↦
          let (stream, a, b, c) =
            with_stream-Created sdp payload.stream
              (record s { broadcast = record (s.broadcast) { broadcast_id = some id } }) s'
              (rw (f, with_payload, g, with_id) at e) in
          (payload, stream, id, refl, f, g, a, b, c)
    ]
  ]

  asked-Created :
      (sdp : Bytes) (o : Outcome (Option AddFeedPayload)) (s s' : Run p)
      → continue (with_payload p) o s ≡ (done (answered sdp), s')
      → (payload : AddFeedPayload) × (stream : BroadcasterStream) × (id : Bytes) × (o
          ≡ done (some payload))
        × (payload.error ≡ none)
        × (payload.broadcast_id ≡ some id)
        × (payload.stream ≡ some stream)
        × (stream.sdp_answer ≡ sdp)
        × (s'.broadcast ≡ record (s.broadcast) { broadcast_id = some id; stream_url = stream.url })
  asked-Created sdp (done o) s s' e =
      let (payload, stream, id, a, b, c, d, f, g) = with_payload-Created sdp o s s' e in
      (payload, stream, id, ap done a, b, c, d, f, g)
  asked-Created sdp thrown s s' e = cc
  asked-Created sdp unfinished s s' e = cc
  asked-Created sdp undefined s s' e = cc

  -- If `createFeed` answers an SDP, then the service has accepted the feed without an error and
  -- that SDP is the one it sent; the broadcast then has its id and the address of its stream, and
  -- nothing else of it has changed.
  pub create_feed-Created :
      (offer sdp : Bytes) (s s' : Run p)
      → create_feed p offer s ≡ (done (answered sdp), s')
      → Created s offer sdp s'
  unfolding create_feed
  create_feed-Created offer sdp s s' e = elim (Bool-cases (require_state starting s.broadcast)) [
    | inr other ↦ absurd (ground (arith, other))
    | inl same ↦
        let (payload, stream, id, a, b, c, d, f, g) =
          asked-Created sdp (p.add_feed (offer_input p offer s.broadcast) s.world).0
            (record s { world = (p.add_feed (offer_input p offer s.broadcast) s.world).1 }) s'
            (rw (same, create_feed) at e) in
        record {
          payload = payload;
          stream = stream;
          id = id;
          asked = a;
          no_error = b;
          the_id = c;
          the_stream = d;
          same_sdp = f;
          kept = g;
        }
  ]
