-- ===== src/Websocket/Balance.antt =====
-- The connections that a subscription opens and closes, over any sequence of what it is asked to do.
use mathlib.Core.Path.{subst}
use mathlib.Core.Option.{some-injective}
use libcaffeine.Base.{
  Bool, true, false, ◌||◌, ◌∙◌, if◌then◌else◌, Option, none, some, List, [], ◌∷◌, ◌≡◌, refl,
}
use libcaffeine.Base.Bytes.{Bytes}
use libcaffeine.Base.Outcome.{M, pure, ◌>>=◌, ◌>>◌}
use libcaffeine.Broadcast.Reconnect.{ConnectionEndType}
use libcaffeine.Websocket.{
  Wire, Subscription, Event, opened, closed, sent, handled, ended, ended_with, Response, payload,
  errors, disconnect, disconnect_from, connected, open_connection, connect, on_opened, on_ended,
  handle, send_message, with_refreshed, with_response, with_json, with_unpacked, message_received,
  has_expired, is_data, refresh, record_event,
}

-- The connection that a subscription holds, and whether websocketpp has reported its end.
pub data Held (wire : Wire) : Type 0 where
  nothing : Held wire
  held : wire.Connection → Bool → Held wire

abbrev pub connection_of : {wire : Wire} → Held wire → Option wire.Connection
connection_of nothing = none
connection_of (held c over) = some c

module _ (wire : Wire) (same : wire.Connection → wire.Connection → Bool) where
  -- The end of a connection is reported, which may be another one than the one that is held.
  abbrev pub mark_ended : wire.Connection → Held wire → Held wire
  mark_ended c nothing = nothing
  mark_ended c (held d over) = held d (over || same c d)

  -- A history after which this connection, or none, is held: one is opened only where every one
  -- before it has been asked to close, and only the one that is held is, once, whether or not it has
  -- ended by then.
  pub data Balanced : List (Event wire) → Held wire → Type 0 where
    starts : Balanced [] nothing
    opens :
        {es : List (Event wire)} {c : wire.Connection}
        → Balanced es nothing
        → Balanced (opened c ∷ es) (held c false)
    closes :
        {es : List (Event wire)} {c : wire.Connection} {over : Bool}
        → Balanced es (held c over)
        → Balanced (closed c ∷ es) nothing
    sends :
        {es : List (Event wire)} {h : Held wire} {c : wire.Connection} {m : Bytes}
        → Balanced es h
        → Balanced (sent c m ∷ es) h
    handles :
        {es : List (Event wire)} {h : Held wire} {r : Response wire.Data}
        → Balanced es h
        → Balanced (handled r ∷ es) h
    ends :
        {es : List (Event wire)} {h : Held wire} {c : wire.Connection} {e : ConnectionEndType}
        → Balanced es h
        → Balanced (ended c e ∷ es) (mark_ended c h)
    reports_end :
        {es : List (Event wire)} {h : Held wire} {e : ConnectionEndType}
        → Balanced es h
        → Balanced (ended_with e ∷ es) h

-- What the application and websocketpp ask of it, the destructor included.
pub data Call (wire : Wire) : Type 0 where
  start finish : Call wire
  on_open : wire.Connection → Call wire
  on_end : wire.Connection → ConnectionEndType → Call wire
  on_message : Bytes → Call wire

module _ (wire : Wire) (same : wire.Connection → wire.Connection → Bool) where
  abbrev pub run_call : Call wire → M (Subscription wire) (Unit {0})
  run_call start = connect wire
  run_call finish = disconnect wire
  run_call (on_open c) = on_opened wire c
  run_call (on_end c e) = on_ended wire c e
  run_call (on_message m) = message_received wire m

  abbrev pub run_calls : List (Call wire) → Subscription wire → Subscription wire
  run_calls [] s = s
  run_calls (c ∷ cs) s = run_calls cs (run_call c s).1

  -- The history is one after which the connection of the subscription is held.
  abbrev pub Keeps : Subscription wire → Type 0
  Keeps s = (h : Held wire) × (connection_of h ≡ s.connection) × Balanced wire same s.events h

  holds_nothing :
      (h : Held wire) {es : List (Event wire)}
      → connection_of h ≡ none
      → Balanced wire same es h
      → Balanced wire same es nothing
  holds_nothing nothing e b = b
  holds_nothing (held c over) e b = cc

  closing :
      (h : Held wire) (c : wire.Connection) {es : List (Event wire)}
      → connection_of h ≡ some c
      → Balanced wire same es h
      → Balanced wire same (closed c ∷ es) nothing
  closing nothing c e b = cc
  closing (held d over) c {es} e b =
      subst (λ c. Balanced wire same (closed c ∷ es) nothing) (some-injective _ _ e) (closes b)

  connected-Keeps :
      (o : Option wire.Connection) (s : Subscription wire)
      → Balanced wire same s.events nothing
      → Keeps (connected wire o s).1
  unfolding connected
  connected-Keeps none s b = (nothing, refl, b)
  connected-Keeps (some c) s b = (held c false, refl, opens b)

  disconnect_from-Keeps :
      (o : Option wire.Connection) (s : Subscription wire)
      → s.connection ≡ o
      → Keeps s
      → Keeps (disconnect_from wire o s).1
  unfolding disconnect_from
  disconnect_from-Keeps none s e k = k
  disconnect_from-Keeps (some c) s e (h, q, b) = (nothing, refl, closing h c (q ∙ e) b)

  connect_from-Keeps :
      (o : Option wire.Connection) (s : Subscription wire)
      → s.connection ≡ o
      → Keeps s
      → Keeps ((disconnect_from wire o >> open_connection wire) s).1
  unfolding disconnect_from open_connection
  connect_from-Keeps none s e (h, q, b) =
      connected-Keeps _ (record s { world = (wire.connect s.world).1 }) (holds_nothing h (q ∙ e) b)
  connect_from-Keeps (some c) s e (h, q, b) =
      connected-Keeps _
        (record s {
          world = (wire.connect (wire.close c s.world)).1;
          connection = none;
          events = closed c ∷ s.events;
        })
        (closing h c (q ∙ e) b)

  connect-Keeps : (s : Subscription wire) → Keeps s → Keeps (connect wire s).1
  unfolding connect disconnect
  connect-Keeps s k = connect_from-Keeps s.connection s refl k

  if-Keeps :
      (b : Bool) (m n : M (Subscription wire) (Unit {0})) (s : Subscription wire)
      → Keeps (m s).1
      → Keeps (n s).1
      → Keeps ((if b then m else n) s).1
  if-Keeps true m n s j k = j
  if-Keeps false m n s j k = k

  handle-Keeps :
      (r : Response wire.Data) (s : Subscription wire) → Keeps s → Keeps (handle wire r s).1
  unfolding handle
  handle-Keeps r s k =
      if-Keeps s.has_message_handler (record_event wire (handled r)) (pure tt) s
        (let (h, q, b) = k in (h, q, handles b)) k

  mark_ended_connection :
      (c : wire.Connection) (h : Held wire)
      → connection_of (mark_ended wire same c h) ≡ connection_of h
  mark_ended_connection c nothing = refl
  mark_ended_connection c (held d over) = refl

  on_ended-Keeps :
      (c : wire.Connection) (e : ConnectionEndType) (s : Subscription wire)
      → Keeps s
      → Keeps (on_ended wire c e s).1
  unfolding on_ended
  on_ended-Keeps c e s (h, q, b) =
      if-Keeps s.has_ended_handler (record_event wire (ended_with e)) (pure tt)
        (record s { events = ended c e ∷ s.events })
        (mark_ended wire same c h, mark_ended_connection c h ∙ q, reports_end (ends b))
        (mark_ended wire same c h, mark_ended_connection c h ∙ q, ends b)

  with_response-Keeps :
      (r : Response wire.Data) (s : Subscription wire) → Keeps s → Keeps (with_response wire r s).1
  unfolding with_response with_refreshed refresh
  with_response-Keeps (payload d) s k = handle-Keeps (payload d) s k
  with_response-Keeps (errors messages) s k =
      if-Keeps (has_expired messages) (refresh wire >>= with_refreshed wire (errors messages))
        (handle wire (errors messages)) s
        (if-Keeps r.0 (connect wire) (handle wire (errors messages)) t (connect-Keeps t k)
          (handle-Keeps (errors messages) t k))
        (handle-Keeps (errors messages) s k)
    where
      r : Bool × wire.World
      r = wire.refresh_credentials s.world

      t : Subscription wire
      t = record s { world = r.1 }

  unpacked-Keeps :
      (o : Option (Response wire.Data)) (s : Subscription wire)
      → Keeps s
      → Keeps (with_unpacked wire o s).1
  unfolding with_unpacked
  unpacked-Keeps none s k = k
  unpacked-Keeps (some response) s k = with_response-Keeps response s k

  with_json-Keeps :
      (o : Option wire.Json) (s : Subscription wire) → Keeps s → Keeps (with_json wire o s).1
  unfolding with_json
  with_json-Keeps none s k = k
  with_json-Keeps (some json) s k =
      if-Keeps (is_data wire (wire.find_type json)) (with_unpacked wire (wire.unpack json))
        (pure tt) s (unpacked-Keeps (wire.unpack json) s k) k

  run_call-Keeps : (c : Call wire) (s : Subscription wire) → Keeps s → Keeps (run_call c s).1
  unfolding disconnect on_opened send_message message_received
  run_call-Keeps start s k = connect-Keeps s k
  run_call-Keeps finish s k = disconnect_from-Keeps s.connection s refl k
  run_call-Keeps (on_open c) s (h, q, b) = (h, q, sends (sends b))
  run_call-Keeps (on_end c e) s k = on_ended-Keeps c e s k
  run_call-Keeps (on_message m) s k = with_json-Keeps (wire.parse m) s k

  -- If the history of a subscription is one in which a connection is opened only where every one
  -- before it has been asked to close, and only the one that is held is asked so, once and whether or
  -- not websocketpp has reported its end by then, and if its connection is the one that is held, then
  -- this is so after any sequence of connecting, disconnecting, opened and ended connections and
  -- messages, among them those that report an expired credential and lead to a new connection.
  pub run_calls-Balanced :
      (cs : List (Call wire)) (s : Subscription wire) → Keeps s → Keeps (run_calls cs s)
  run_calls-Balanced [] s k = k
  run_calls-Balanced (c ∷ cs) s k = run_calls-Balanced cs (run_call c s).1 (run_call-Keeps c s k)
