-- ===== src/Websocket.antt =====
-- `GraphqlSubscription` of src/WebsocketApi.hpp, over the connections of src/WebsocketApi.cpp.
-- `events` records, the last one first, what is done with the connections and the handlers.

pub mod Balance
use libcaffeine.Base.{Bool, true, false, if◌then◌else◌, Option, none, some, List, [], ◌∷◌}
use libcaffeine.Base.Bytes.{Bytes, text, bytes_eq}
use libcaffeine.Base.Outcome.{done, M, pure, ◌>>=◌, ◌>>◌}
use libcaffeine.Broadcast.Reconnect.{ConnectionEndType}

-- A response: what the GraphQL operation unpacks, or the messages of its errors.
pub data Response (Data : Type 0) : Type 0 where
  payload : Data → Response Data
  errors : List Bytes → Response Data

-- What a subscription calls: websocketpp, the JSON library, and the requests of src/RestApi.cpp.
pub record Wire : Type 1 where
  pub World : Type 0
  pub Connection : Type 0
  pub Json : Type 0
  pub Data : Type 0
  -- `none` where the connection cannot be initialised
  pub connect : World → Option Connection × World
  pub send : Connection → Bytes → World → World
  pub close : Connection → World → World
  -- `none` where the library throws
  pub parse : Bytes → Option Json
  pub find_type : Json → Option Bytes
  pub unpack : Json → Option (Response Data)
  -- the text of the first message, from the credential
  pub connection_init : Bytes → Bytes
  pub credential : World → Bytes
  pub refresh_credentials : World → Bool × World

-- A connection is opened, asked to close, or sent a message; a response is handled; websocketpp reports
-- the end of a connection, and the ended handler is called.
pub data Event (wire : Wire) : Type 0 where
  opened closed : wire.Connection → Event wire
  sent : wire.Connection → Bytes → Event wire
  handled : Response wire.Data → Event wire
  ended : wire.Connection → ConnectionEndType → Event wire
  ended_with : ConnectionEndType → Event wire

-- `connection_params` is the text of the message that starts the operation; the other two say
-- whether the handlers are set.
pub record Subscription (wire : Wire) : Type 0 where
  pub world : wire.World
  pub connection : Option wire.Connection
  pub connection_params : Bytes
  pub has_message_handler : Bool
  pub has_ended_handler : Bool
  pub events : List (Event wire)

-- Whether one of the errors says so.
unfoldable pub has_expired : List Bytes → Bool
has_expired [] = false
has_expired (message ∷ messages) =
    if bytes_eq message (text "credential expired") then true else has_expired messages

module _ (wire : Wire) where
  abbrev pub get : M (Subscription wire) (Subscription wire)
  get s = (done s, s)

  abbrev pub record_event : Event wire → M (Subscription wire) (Unit {0})
  record_event e s = (done tt, record s { events = e ∷ s.events })

  unfoldable pub send_message : wire.Connection → Bytes → M (Subscription wire) (Unit {0})
  send_message c message s = (
    done tt,
    record s { world = wire.send c message s.world; events = sent c message ∷ s.events },
  )

  unfoldable pub disconnect_from : Option wire.Connection → M (Subscription wire) (Unit {0})
  disconnect_from none s = (done tt, s)
  disconnect_from (some c) s = (
    done tt,
    record s { world = wire.close c s.world; connection = none; events = closed c ∷ s.events },
  )

  unfoldable pub disconnect : M (Subscription wire) (Unit {0})
  unfolding disconnect_from
  disconnect = get >>= λ s. disconnect_from s.connection

  unfoldable pub connected : Option wire.Connection → M (Subscription wire) (Unit {0})
  connected none s = (done tt, record s { connection = none })
  connected (some c) s = (done tt, record s { connection = some c; events = opened c ∷ s.events })

  unfoldable pub open_connection : M (Subscription wire) (Unit {0})
  unfolding connected
  open_connection s = let r = wire.connect s.world in connected r.0 (record s { world = r.1 })

  unfoldable pub connect : M (Subscription wire) (Unit {0})
  unfolding disconnect open_connection
  connect = disconnect >> open_connection

  -- The three handlers of a connection. The subscription exists, or they do nothing.
  unfoldable pub on_opened : wire.Connection → M (Subscription wire) (Unit {0})
  unfolding send_message
  on_opened c =
      (get >>= λ s. send_message c (wire.connection_init (wire.credential s.world)))
      >> (get >>= λ s. send_message c s.connection_params)

  unfoldable pub on_ended : wire.Connection → ConnectionEndType → M (Subscription wire) (Unit {0})
  on_ended c end =
      record_event (ended c end)
      >> (get >>= λ s. if s.has_ended_handler then record_event (ended_with end) else pure tt)

  unfoldable pub handle : Response wire.Data → M (Subscription wire) (Unit {0})
  handle response =
      get >>= λ s. if s.has_message_handler then record_event (handled response) else pure tt

  unfoldable pub refresh : M (Subscription wire) Bool
  refresh s = let r = wire.refresh_credentials s.world in (done r.0, record s { world = r.1 })

  unfoldable pub with_refreshed : Response wire.Data → Bool → M (Subscription wire) (Unit {0})
  unfolding connect handle
  with_refreshed response refreshed = if refreshed then connect else handle response

  unfoldable pub with_response : Response wire.Data → M (Subscription wire) (Unit {0})
  unfolding refresh with_refreshed handle has_expired
  with_response (payload d) = handle (payload d)
  with_response (errors messages) =
      if has_expired messages
      then refresh >>= with_refreshed (errors messages)
      else handle (errors messages)

  unfoldable pub is_data : Option Bytes → Bool
  is_data none = false
  is_data (some type) = bytes_eq type (text "data")

  unfoldable pub with_unpacked : Option (Response wire.Data) → M (Subscription wire) (Unit {0})
  unfolding with_response
  with_unpacked none = pure tt
  with_unpacked (some response) = with_response response

  unfoldable pub with_json : Option wire.Json → M (Subscription wire) (Unit {0})
  unfolding is_data with_unpacked
  with_json none = pure tt
  with_json (some json) =
      if is_data (wire.find_type json) then with_unpacked (wire.unpack json) else pure tt

  unfoldable pub message_received : Bytes → M (Subscription wire) (Unit {0})
  unfolding with_json
  message_received message = with_json (wire.parse message)
