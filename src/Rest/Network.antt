-- ===== src/Rest/Network.antt =====
-- What src/RestApi.cpp calls: libcurl, the clock, and the JSON library.
use libcaffeine.Base.{ℕ, Option, List, Bool}
use libcaffeine.Base.Int.{ℤ}
use libcaffeine.Base.Bytes.{Bytes}
use libcaffeine.Base.Outcome.{Outcome, done, M}
use libcaffeine.Rest.Types.{Credentials}

pub record Part : Type 0 where
  pub name : Bytes
  pub file_name : Option Bytes
  pub content : Bytes
  pub content_type : Bytes

pub data Body : Type 0 where
  no_body : Body
  post_fields : Bytes → Body
  form : List Part → Body

-- The options that a request sets on its curl handle.
pub record Request : Type 0 where
  pub headers : List Bytes
  pub connect_timeout : ℕ
  pub low_speed_limit : ℕ
  pub low_speed_time : ℕ
  pub url : Bytes
  pub body : Body
  pub custom_request : Option Bytes

pub data CurlError : Type 0 where
  couldnt_resolve_host couldnt_connect : CurlError
  other_error : ℕ → CurlError

-- What `curl_easy_perform` leaves: an error, or a status code and a body.
pub data Reply : Type 0 where
  failed : CurlError → Reply
  response : ℕ → Bytes → Reply

-- `none` marks the calls of the JSON library that throw. `index_key` is `operator[]` of a constant
-- value, which throws where that is no object, and is undefined where the key is missing.
pub record Network : Type 1 where
  pub World : Type 0
  pub perform : Request → World → Reply × World
  pub sleep : ℕ → World → World
  pub ping : Bytes → World → Bool × World
  pub Json : Type 0
  pub parse : Bytes → Option Json
  pub dump : Json → Option Bytes
  pub json_string : Bytes → Json
  pub json_int : ℤ → Json
  pub json_object : List (Bytes × Json) → Json
  pub json_array : List Json → Json
  pub find : Bytes → Json → Option Json
  pub at_key : Bytes → Json → Option Json
  pub at_index : ℕ → Json → Option Json
  pub index_key : Bytes → Json → Outcome Json
  pub get_string : Json → Option Bytes
  pub get_bool : Json → Option Bool
  pub get_int : Json → Option ℤ
  pub get_size : Json → Option ℕ
  pub is_null : Json → Bool
  pub is_array : Json → Bool
  pub items : Json → List Json

-- The globals of the library: who the client is, and the domain that the requests go to.
pub record Client : Type 0 where
  pub client_type : Bytes
  pub client_version : Bytes
  pub libcaffeine_version : Bytes
  pub domain : Bytes

-- The state of a request that uses the shared credentials.
pub record Session (net : Network) : Type 0 where
  pub world : net.World
  pub credentials : Credentials

module _ (net : Network) where
  -- A request that does not use the credentials.
  abbrev pub on_world {ℓ} : {A : Type ℓ} → M (net.World) A → M (Session net) A
  on_world m s = let r = m s.world in (r.0, record s { world = r.1 })

  abbrev pub perform_request : Request → M (net.World) Reply
  perform_request q w = let r = net.perform q w in (done r.0, r.1)
