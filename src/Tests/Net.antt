-- ===== src/Tests/Net.antt =====
-- Platforms that answer in a fixed way, for the examples.
use libcaffeine.Base.{if◌then◌else◌, ℕ, zero, suc, ◌+◌, true, false, Option, none, some, []}
use libcaffeine.Base.Int.{pos}
use libcaffeine.Base.Bytes.{Bytes, text, bytes_eq}
use libcaffeine.Base.Outcome.{done}
use libcaffeine.Rest.Types.{Credentials}
use libcaffeine.Rest.Network.{Network, Client, Request, Reply, response}

-- The world counts the requests and the seconds.
pub record Meter : Type 0 where
  pub requests : ℕ
  pub seconds : ℕ

-- JSON as a number: 1 is an object that holds credentials and a user, 2 those, 3 a string.
abbrev credentials_in : Bytes → ℕ → Option ℕ
credentials_in key j =
    if bytes_eq key (text "credentials")
    then some 2
    else if bytes_eq key (text "user")
    then some 2
    else none

-- A platform that answers every request by `reply`.
abbrev pub answering : (Request → ℕ → Reply) → Network
answering reply = record {
  World = Meter;
  perform = λ q w. (reply q w.requests, record w { requests = w.requests + 1 });
  sleep = λ n w. record w { seconds = w.seconds + n };
  ping = λ host w. (true, w);
  Json = ℕ;
  parse = λ body. some 1;
  dump = λ j. some [];
  json_string = λ s. 0;
  json_int = λ i. 0;
  json_object = λ fields. 0;
  json_array = λ elements. 0;
  find = credentials_in;
  at_key = λ key j. some 3;
  at_index = λ i j. some 3;
  index_key = λ key j. done 3;
  get_string = λ j. some (text "t");
  get_bool = λ j. some true;
  get_int = λ j. some (pos 0);
  get_size = λ j. some 0;
  is_null = λ j. false;
  is_array = λ j. false;
  items = λ j. [];
}

-- A platform that grants everything.
abbrev pub granting : Network
granting = answering (λ q n. response 200 [])

-- A platform that refuses the first request.
abbrev pub first_refused : ℕ → Reply
first_refused zero = response 401 []
first_refused (suc n) = response 200 []

abbrev pub refusing_first : Network
refusing_first = answering (λ q n. first_refused n)

-- A platform that refuses the requests with a method of their own, and grants the others.
abbrev refused_method : Option Bytes → Reply
refused_method none = response 200 []
refused_method (some m) = response 401 []

abbrev pub refusing_heartbeats : Network
refusing_heartbeats = answering (λ q n. refused_method q.custom_request)

abbrev pub client : Client
client = record { client_type = []; client_version = []; libcaffeine_version = []; domain = [] }

abbrev pub start : Meter
start = record { requests = 0; seconds = 0 }

abbrev pub old_credentials : Credentials
old_credentials = record { access_token = []; refresh_token = []; caid = []; credential = [] }
