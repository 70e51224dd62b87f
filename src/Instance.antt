-- ===== src/Instance.antt =====
-- `Instance` of src/Instance.hpp and src/Instance.cpp. The broadcast that it owns is its client id
-- here, and `events` records, the last one first, what is done with broadcasts and callbacks.
pub mod History
pub mod SignedIn
pub mod Starting
use libcaffeine.Base.{
  ℕ, Bool, true, false, ◌&&◌, Option, none, some, has_value, is_empty, List, [], ◌∷◌, ◌++◌,
  if◌then◌else◌,
}
use libcaffeine.Base.Bytes.{Bytes, bytes_eq}
use libcaffeine.Base.Outcome.{Outcome, done, M, pure, ◌>>=◌, ◌>>◌, continue}
use libcaffeine.Api.{
  CaffResult, success, failure, old_version, not_signed_in, already_broadcasting,
  email_verification_required,
}
use libcaffeine.Utils.{CString}
use libcaffeine.Rest.Types.{Credentials, AuthResponse, UserInfo, GameInfo, GameList}
use libcaffeine.Rest.Network.{Network, Client}
use libcaffeine.Rest.Auth
use libcaffeine.Rest.Calls
use libcaffeine.Rest.Checks

pub data Event : Type 0 where
  began ended : Bytes → Event
  reported : CaffResult → Event

-- How far the task is that a failure of a broadcast posts: none runs, its check for a
-- client id has succeeded, or it has ended the broadcast, and then calls the application's callback.
pub data Task : Type 0 where
  idle : Task
  checked : Bytes → CaffResult → Task
  stopped : CaffResult → Task

pub record Instance (net : Network) : Type 0 where
  pub world : net.World
  pub refresh_token : Option Bytes
  pub shared_credentials : Option Credentials
  pub user_info : Option UserInfo
  pub game_list : Option GameList
  pub broadcast : Option Bytes
  pub events : List Event

abbrev pub is_old_version : CaffResult → Bool
is_old_version old_version = true
is_old_version _ = false

-- The calls of an enumerator: a process name, with the id and the name of its game.
abbrev pub enumerated : GameInfo → List Bytes → List (Bytes × (Bytes × Bytes))
enumerated g [] = []
enumerated g (n ∷ ns) = (n, (g.id, g.name)) ∷ enumerated g ns

abbrev pub all_enumerated : GameList → List (Bytes × (Bytes × Bytes))
all_enumerated [] = []
all_enumerated (g ∷ gs) = enumerated g g.process_names ++ all_enumerated gs

module _ (net : Network) (client : Client) where
  abbrev pub get : M (Instance net) (Instance net)
  get s = (done s, s)

  abbrev pub modify : (Instance net → Instance net) → M (Instance net) (Unit {0})
  modify f s = (done tt, f s)

  -- A request that does not use the credentials.
  abbrev pub ask : {A : Type 0} → M (net.World) A → M (Instance net) A
  ask m s = let r = m s.world in (r.0, record s { world = r.1 })

  -- `getUserInfo` of the given credentials, which it may refresh.
  abbrev pub ask_user : ℕ → Credentials → M (Instance net) (Option UserInfo)
  ask_user fuel c s =
      let r = Calls.get_user_info net client fuel (record { world = s.world; credentials = c }) in
      (r.0, record s { world = r.1.world; shared_credentials = some r.1.credentials })

  unfoldable pub with_user : CaffResult → Option UserInfo → M (Instance net) CaffResult
  with_user result none =
      modify (λ s. record s { user_info = none; shared_credentials = none; refresh_token = none })
      >> pure failure
  with_user result (some user) = modify (λ s. record s { user_info = some user }) >> pure result

  unfoldable pub with_credentials :
      ℕ → CaffResult → Option Credentials → M (Instance net) CaffResult
  with_credentials fuel result none = pure result
  with_credentials fuel result (some c) =
      modify (λ s. record s { refresh_token = some c.refresh_token; shared_credentials = some c })
      >> (ask_user fuel c >>= with_user result)

  unfoldable pub authenticate : ℕ → M (net.World) AuthResponse → M (Instance net) CaffResult
  authenticate fuel auth = get >>= λ s.
      if has_value s.broadcast
      then pure already_broadcasting
      else ask auth >>= λ r. with_credentials fuel r.result r.credentials

  unfoldable pub sign_in : ℕ → Bytes → Bytes → CString → M (Instance net) CaffResult
  sign_in fuel username password otp =
      authenticate fuel (Auth.sign_in net client username password otp)

  unfoldable pub refresh_auth : ℕ → Bytes → M (Instance net) CaffResult
  refresh_auth fuel token = authenticate fuel (Auth.refresh_auth net client token)

  unfoldable pub end_from : Option Bytes → Instance net → Instance net
  end_from none s = s
  end_from (some id) s = record s { broadcast = none; events = ended id ∷ s.events }

  abbrev pub end_broadcast : Instance net → Instance net
  end_broadcast s = end_from s.broadcast s

  unfoldable pub sign_out : Instance net → Instance net
  sign_out s = record (end_broadcast s) {
    shared_credentials = none;
    refresh_token = none;
    user_info = none;
  }

  unfoldable pub is_signed_in : Instance net → Bool
  is_signed_in s = has_value s.shared_credentials && has_value s.user_info

  unfoldable pub can_broadcast : Instance net → Bool
  can_broadcast s = elim s.user_info [ none ↦ false | some u ↦ u.can_broadcast ]

  unfoldable pub get_access_token : Instance net → Option Bytes
  get_access_token s = elim s.shared_credentials [ none ↦ none | some c ↦ some c.access_token ]

  unfoldable pub get_credential : Instance net → Option Bytes
  get_credential s = elim s.shared_credentials [ none ↦ none | some c ↦ some c.credential ]

  unfoldable pub get_username : Instance net → Option Bytes
  get_username s = elim s.user_info [ none ↦ none | some u ↦ some u.username ]

  enumerate : Option GameList → CaffResult × List (Bytes × (Bytes × Bytes))
  enumerate none = (failure, [])
  enumerate (some games) = if is_empty games then (failure, []) else (success, all_enumerated games)

  load_games : Option GameList → M (Instance net) (Option GameList)
  load_games (some games) = pure (some games)
  load_games none = ask (Calls.get_supported_games net client) >>= λ games.
      modify (λ s. record s { game_list = games }) >> pure games

  unfoldable pub enumerate_games : M (Instance net) (CaffResult × List (Bytes × (Bytes × Bytes)))
  unfolding enumerate load_games
  enumerate_games = get >>= λ s. load_games s.game_list >>= λ games. pure (enumerate games)

  -- `start` is what `Broadcast::start` does to the world. It may throw, and the broadcast stays then.
  module _ (start : Bytes → M (net.World) (Unit {0})) where
    -- The broadcast is made and started unless there is one.
    unfoldable pub begin_broadcast : Bytes → Option Bytes → M (Instance net) CaffResult
    begin_broadcast id (some other) = pure already_broadcasting
    begin_broadcast id none =
        modify (λ s. record s { broadcast = some id; events = began id ∷ s.events })
        >> (ask (start id) >> pure success)

    unfoldable pub with_new_user : Bytes → Option UserInfo → M (Instance net) CaffResult
    with_new_user id none = pure email_verification_required
    with_new_user id (some user) =
        if user.can_broadcast
        then (modify (λ s. record s { user_info = some user })
            >> (get >>= λ s. begin_broadcast id s.broadcast))
        else pure email_verification_required

    -- The user information is asked for once more where the user may not broadcast.
    unfoldable pub check_user :
        ℕ → Bytes → Option Credentials → Option UserInfo → M (Instance net) CaffResult
    check_user fuel id none user = pure not_signed_in
    check_user fuel id (some c) none = pure not_signed_in
    check_user fuel id (some c) (some user) =
        if user.can_broadcast
        then (get >>= λ s. begin_broadcast id s.broadcast)
        else ask_user fuel c >>= with_new_user id

    unfoldable pub with_version : ℕ → Bytes → CaffResult → M (Instance net) CaffResult
    with_version fuel id version =
        if is_old_version version
        then pure old_version
        else get >>= λ s. check_user fuel id s.shared_credentials s.user_info

    -- `id` is the random client id of the new broadcast.
    unfoldable pub start_broadcast : ℕ → Bytes → M (Instance net) CaffResult
    start_broadcast fuel id = get >>= λ s.
        if is_signed_in s
        then ask (Checks.check_version net client) >>= with_version fuel id
        else pure not_signed_in

  -- The check of the task that a failure of the broadcast `id` posts, `current` being the broadcast
  -- of the instance.
  unfoldable pub check_failure : Option Bytes → Bytes → CaffResult → Task
  check_failure none id error = idle
  check_failure (some current) id error = if bytes_eq current id then checked id error else idle

  -- The next step of the task. Other threads may run between the steps.
  unfoldable pub dispatch_failure : Task → Instance net → Task × Instance net
  unfolding end_from
  dispatch_failure idle s = (idle, s)
  dispatch_failure (checked id error) s = (stopped error, end_broadcast s)
  dispatch_failure (stopped error) s = (idle, record s { events = reported error ∷ s.events })
