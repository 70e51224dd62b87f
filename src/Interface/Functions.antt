-- ===== src/Interface/Functions.antt =====
-- The functions of src/Caffeine.cpp that take an instance.
use libcaffeine.Base.{
  ℕ, ltb, ◌==◌, if◌then◌else◌, Bool, true, false, Option, none, some, has_value, List, [],
}
use libcaffeine.Base.Int.{ℤ, pos, negsuc}
use libcaffeine.Base.Bytes.{Bytes}
use libcaffeine.Base.Outcome.{done, M, pure, throw, fault, or_throw, ◌>>=◌, ◌>>◌}
use libcaffeine.Api.{
  CaffResult, failure, username_required, password_required, refresh_token_required,
  internet_disconnected, broadcast_failed, Rating, ConnectionQuality, unknown, is_ok,
}
use libcaffeine.Utils.{CString, is_empty_cstr}
use libcaffeine.Rest.Network.{Network, Client}
use libcaffeine.Rest.Checks
use libcaffeine.Instance
use libcaffeine.Instance.{Instance}
use libcaffeine.Broadcast.State
use libcaffeine.Broadcast.State.{Broadcast}
use libcaffeine.Broadcast.Platform.{Platform, Run}
use libcaffeine.Broadcast.Settings
use libcaffeine.Broadcast.Frames
use libcaffeine.Interface.{catch_all, check, enumerator, ratings}

-- A `caff_InstanceHandle`: null, or a pointer to the instance.
pub data Handle : Type 0 where
  null instance : Handle

abbrev is_valid : Handle → Bool
is_valid null = false
is_valid instance = true

-- A `std::string` of a C string that may be null.
abbrev or_empty : CString → Bytes
or_empty none = []
or_empty (some s) = s

-- `num > 0` of an integer.
unfoldable pub is_positive : ℤ → Bool
is_positive (pos n) = ltb 0 n
is_positive (negsuc n) = false

-- `caff_TimestampGenerate`, -1.
unfoldable pub is_generate : ℤ → Bool
is_generate (pos n) = false
is_generate (negsuc n) = n == 0

-- The number of the last video format.
abbrev format_count : ℕ
format_count = 16

unfoldable pub is_format : ℤ → Bool
is_format (pos n) = ltb n format_count
is_format (negsuc n) = false

abbrev is_internet_disconnected : CaffResult → Bool
is_internet_disconnected internet_disconnected = true
is_internet_disconnected _ = false

-- The instance behind the handle, and the object of its broadcast, where it has one.
pub record Host (net : Network) (p : Platform) : Type 0 where
  pub instance : Instance net
  pub run : Run p

module _ (net : Network) (client : Client) (p : Platform) where
  abbrev pub get : M (Host net p) (Host net p)
  get s = (done s, s)

  abbrev on_instance : {A : Type 0} → M (Instance net) A → M (Host net p) A
  on_instance m s = let r = m s.instance in (r.0, record s { instance = r.1 })

  abbrev on_run : M (Run p) (Unit {0}) → M (Host net p) (Unit {0})
  on_run m s = let r = m s.run in (r.0, record s { run = r.1 })

  -- Without a broadcast, a message is logged.
  unfoldable on_broadcast : M (Run p) (Unit {0}) → M (Host net p) (Unit {0})
  on_broadcast m = get >>= λ s. if has_value s.instance.broadcast then on_run m else pure tt

  -- `Broadcast::stop` of the broadcast, where there is one, which `endBroadcast` calls.
  unfoldable stops : M (Host net p) (Unit {0})
  unfolding on_broadcast
  stops = on_broadcast (Settings.begin_stop p >> Settings.end_stop p)

  -- `CHECK_PTR(instanceHandle)` in front, `CATCHALL_RETURN` behind.
  unfoldable pub guarded : {A : Type 0} → A → Handle → M (Host net p) A → M (Host net p) A
  guarded value h m s = catch_all value ((check (is_valid h) >> m) s)

  -- A member function that only reads.
  abbrev reads : {A : Type 0} → (Instance net → A) → M (Host net p) A
  reads f = get >>= λ s. pure (f s.instance)

  abbrev changes : (Instance net → Instance net) → M (Host net p) (Unit {0})
  changes f s = (done tt, record s { instance = f s.instance })

  unfoldable pub check_internet_connection : M (Host net p) CaffResult
  check_internet_connection s =
      catch_all failure
        (on_instance (Instance.ask net client (Checks.check_internet_connection net)) s)

  -- The functions without an instance.
  unfoldable pub check_version : M (Host net p) CaffResult
  check_version s =
      catch_all failure (on_instance (Instance.ask net client (Checks.check_version net client)) s)

  unfoldable pub check_caffeine_connection : M (Host net p) CaffResult
  check_caffeine_connection s =
      catch_all failure
        (on_instance (Instance.ask net client (Checks.check_caffeine_connection net client)) s)

  with_connection : ℕ → Bytes → Bytes → CString → CaffResult → M (Host net p) CaffResult
  with_connection fuel username password otp connection =
      if is_internet_disconnected connection
      then pure internet_disconnected
      else on_instance (Instance.sign_in net client fuel username password otp)

  unfoldable pub sign_in : ℕ → Handle → CString → CString → CString → M (Host net p) CaffResult
  unfolding guarded check_internet_connection with_connection
  sign_in fuel h username password otp = guarded failure h (
      if is_empty_cstr username
      then pure username_required
      else if is_empty_cstr password
      then pure password_required
      else check_internet_connection
        >>= with_connection fuel (or_empty username) (or_empty password) otp)

  unfoldable pub refresh_auth : ℕ → Handle → CString → M (Host net p) CaffResult
  unfolding guarded
  refresh_auth fuel h token = guarded failure h (
      if is_empty_cstr token
      then pure refresh_token_required
      else on_instance (Instance.refresh_auth net client fuel (or_empty token)))

  unfoldable pub sign_out : Handle → M (Host net p) (Unit {0})
  unfolding guarded stops
  sign_out h = guarded tt h (stops >> changes (Instance.sign_out net client))

  unfoldable pub is_signed_in : Handle → M (Host net p) Bool
  unfolding guarded
  is_signed_in h = guarded false h (reads (Instance.is_signed_in net client))

  unfoldable pub get_refresh_token : Handle → M (Host net p) CString
  unfolding guarded
  get_refresh_token h = guarded none h (reads (λ i. i.refresh_token))

  unfoldable pub get_access_token : Handle → M (Host net p) CString
  unfolding guarded
  get_access_token h = guarded none h (reads (Instance.get_access_token net client))

  unfoldable pub get_credential : Handle → M (Host net p) CString
  unfolding guarded
  get_credential h = guarded none h (reads (Instance.get_credential net client))

  unfoldable pub get_username : Handle → M (Host net p) CString
  unfolding guarded
  get_username h = guarded none h (reads (Instance.get_username net client))

  unfoldable pub can_broadcast : Handle → M (Host net p) Bool
  unfolding guarded
  can_broadcast h = guarded false h (reads (Instance.can_broadcast net client))

  -- A callback is `true` where its pointer is not null. The calls of the enumerator come along.
  unfoldable pub enumerate_games :
      Handle → Bool → M (Host net p) (CaffResult × List (Bytes × (Bytes × Bytes)))
  unfolding guarded
  enumerate_games h enumerator =
      guarded (failure, []) h
        (check enumerator >> on_instance (Instance.enumerate_games net client))

  -- The object of a broadcast that has begun, with its random ids.
  begun : Bytes → Bytes → Bytes → Rating → Bytes → CaffResult → M (Host net p) CaffResult
  begun id feed_id title rating game_id result s =
      if is_ok result
      then (
        done result,
        record s { run = record s.run { broadcast = State.new id feed_id title rating game_id } },
      )
      else (done result, s)

  -- `start` is what `Broadcast::start` does to the world of the instance; it may throw.
  unfoldable pub start_broadcast :
      (Bytes → M (net.World) (Unit {0}))
      → ℕ
      → Bytes
      → Bytes
      → Handle
      → CString
      → ℤ
      → CString
      → Bool
      → Bool
      → M (Host net p) CaffResult
  unfolding guarded begun
  start_broadcast start fuel id feed_id h title rating game_id started failed =
      guarded broadcast_failed h (
        or_throw (enumerator ratings rating) >>= λ r.
        check started
        >> (check failed
            >> (on_instance (Instance.start_broadcast net client start fuel id)
                >>= begun id feed_id (or_empty title) r (or_empty game_id))))

  unfoldable pub set_game_id : Handle → CString → M (Host net p) (Unit {0})
  unfolding guarded on_broadcast
  set_game_id h id = guarded tt h (on_broadcast (Settings.set_game_id p (or_empty id)))

  unfoldable pub set_title : Handle → CString → M (Host net p) (Unit {0})
  unfolding guarded on_broadcast
  set_title h title = guarded tt h (on_broadcast (Settings.set_title p (or_empty title)))

  -- The rating is not checked; here it is one of the two.
  unfoldable pub set_rating : Handle → Rating → M (Host net p) (Unit {0})
  unfolding guarded on_broadcast
  set_rating h rating = guarded tt h (on_broadcast (Settings.set_rating p rating))

  samples_of : Option Bytes → ℕ → M (Host net p) (Unit {0})
  unfolding on_broadcast
  samples_of none count = throw
  samples_of (some samples) count =
      check (ltb 0 count) >> on_broadcast (Frames.send_audio p samples count)

  unfoldable pub send_audio : Handle → Option Bytes → ℕ → M (Host net p) (Unit {0})
  unfolding guarded samples_of
  send_audio h samples samples_per_channel = guarded tt h (samples_of samples samples_per_channel)

  unfoldable pub get_connection_quality : Handle → M (Host net p) ConnectionQuality
  unfolding guarded
  get_connection_quality h = guarded unknown h (
      get >>= λ s.
      if has_value s.instance.broadcast
      then pure s.run.broadcast.connection_quality
      else pure unknown)

  unfoldable pub end_broadcast : Handle → M (Host net p) (Unit {0})
  unfolding guarded stops
  end_broadcast h = guarded tt h (stops >> changes (Instance.end_broadcast net client))

  unfoldable pub on_null : Handle → M (Host net p) (Unit {0}) → M (Host net p) (Unit {0})
  on_null null m = fault
  on_null instance m = m

  -- `time_micros` is WebRTC's clock, and `to_frame` packs the format, the bytes and the timestamp.
  module _ (time_micros : p.World → ℤ × p.World) (to_frame : ℤ → Bytes → ℤ → p.Frame) where
    abbrev pub generate : ℤ → M (Host net p) ℤ
    generate timestamp s =
        if is_generate timestamp
        then (let r = time_micros s.run.world in
            (done r.0, record s { run = record s.run { world = r.1 } }))
        else (done timestamp, s)

    unfoldable pub with_data : Handle → ℤ → Option Bytes → ℕ → ℤ → ℤ → ℤ → M (Host net p) (Unit {0})
    unfolding on_null on_broadcast
    with_data h format none count width height timestamp = throw
    with_data h format (some pixels) count width height timestamp =
        check (ltb 0 count)
        >> (check (is_positive width)
            >> (check (is_positive height)
                >> (check (is_format format)
                    >> (generate timestamp >>= λ t. on_null h (
                        on_broadcast
                          (Frames.send_video p (to_frame format pixels t) width height))))))

    -- The handle is not checked: a null one is followed.
    unfoldable pub send_video :
        Handle → ℤ → Option Bytes → ℕ → ℤ → ℤ → ℤ → M (Host net p) (Unit {0})
    unfolding with_data catch_all
    send_video h format frame_data frame_bytes width height timestamp s =
        catch_all tt (with_data h format frame_data frame_bytes width height timestamp s)
