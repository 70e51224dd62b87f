-- ===== src/Instance/Starting.antt =====
-- When an instance starts a broadcast.
use libcaffeine.Base.{
  ◌≡◌, refl, ap, ◌∙◌, ℕ, Bool, true, false, Option, none, some, List, ◌∷◌, if◌then◌else◌,
}
use mathlib.Core.Path.{subst}
use libcaffeine.Rest.Checks.{check_version}
use libcaffeine.Base.Bytes.{Bytes}
use libcaffeine.Base.Outcome.{
  Outcome, done, thrown, unfinished, undefined, M, pure, ◌>>=◌, ◌>>◌, continue,
}
use libcaffeine.Api.{CaffResult, success, old_version, not_signed_in, email_verification_required}
use libcaffeine.Rest.Network.{Network, Client}
use libcaffeine.Rest.Types.{Credentials, UserInfo}
use libcaffeine.Instance.{
  with_version, ask, get, modify, begin_broadcast, with_new_user, check_user, start_broadcast,
  can_broadcast, is_signed_in, is_old_version, ask_user, Instance, Event, began,
}

module _ (net : Network) (client : Client) (start : Bytes → M (net.World) (Unit {0})) where
  -- There was no broadcast, and now there is `id`, for a user who may broadcast; its beginning is the
  -- only thing that was done with a broadcast.
  abbrev pub Begun : Bytes → Instance net → Instance net → Type 0
  Begun id s s' =
      (s.broadcast ≡ none)
      × (s'.broadcast ≡ some id)
      × (can_broadcast net client s' ≡ true)
      × (s'.events ≡ began id ∷ s.events)

  -- The same of an outcome, from the broadcast and the events before.
  abbrev Starts : Bytes → Option Bytes → List Event → Outcome CaffResult → Instance net → Type 0
  Starts id b es (done r) s' =
      r ≡ success
      → (b ≡ none)
        × (s'.broadcast ≡ some id)
        × (can_broadcast net client s' ≡ true)
        × (s'.events ≡ began id ∷ es)
  Starts id b es thrown s' = Unit {0}
  Starts id b es unfinished s' = Unit {0}
  Starts id b es undefined s' = Unit {0}

  started-Starts :
      (id : Bytes) (o : Outcome (Unit {0})) (es : List Event) (s : Instance net)
      → s.broadcast ≡ some id
      → can_broadcast net client s ≡ true
      → s.events ≡ began id ∷ es
      → let t =
          continue (let k : Unit {0} → M (Instance net) CaffResult = λ _. pure success in k) o s in
        Starts id none es t.0 t.1
  started-Starts id (done u) es s b c h = λ e. (refl, b, c, h)
  started-Starts id thrown es s b c h = tt
  started-Starts id unfinished es s b c h = tt
  started-Starts id undefined es s b c h = tt

  begin_broadcast-Starts :
      (id : Bytes) (o : Option Bytes) (s : Instance net)
      → can_broadcast net client s ≡ true
      → let t = begin_broadcast net client start id o s in Starts id o s.events t.0 t.1
  unfolding begin_broadcast can_broadcast
  begin_broadcast-Starts id (some other) s c = λ e. cc
  begin_broadcast-Starts id none s c =
      started-Starts id (start id s.world).0 s.events
        (record s {
          broadcast = some id;
          events = began id ∷ s.events;
          world = (start id s.world).1;
        })
        refl c refl

  branch-Starts :
      (id : Bytes) (b : Bool) (m n : M (Instance net) CaffResult) (s : Instance net)
      → (b ≡ true → Starts id s.broadcast s.events (m s).0 (m s).1)
      → (b ≡ false → Starts id s.broadcast s.events (n s).0 (n s).1)
      → let t = (if b then m else n) s in Starts id s.broadcast s.events t.0 t.1
  branch-Starts id true m n s h k = h refl
  branch-Starts id false m n s h k = k refl

  with_new_user-Starts :
      (id : Bytes) (o : Outcome (Option UserInfo)) (s : Instance net)
      → let t = continue (with_new_user net client start id) o s in
        Starts id s.broadcast s.events t.0 t.1
  unfolding with_new_user can_broadcast
  with_new_user-Starts id (done none) s = λ e. cc
  with_new_user-Starts id (done (some user)) s =
      branch-Starts id user.can_broadcast
        (modify net client (λ s. record s { user_info = some user })
          >> (get net client >>= λ s. begin_broadcast net client start id s.broadcast))
        (pure email_verification_required) s
        (λ may. begin_broadcast-Starts id s.broadcast (record s { user_info = some user }) may)
        (λ no e. cc)
  with_new_user-Starts id thrown s = tt
  with_new_user-Starts id unfinished s = tt
  with_new_user-Starts id undefined s = tt

  check_user-Starts :
      (fuel : ℕ) (id : Bytes) (c : Option Credentials) (user : Option UserInfo) (s : Instance net)
      → s.user_info ≡ user
      → let t = check_user net client start fuel id c user s in
        Starts id s.broadcast s.events t.0 t.1
  unfolding check_user can_broadcast
  check_user-Starts fuel id none user s h = λ e. cc
  check_user-Starts fuel id (some c) none s h = λ e. cc
  check_user-Starts fuel id (some c) (some user) s h =
      branch-Starts id user.can_broadcast
        (get net client >>= λ s. begin_broadcast net client start id s.broadcast)
        (ask_user net client fuel c >>= with_new_user net client start id) s
        (λ may.
          begin_broadcast-Starts id s.broadcast s
            (ap (λ u. elim u as (λ _. Bool) [ none ↦ false | some u ↦ u.can_broadcast ]) h ∙ may))
        (λ no.
          with_new_user-Starts id (ask_user net client fuel c s).0 (ask_user net client fuel c s).1)

  version-Starts :
      (fuel : ℕ) (id : Bytes) (o : Outcome CaffResult) (s : Instance net)
      → let t = continue (with_version net client start fuel id) o s in
        Starts id s.broadcast s.events t.0 t.1
  unfolding with_version
  version-Starts fuel id (done version) s =
      branch-Starts id (is_old_version version) (pure old_version)
        (get net client >>= λ s.
          check_user net client start fuel id s.shared_credentials s.user_info)
        s (λ old e. cc) (λ new. check_user-Starts fuel id s.shared_credentials s.user_info s refl)
  version-Starts fuel id thrown s = tt
  version-Starts fuel id unfinished s = tt
  version-Starts fuel id undefined s = tt

  start_broadcast-Starts :
      (fuel : ℕ) (id : Bytes) (s : Instance net)
      → let t = start_broadcast net client start fuel id s in Starts id s.broadcast s.events t.0 t.1
  unfolding start_broadcast
  start_broadcast-Starts fuel id s =
      branch-Starts id (is_signed_in net client s)
        (ask net client (check_version net client) >>= with_version net client start fuel id)
        (pure not_signed_in) s
        (λ on.
          version-Starts fuel id (check_version net client s.world).0
            (record s { world = (check_version net client s.world).1 }))
        (λ off e. cc)

  -- If the start of a broadcast returns success, then the instance had no broadcast, has the new one
  -- now and did nothing else with broadcasts, and its user information says that the user may
  -- broadcast.
  pub start_broadcast-Begun :
      (fuel : ℕ) (id : Bytes) (s : Instance net) {s' : Instance net}
      → start_broadcast net client start fuel id s ≡ (done success, s')
      → Begun id s s'
  start_broadcast-Begun fuel id s e =
      subst (λ t. Starts id s.broadcast s.events t.0 t.1) e (start_broadcast-Starts fuel id s) refl
