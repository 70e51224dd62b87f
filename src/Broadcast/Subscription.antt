-- ===== src/Broadcast/Subscription.antt =====
-- What a broadcast does with the messages about its stage.
use libcaffeine.Base.{Bool, true, false, ◌&&◌, not, List, [], ◌∷◌, if◌then◌else◌}
use libcaffeine.Base.Bytes.{Bytes, bytes_eq}
use libcaffeine.Base.Outcome.{done, thrown, M, ◌>>◌}
use libcaffeine.Api.{broadcast_failed, takeover}
use libcaffeine.Broadcast.State.{
  Broadcast, SubscriptionState, none_yet, open_yet, feed_has_appeared, stage_has_gone_live, live,
  same_state, is_online, fail,
}
use libcaffeine.Broadcast.Platform.{StageUpdate, stage, errors}

-- `set_value` of the promise that the subscription has opened, which throws the second time.
unfoldable pub set_opened : M Broadcast (Unit {0})
set_opened b =
    if b.subscription_opened
    then (thrown, b)
    else (done tt, record b { subscription_opened = true })

unfoldable pub open_from : SubscriptionState → M Broadcast (Unit {0})
unfolding set_opened
open_from none_yet b = set_opened (record b { subscription_state = open_yet })
open_from open_yet b = (done tt, b)
open_from feed_has_appeared b = (done tt, b)
open_from stage_has_gone_live b = (done tt, b)

abbrev pub open_subscription : M Broadcast (Unit {0})
open_subscription b = open_from b.subscription_state b

unfoldable pub is_on_stage : Bytes → List Bytes → Bool
is_on_stage id [] = false
is_on_stage id (f ∷ feeds) = if bytes_eq f id then true else is_on_stage id feeds

abbrev after_appearing : SubscriptionState → SubscriptionState
after_appearing none_yet = none_yet
after_appearing open_yet = feed_has_appeared
after_appearing feed_has_appeared = feed_has_appeared
after_appearing stage_has_gone_live = stage_has_gone_live

abbrev has_appeared : SubscriptionState → Bool
has_appeared none_yet = false
has_appeared open_yet = false
has_appeared feed_has_appeared = true
has_appeared stage_has_gone_live = true

abbrev has_gone_live : SubscriptionState → Bool
has_gone_live none_yet = false
has_gone_live open_yet = false
has_gone_live feed_has_appeared = false
has_gone_live stage_has_gone_live = true

-- The stage is no longer live after it has gone live with the feed.
unfoldable pub check_live : Bool → Broadcast → Broadcast
check_live stage_live b =
    if not stage_live && (has_gone_live b.subscription_state && same_state b.state live)
    then fail takeover b
    else b

unfoldable pub appear : Bool → Broadcast → Broadcast
appear stage_live b = record b {
  subscription_state =
      if stage_live then stage_has_gone_live else after_appearing b.subscription_state;
}

unfoldable pub update_stage : Bool → Bool → Broadcast → Broadcast
unfolding check_live appear
update_stage on_stage stage_live b =
    if on_stage
    then check_live stage_live (appear stage_live b)
    else (if has_appeared b.subscription_state && is_online b
        then fail takeover b
        else check_live stage_live b)

-- The message handler of `setupSubscription`.
unfoldable pub handle_message : StageUpdate → M Broadcast (Unit {0})
unfolding open_from update_stage
handle_message (stage feeds stage_live) =
    open_subscription >> λ b. (done tt, update_stage (is_on_stage b.feed_id feeds) stage_live b)
handle_message errors = λ b. (done tt, fail broadcast_failed b)
