-- ===== src/Broadcast/Messages.antt =====
-- What holds between the messages of the subscription.
use libcaffeine.Base.{◌≡◌, refl, ap, ◌∙◌, arith, Bool, true, false}
use libcaffeine.Base.Outcome.{done}
use libcaffeine.Broadcast.State.{
  Broadcast, SubscriptionState, none_yet, open_yet, feed_has_appeared, stage_has_gone_live, fail,
}
use libcaffeine.Broadcast.Platform.{StageUpdate, stage, errors}
use libcaffeine.Broadcast.Subscription.{
  handle_message, open_from, set_opened, update_stage, appear, check_live, is_on_stage,
}

abbrev pub is_open : SubscriptionState → Bool
is_open none_yet = false
is_open open_yet = true
is_open feed_has_appeared = true
is_open stage_has_gone_live = true

-- The promise that the subscription has opened is kept exactly if the subscription is open.
abbrev pub InStep : Broadcast → Type 0
InStep b = b.subscription_opened ≡ is_open b.subscription_state

open_from-InStep :
    (st : SubscriptionState) (b : Broadcast)
    → b.subscription_state ≡ st
    → InStep b
    → (b' : Broadcast) × (open_from st b ≡ (done tt, b'))
      × (is_open b'.subscription_state ≡ true)
      × InStep b'
unfolding open_from set_opened
open_from-InStep none_yet b e h = (
  record b { subscription_state = open_yet; subscription_opened = true },
  rw (h ∙ ap is_open e) refl,
  refl,
  refl,
)
open_from-InStep open_yet b e h = (b, refl, ap is_open e, h)
open_from-InStep feed_has_appeared b e h = (b, refl, ap is_open e, h)
open_from-InStep stage_has_gone_live b e h = (b, refl, ap is_open e, h)

update_stage-InStep :
    (on_stage stage_live : Bool) (b : Broadcast)
    → is_open b.subscription_state ≡ true
    → InStep b
    → InStep (update_stage on_stage stage_live b)
unfolding update_stage appear check_live fail
update_stage-InStep on_stage stage_live b o h = ground arith

-- If the promise that the subscription has opened is kept exactly if the subscription is open,
-- then the handler of any message returns, so it does not keep the promise a second time, and
-- afterwards the promise is again kept exactly if the subscription is open.
pub handle_message-InStep :
    (m : StageUpdate) (b : Broadcast)
    → InStep b
    → (b' : Broadcast) × (handle_message m b ≡ (done tt, b')) × InStep b'
unfolding handle_message fail
handle_message-InStep errors b h = (_, refl, h)
handle_message-InStep (stage feeds stage_live) b h =
    let (b', e, o, k) = open_from-InStep b.subscription_state b refl h in
    (
      update_stage (is_on_stage b'.feed_id feeds) stage_live b',
      rw (e, handle_message) refl,
      update_stage-InStep (is_on_stage b'.feed_id feeds) stage_live b' o k,
    )
