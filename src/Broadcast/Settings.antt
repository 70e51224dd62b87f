-- ===== src/Broadcast/Settings.antt =====
-- The setters of a broadcast, and `stop`.
use libcaffeine.Base.{Bool, true, false, if◌then◌else◌}
use libcaffeine.Base.Bytes.{Bytes, bytes_eq}
use libcaffeine.Base.Outcome.{M, pure, ◌>>=◌, ◌>>◌}
use libcaffeine.Api.{Rating, rating_none, seventeen_plus}
use libcaffeine.Broadcast.State.{live, stopping, offline, same_state, is_online}
use libcaffeine.Broadcast.Platform.{Platform, Run, get, modify}
use libcaffeine.Broadcast.Calls.{update_feed, update_title}

abbrev pub same_rating : Rating → Rating → Bool
same_rating rating_none rating_none = true
same_rating seventeen_plus seventeen_plus = true
same_rating rating_none seventeen_plus = false
same_rating seventeen_plus rating_none = false

module _ (p : Platform) where
  -- An update is sent where it is due.
  unfoldable when : Bool → M (Run p) Bool → M (Run p) (Unit {0})
  when true m = m >> pure tt
  when false m = pure tt

  unfoldable pub set_title : Bytes → M (Run p) (Unit {0})
  unfolding when
  set_title title = get p >>= λ b.
      if bytes_eq title b.title
      then pure tt
      else (modify p (λ b. record b { title = title })
          >> (get p >>= λ b. when (same_state b.state live) (update_title p)))

  unfoldable pub set_rating : Rating → M (Run p) (Unit {0})
  unfolding when
  set_rating rating = get p >>= λ b.
      if same_rating rating b.rating
      then pure tt
      else (modify p (λ b. record b { rating = rating })
          >> (get p >>= λ b. when (same_state b.state live) (update_title p)))

  unfoldable pub set_game_id : Bytes → M (Run p) (Unit {0})
  unfolding when
  set_game_id id = get p >>= λ b.
      if bytes_eq b.game_id id
      then pure tt
      else (modify p (λ b. record b { game_id = id })
          >> (get p >>= λ b. when (is_online b) (update_feed p)))

  -- `stop` up to the join of the thread, and what it does after it.
  unfoldable pub begin_stop : M (Run p) (Unit {0})
  begin_stop = modify p (λ b. record b { state = stopping })

  unfoldable pub end_stop : M (Run p) (Unit {0})
  end_stop = modify p (λ b. record b { state = offline })
