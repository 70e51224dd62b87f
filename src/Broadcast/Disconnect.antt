-- ===== src/Broadcast/Disconnect.antt =====
-- What becomes of a broadcast whose heartbeats fail.
use libcaffeine.Base.{
  ℕ, zero, suc, ◌+◌, ◌*◌, ◌≤◌, ◌<◌, ◌≡◌, refl, ap, ◌∙◌, arith, ltb, true, false, none, ◌∷◌,
}
use mathlib.Core.Path.{subst}
use libcaffeine.Base.Bytes.{Bytes}
use libcaffeine.Base.Outcome.{done}
use libcaffeine.Api.{disconnected}
use libcaffeine.Broadcast.State.{Broadcast, live, stopping, same_state, fail, failed_with}
use libcaffeine.Broadcast.Platform.{Platform, Run}
use libcaffeine.Broadcast.Thread.{
  heartbeats, heartbeat_interval, check_interval, round, beat, one_heartbeat, heartbeat_failed,
  after_heartbeats,
}
use libcaffeine.Broadcast.Start.{quiet}

-- A platform whose heartbeats all fail, with a count of them.
pub record Fails (p : Platform) : Type 0 where
  pub seen : p.World → ℕ
  pub no_answer : (url : Bytes) (w : p.World) → (p.heartbeat url w).0 ≡ done none
  pub seen_heartbeat : (url : Bytes) (w : p.World) → seen (p.heartbeat url w).1 ≡ seen w + 1
  pub seen_stats : (w : p.World) → seen (p.get_stats w) ≡ seen w
  pub seen_sleep : (n : ℕ) (w : p.World) → seen (p.sleep n w) ≡ seen w

module _ (p : Platform) (h : Fails p) (b : Broadcast) (is_live : b.state ≡ live) where
  open h use {seen, no_answer, seen_heartbeat, seen_stats, seen_sleep}

  run : p.World → Run p
  run w = record { broadcast = b; world = w }

  -- With at least `least` rounds, the loop returns after `n` more heartbeats, and has reported that
  -- the broadcast is disconnected.
  abbrev Ends : ℕ → ℕ → ℕ → ℕ → Type 0
  Ends n least interval failures =
      (fuel : ℕ) (w : p.World)
      → least ≤ fuel
      → let r = heartbeats p (quiet p) fuel interval failures (run w) in
        (r.0 ≡ done tt) × (r.1.broadcast ≡ fail disconnected b) × (seen r.1.world ≡ seen w + n)

  live_test : same_state b.state live ≡ true
  live_test = ap (λ x. same_state x live) is_live

  idle_step :
      (fuel i f : ℕ) (w : p.World)
      → ltb (i + check_interval) heartbeat_interval ≡ true
      → heartbeats p (quiet p) (suc fuel) i f (run w)
        ≡ heartbeats p (quiet p) fuel (i + check_interval) f (run (p.sleep check_interval w))
  unfolding run heartbeats round
  idle_step fuel i f w k = rw (live_test, heartbeats, round, k) refl

  -- The world after a heartbeat.
  after_beat : p.World → p.World
  after_beat w = (p.heartbeat b.stream_url (p.get_stats w)).1

  seen-after_beat : (w : p.World) → seen (after_beat w) ≡ seen w + 1
  unfolding after_beat
  seen-after_beat w = seen_heartbeat b.stream_url (p.get_stats w) ∙ ap (λ n. n + 1) (seen_stats w)

  beat_step :
      (fuel i f : ℕ) (w : p.World)
      → ltb (i + check_interval) heartbeat_interval ≡ false
      → heartbeats p (quiet p) (suc fuel) i f (run w) ≡ (
          heartbeat_failed p
            (quiet p)
            (λ s.
              heartbeats p
                (quiet p)
                fuel
                0
                (f + 1)
                (record s { world = p.sleep check_interval s.world }))
            f
            (run (after_beat w)))
  unfolding run heartbeats round beat one_heartbeat after_beat
  beat_step fuel i f w k =
      rw (live_test, heartbeats, round, k, no_answer b.stream_url (p.get_stats w), one_heartbeat)
        refl

  -- The rounds that only wait, one after the other.
  idle :
      (n m i f : ℕ)
      → i + check_interval < heartbeat_interval
      → Ends n m (i + check_interval) f
      → Ends n (m + 1) i f
  idle n m i f k e zero w l = absurd (omega arith)
  idle n m i f k e (suc fuel) w l =
      let (a, c, d) = e fuel (p.sleep check_interval w) (omega arith) in
      rw (idle_step fuel i f w (ground arith))
        (a, c, d ∙ ap (λ x. x + n) (seen_sleep check_interval w))

  idles :
      (k n m i f j total : ℕ)
      → j ≡ i + 100 * k
      → total ≡ m + k
      → j < heartbeat_interval
      → Ends n m j f
      → Ends n total i f
  idles zero n m i f j total a c l e =
      subst (λ x. Ends n x i f) (omega (arith, c)) (subst (λ x. Ends n m x f) (omega (arith, a)) e)
  idles (suc k) n m i f j total a c l e =
      subst (λ x. Ends n x i f) (omega (arith, c))
        (idle n (m + k) i f (omega (arith, a, l))
          (idles k n m (i + check_interval) f j (m + k) (omega (arith, a)) refl l e))

  beat_again :
      (n m i f : ℕ)
      → heartbeat_interval ≤ i + check_interval
      → f < 5
      → Ends n m 0 (f + 1)
      → Ends (n + 1) (m + 1) i f
  unfolding heartbeat_failed run
  beat_again n m i f k g e zero w l = absurd (omega arith)
  beat_again n m i f k g e (suc fuel) w l =
      let (a, c, d) = e fuel (p.sleep check_interval (after_beat w)) (omega arith) in
      let few : ltb 5 (f + 1) ≡ false = ground arith in
      rw (beat_step fuel i f w (ground arith), few)
        (a, c, omega (arith, d, seen_sleep check_interval (after_beat w), seen-after_beat w))

  last_beat : (i : ℕ) → heartbeat_interval ≤ i + check_interval → Ends 1 1 i 5
  unfolding heartbeat_failed after_heartbeats fail run
  last_beat i k zero w l = absurd (omega arith)
  last_beat i k (suc fuel) w l =
      rw
        (
          beat_step fuel i 5 w (ground arith),
          heartbeat_failed,
          ap (λ x. same_state x stopping) is_live,
        )
        (refl, refl, seen-after_beat w)

  -- A heartbeat and the forty-nine rounds before the next one.
  cycle : (n m f : ℕ) → f < 5 → Ends n m 4900 (f + 1) → Ends (n + 1) (m + 50) 4900 f
  cycle n m f l e =
      subst (λ x. Ends (n + 1) x 4900 f) (omega arith)
        (beat_again n (m + 49) 4900 f (omega arith) l
          (idles 49 n m 0 (f + 1) 4900 (m + 49) refl refl (omega arith) e))

  -- If every heartbeat fails while no other thread acts, the loop of a live broadcast, given 251
  -- rounds or more, returns after exactly six heartbeats; it has then reported that the broadcast is
  -- disconnected, and changed nothing else of it.
  pub heartbeats-disconnected :
      (fuel : ℕ) (w : p.World)
      → 251 ≤ fuel
      → let r =
          heartbeats p (quiet p) fuel heartbeat_interval 0 (record { broadcast = b; world = w }) in
        (r.0 ≡ done tt)
        × (r.1.broadcast ≡ record b { calls = failed_with disconnected ∷ b.calls })
        × (seen r.1.world ≡ seen w + 6)
  unfolding run fail
  heartbeats-disconnected = beat_again 5 250 heartbeat_interval 0 (omega arith) (omega arith) (
      idles 49 5 201 0 1 4900 250 refl refl (omega arith) (
        cycle 4 151 1 (omega arith) (
          cycle 3 101 2 (omega arith) (
            cycle 2 51 3 (omega arith)
              (cycle 1 1 4 (omega arith) (last_beat 4900 (omega arith)))))))
