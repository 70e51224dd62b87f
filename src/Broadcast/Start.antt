-- ===== src/Broadcast/Start.antt =====
-- What follows a request to set the stage live that is not granted.
use libcaffeine.Base.{ℕ, ◌∷◌, ◌≡◌, refl, ap, ◌∙◌, true, Option, none, some}
use libcaffeine.Base.Bytes.{Bytes}
use libcaffeine.Base.Outcome.{Outcome, done, continue, M, pure, ◌>>◌, ◌>>=◌}
use libcaffeine.Api.{broadcast_failed}
use libcaffeine.Broadcast.State.{streaming, live, transition_state, fail, failed_with, same_state}
use libcaffeine.Broadcast.Platform.{Platform, Run, StartPayload, request}
use libcaffeine.Broadcast.Calls.{full_title, titled}
use libcaffeine.Broadcast.Thread.{
  call, set_stage_live, after_open, start_answer, go_live, run_live, heartbeats, heartbeat_interval,
}

module _ (p : Platform) where
  abbrev pub quiet : M (Run p) (Unit {0})
  quiet = pure tt

  -- What the request answers for this title in the state `s`, and the world after it.
  abbrev pub answer : Bytes → Run p → Outcome (Option StartPayload) × p.World
  answer title s = p.start_broadcast title s.world

  -- The state that a refused start leads to.
  abbrev pub gone_live : Run p → Run p
  gone_live s = record s {
    broadcast = record (s.broadcast) {
      state = live;
      calls = failed_with broadcast_failed ∷ s.broadcast.calls;
    };
  }

  abbrev then_live : ℕ → Option StartPayload → M (Run p) (Unit {0})
  then_live fuel payload = start_answer p quiet payload >> go_live p quiet fuel

  then_live-none :
      (fuel : ℕ) (s : Run p)
      → s.broadcast.state ≡ streaming
      → then_live fuel none s ≡ heartbeats p quiet fuel heartbeat_interval 0 (gone_live s)
  unfolding start_answer go_live run_live transition_state fail
  then_live-none fuel s st = rw (ap (λ x. same_state x streaming) st) refl

  -- If the request to set the stage live fails, after the subscription has opened, for a streaming
  -- broadcast whose title can be annotated, and with no other thread acting, then the failure is
  -- reported, and yet the broadcast becomes live and its heartbeats begin.
  pub set_stage_live-failed :
      (fuel : ℕ) (s : Run p) (title : Bytes)
      → s.broadcast.subscription_opened ≡ true
      → s.broadcast.state ≡ streaming
      → full_title s.broadcast ≡ some title
      → (answer title s).0 ≡ done none
      → set_stage_live p quiet fuel s
        ≡ heartbeats p quiet fuel heartbeat_interval 0
            (gone_live (record s { world = (answer title s).1 }))
  unfolding set_stage_live after_open titled
  set_stage_live-failed fuel s title o st t a =
      ap (λ opened. after_open p quiet fuel opened s) o
      ∙ ap (λ title. titled p title (λ title. asked title) s) t
      ∙ ap next a
      ∙ then_live-none fuel (record s { world = (answer title s).1 }) st
    where
      asked : Bytes → M (Run p) (Unit {0})
      asked title = call p quiet (request p (p.start_broadcast title)) >>= then_live fuel

      next : Outcome (Option StartPayload) → Outcome (Unit {0}) × Run p
      next o =
          let r =
            continue
              (let k : Option StartPayload → M (Run p) (Option StartPayload) =
                  λ a. quiet >> pure a in
                k)
              o (record s { world = (answer title s).1 }) in
          continue (then_live fuel) r.0 r.1
