-- ===== src/Instance/History.antt =====
-- The broadcasts of an instance over any sequence of what its threads do.
use libcaffeine.Base.{ℕ, Option, none, some, List, [], ◌∷◌}
use libcaffeine.Base.Bytes.{Bytes}
use libcaffeine.Base.Outcome.{Outcome, M}
use libcaffeine.Api.{CaffResult}
use libcaffeine.Rest.Network.{Network, Client}
use libcaffeine.Instance.{
  Event, began, ended, reported, Task, idle, checked, stopped, Instance, start_broadcast,
  end_broadcast, sign_out, check_failure, dispatch_failure,
}

-- What has been done, the broadcast that there is, and how far the task of a failure is: a broadcast
-- begins only where there is none, and only the one that there is ends. A task goes on from its check
-- only if the broadcast then was the one that failed, ends the one that there is by the time of its second step, if
-- any, and reports its failure once, after that.
pub data Orderly : List Event → Option Bytes → Task → Type 0 where
  nothing : Orderly [] none idle
  begins :
      {es : List Event} {id : Bytes} {t : Task}
      → Orderly es none t
      → Orderly (began id ∷ es) (some id) t
  ends :
      {es : List Event} {id : Bytes} {t : Task}
      → Orderly es (some id) t
      → Orderly (ended id ∷ es) none t
  checks :
      {es : List Event} {id : Bytes} {error : CaffResult}
      → Orderly es (some id) idle
      → Orderly es (some id) (checked id error)
  stops :
      {es : List Event} {id : Bytes} {error : CaffResult}
      → Orderly es none (checked id error)
      → Orderly es none (stopped error)
  reports :
      {es : List Event} {o : Option Bytes} {error : CaffResult}
      → Orderly es o (stopped error)
      → Orderly (reported error ∷ es) o idle

-- A step of some thread: of the application, or of the queue that runs the tasks one at a time.
pub data Step : Type 0 where
  starts : ℕ → Bytes → Step
  ends_broadcast signs_out : Step
  fails : Bytes → CaffResult → Step
  goes_on : Step

pub record System (net : Network) : Type 0 where
  pub instance : Instance net
  pub task : Task

module _ (net : Network) (client : Client) (start : Bytes → M (net.World) (Unit {0})) where
  abbrev fail_step : Task → Bytes → CaffResult → Instance net → Task
  fail_step idle id error s = check_failure net client s.broadcast id error
  fail_step (checked other_id other) id error s = checked other_id other
  fail_step (stopped other) id error s = stopped other

  -- Another task begins only when the one before it is through.
  abbrev pub run_step : Step → System net → System net
  run_step (starts fuel id) y = record y {
    instance = (start_broadcast net client start fuel id y.instance).1;
  }
  run_step ends_broadcast y = record y { instance = end_broadcast net client y.instance }
  run_step signs_out y = record y { instance = sign_out net client y.instance }
  run_step (fails id error) y = record y { task = fail_step y.task id error y.instance }
  run_step goes_on y =
      let r = dispatch_failure net client y.task y.instance in record { instance = r.1; task = r.0 }

  abbrev pub run_steps : List Step → System net → System net
  run_steps [] y = y
  run_steps (step ∷ steps) y = run_steps steps (run_step step y)

  abbrev IsOrderly : Task → Instance net → Type 0
  IsOrderly t s = Orderly s.events s.broadcast t
