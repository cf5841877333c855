-- ===== src/Worker/Slots/Tally.antt =====
-- How a slot's claims are counted.
use inoculum.Shared.{◌+◌, ◌≡◌, String, Bool, Option, some, List, [], number, Result as Fallible}
use inoculum.Monitor.Model.{TaskProgress}
use inoculum.Monitor.Worker.{drop_task}
use inoculum.Worker.Connection.{Connection}
use inoculum.Worker.Delivery.{Ending}
use inoculum.Worker.Delivery.Retries.{IsTracked}
use inoculum.Worker.Slots.{is_completed_status, is_failed_status, ended_with}

abbrev pub Done : Type 0
Done = List (String × Ending)

abbrev pub completes : String × Ending → Bool
completes d = ended_with is_completed_status d.1

abbrev pub fails : String × Ending → Bool
fails d = ended_with is_failed_status d.1

abbrev pub active_of : Connection → List TaskProgress
active_of c = c.monitor.snapshot.active_tasks

-- What the tracker shows behind these claims.
pub record Tally (c : Connection) (claims : Done) (c' : Connection) : Type 0 where
  pub completed :
      c'.monitor.snapshot.completed ≡ c.monitor.snapshot.completed + number completes claims
  pub failed : c'.monitor.snapshot.failed ≡ c.monitor.snapshot.failed + number fails claims
  pub idle : active_of c ≡ [] → active_of c' ≡ []

-- What a claim adds to the tracker, from its start to its end.
record Started (task_id : String) (c c' : Connection) : Type 0 where
  completed : c'.monitor.snapshot.completed ≡ c.monitor.snapshot.completed
  failed : c'.monitor.snapshot.failed ≡ c.monitor.snapshot.failed
  alone : active_of c ≡ [] → drop_task task_id (active_of c') ≡ []

abbrev Outcome : Type 0
Outcome = Connection × Bool × Done

abbrev Tallies : Connection → Option Outcome → Type 0
Tallies c m = IsTracked c → (x : Outcome) × (m ≡ some x) × IsTracked x.0 × Tally c x.2 x.0
