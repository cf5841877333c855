-- ===== src/Worker/Slots/Examples.antt =====
-- A slot whose first claim fails, and whose second gets a task.
use inoculum.Shared.{true, false, some, List, [], ◌∷◌, ok, err}
use inoculum.Types.Wire.{PullStatus, PullTask}
use inoculum.Worker.Connection.{Connection}
use inoculum.Worker.Delivery.Retries.{failing, answered}
use inoculum.Worker.Renewal.{unreachable, tick}
use inoculum.Worker.Slots.{Work, renewal, delivery, SlotRound}
use inoculum.Worker.Slots.Tally.{Tally}

abbrev task : PullTask
task = record {
  task_id = "t1";
  job_id = "j1";
  type = "diagnostic_sleep";
  input = "1s";
  lease_id = "l1";
  attempt = 1;
  lease_expires_at = 9;
}

abbrev work : Work
work = record {
  now = 3;
  wakes = tick (ok PullStatus.lease_renewed) false 4 ∷ [];
  beats =
      delivery (failing (5, "connection refused"))
      ∷ renewal (tick (err "HTTP 502") false 6)
      ∷ delivery (answered 7 PullStatus.task_completed)
      ∷ [];
}

abbrev round_without : SlotRound
round_without = record {
  stopped = false;
  reply = err (unreachable "connection refused");
  stopped_after = false;
  waited = true;
  now = 1;
  work = work;
}

abbrev two_rounds : List SlotRound
two_rounds =
    round_without
    ∷ record round_without { reply = ok (some task, PullStatus.task_available); now = 2 }
    ∷ []
