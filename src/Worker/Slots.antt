-- ===== src/Worker/Slots.antt =====
-- internal/worker/pull.go: runSlot, which claims tasks, and executeClaim, which runs one.
pub mod Counting
pub mod Tally
pub mod Examples
use inoculum.Shared.{
  ℕ, ◌+◌, String, ◌==◌, Bool, true, false, ◌||◌, not, Option, none, some, List, [], ◌∷◌,
  if◌then◌else◌, ◌>>=◌, Result as Fallible, ok, err,
}
use inoculum.Shared.Int.{pos, sub_ℕ}
use inoculum.Text.{append}
use inoculum.Text.Decimal.{decimal}
use inoculum.Types.Wire.{PullStatus, PullTask}
use inoculum.Monitor.Model.{Severity, TaskProgress}
use inoculum.Monitor.Worker.{WorkerTracker, task_started, task_finished}
use inoculum.Worker.Connection.{
  Connection, worker_event, report, mark_unavailable, mark_connected, next_backoff,
  default_min_backoff,
}
use inoculum.Worker.Delivery.{
  Round, Ending, goes_on, abandoned, resolved, submit_result_until_resolved,
}
use inoculum.Worker.Renewal.{
  ClaimError, unreachable, claim_returned, Wake, renew_loop, renew_interval,
}

-- What happens to a claim once its task has been executed: wake-ups of the loop that renews its
-- lease and rounds of the loop that delivers the result, in the order in which they happen.
pub data Beat : Type 0 where
  renewal : Wake → Beat
  delivery : Round → Beat

abbrev pub tracking : (WorkerTracker → WorkerTracker) → Connection → Connection
tracking change c = record c { monitor = change c.monitor }

-- The two loops side by side; `renewing` is whether renewLoop still runs.
pub side_by_side : String → ℕ → Bool → List Beat → ℕ → ℕ → Connection → Option (Connection × Ending)
side_by_side task_id interval renewing [] backoff attempts c = some (c, goes_on)
side_by_side task_id interval renewing (renewal wake ∷ beats) backoff attempts c =
    let renewed = renew_loop interval (wake ∷ []) c >>= λ r.
    side_by_side task_id interval r.1 beats backoff attempts r.0 in
    let alone = side_by_side task_id interval false beats backoff attempts c in
    elim renewing [ true ↦ renewed | false ↦ alone ]
side_by_side task_id interval renewing (delivery round ∷ beats) backoff attempts c =
    submit_result_until_resolved task_id (round ∷ []) backoff attempts c >>= λ r. elim r.1 [
      | goes_on ↦
          side_by_side task_id interval renewing beats (next_backoff backoff) (attempts + 1) r.0
      | abandoned ↦ some (r.0, abandoned)
      | resolved status ↦ some (r.0, resolved status)
    ]

abbrev pub is_completed_status : PullStatus → Bool
is_completed_status PullStatus.task_completed = true
is_completed_status _ = false

abbrev pub is_failed_status : PullStatus → Bool
is_failed_status PullStatus.task_failed = true
is_failed_status _ = false

abbrev pub ended_with : (PullStatus → Bool) → Ending → Bool
ended_with test goes_on = false
ended_with test abandoned = false
ended_with test (resolved status) = test status

-- w.monitor.TaskFinished, behind the two loops
abbrev pub finished : String → Ending → Connection → Connection
finished task_id ending = tracking λ t. record t {
  snapshot =
      task_finished task_id (ended_with is_completed_status ending)
        (ended_with is_failed_status ending) t.snapshot;
}

-- What the outside does to one claim: the wake-ups of renewLoop while the task is executed, and the
-- beats behind that.
pub record Work : Type 0 where
  pub now : ℕ
  pub wakes : List Wake
  pub beats : List Beat

-- executeClaim
pub execute_claim : Work → PullTask → Connection → Option (Connection × Ending)
execute_claim work task c =
    let interval = renew_interval (sub_ℕ task.lease_expires_at work.now) in
    do
      (c₁, renewing) ← renew_loop interval work.wakes c
      (c₂, ending) ← side_by_side task.task_id interval renewing work.beats default_min_backoff 0 c₁
      some (finished task.task_id ending c₂, ending)

-- w.monitor.TaskStarted
abbrev pub progress_of_claim : String → ℕ → PullTask → TaskProgress
progress_of_claim worker_id now task = record {
  task_id = task.task_id;
  key = "";
  state = "running";
  worker_id = worker_id;
  attempt = task.attempt;
  started_at = some now;
  duration = pos 0;
  output = "";
  error = "";
}

abbrev pub started_event : PullTask → List (String × String)
started_event task = ("task_id", task.task_id) ∷ ("attempt", decimal task.attempt) ∷ []

pub start_claim : String → ℕ → PullTask → Connection → Option Connection
start_claim worker_id now task c =
    report now (worker_event Severity.info "task_started" "Task started" (started_event task)) (
      tracking
        (λ t. record t {
          snapshot = task_started (progress_of_claim worker_id now task) t.snapshot;
        })
        c)

-- The text of a status on the wire.
abbrev pub status_text : PullStatus → String
status_text PullStatus.task_available = "task_available"
status_text PullStatus.no_task = "no_task_available"
status_text PullStatus.lease_renewed = "lease_renewed"
status_text PullStatus.task_completed = "task_completed"
status_text PullStatus.task_requeued = "task_requeued"
status_text PullStatus.task_failed = "task_failed"
status_text PullStatus.stale_lease = "stale_lease"
status_text PullStatus.rejected = "rejected"

-- Error of the errors that claim returns
abbrev pub claim_error_text : ClaimError → String
claim_error_text (unreachable e) = e
claim_error_text (claim_returned code status) =
    append "claim returned HTTP "
      (append (decimal code) (append " (" (append (status_text status) ")")))

-- One round of runSlot: whether the context is done at its start, the reply to the claim, whether
-- the context is done then, whether the wait runs to its end, the clock, and what becomes of a claim.
pub record SlotRound : Type 0 where
  pub stopped : Bool
  pub reply : Fallible ClaimError (Option PullTask × PullStatus)
  pub stopped_after : Bool
  pub waited : Bool
  pub now : ℕ
  pub work : Work

abbrev pub is_available : PullStatus → Bool
is_available PullStatus.task_available = true
is_available _ = false

-- The task that a reply hands out: none without a task, with no_task, or with another status.
abbrev pub offered : Option PullTask × PullStatus → Option PullTask
offered (none, status) = none
offered (some task, status) = if is_available status then some task else none

-- runSlot: the connection behind the rounds given, whether the slot goes on, and how each claim
-- ended.
pub run_slot :
    String
    → List SlotRound
    → ℕ
    → ℕ
    → Connection
    → Option (Connection × Bool × List (String × Ending))
run_slot worker_id [] backoff attempt c = some (c, true, [])
run_slot worker_id (r ∷ rounds) backoff attempt c =
    let polled : Option (Connection × Bool × List (String × Ending)) = elim r.reply [
      | err e ↦
          let failed = mark_unavailable r.now (claim_error_text e) (attempt + 1) backoff c in
          let again =
            failed >>= λ c'. run_slot worker_id rounds (next_backoff backoff) (attempt + 1) c' in
          let left = failed >>= λ c'. some (c', false, []) in
          if r.stopped_after then some (c, false, []) else if r.waited then again else left
      | ok reply ↦ mark_connected r.now c >>= λ c'. elim (offered reply) [
        | none ↦
            let again = run_slot worker_id rounds default_min_backoff 0 c' in
            if r.waited then again else some (c', false, [])
        | some task ↦ do
          c₁ ← start_claim worker_id r.now task c'
          (c₂, ending) ← execute_claim r.work task c₁
          (c₃, goes, done) ← run_slot worker_id rounds default_min_backoff 0 c₂
          some (c₃, goes, (task.task_id, ending) ∷ done)
      ]
    ] in
    if r.stopped then some (c, false, []) else polled
