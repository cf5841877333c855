-- ===== src/Worker/Delivery.antt =====
-- internal/worker/pull.go: submitResultUntilResolved, the loop that delivers a result.
pub mod Retries
pub mod Examples
use inoculum.Shared.{
  ℕ, ◌+◌, String, Bool, true, false, not, Option, none, some, List, [], ◌∷◌, if◌then◌else◌, ◌>>=◌,
  Result as Fallible, ok, err,
}
use inoculum.Types.Wire.{PullStatus}
use inoculum.Monitor.Model.{Severity}
use inoculum.Worker.Connection.{
  Connection, worker_event, report, mark_unavailable, mark_connected, next_backoff,
}

-- What happens in one round: whether the context is done at its start, what submitResult returns,
-- whether the context is done then, whether the wait runs to its end, and the clock.
pub record Round : Type 0 where
  pub stopped : Bool
  pub reply : Fallible String PullStatus
  pub stopped_after : Bool
  pub waited : Bool
  pub now : ℕ

-- The loop's end: it goes on behind the rounds given, it returns "" because the context is done, or
-- it returns the coordinator's answer.
pub data Ending : Type 0 where
  goes_on abandoned : Ending
  resolved : PullStatus → Ending

-- The switch on the answer.
unfoldable pub report_status : ℕ → String → PullStatus → Connection → Option Connection
report_status now task_id PullStatus.task_completed c =
    report now
      (worker_event Severity.info "task_completed" "Task completed" (("task_id", task_id) ∷ [])) c
report_status now task_id PullStatus.task_requeued c =
    report now
      (worker_event Severity.warning "task_requeued" "Task failed and was requeued"
        (("task_id", task_id) ∷ []))
      c
report_status now task_id PullStatus.task_failed c =
    report now
      (worker_event Severity.error "task_failed" "Task failed permanently"
        (("task_id", task_id) ∷ []))
      c
report_status now task_id _ c = some c

-- The loop, with the delays that it waits for.
unfoldable pub submit_result_until_resolved :
    String → List Round → ℕ → ℕ → Connection → Option (Connection × Ending × List ℕ)
submit_result_until_resolved task_id [] backoff attempts c = some (c, goes_on, [])
submit_result_until_resolved task_id (r ∷ rounds) backoff attempts c =
    let answer : Option (Connection × Ending × List ℕ) = elim r.reply [
      | err e ↦
          let failed = mark_unavailable r.now e (attempts + 1) backoff c in
          let again = failed >>= λ c'.
          submit_result_until_resolved task_id rounds (next_backoff backoff) (attempts + 1) c'
          >>= λ x. some (x.0, x.1, backoff ∷ x.2) in
          let left = failed >>= λ c'. some (c', abandoned, backoff ∷ []) in
          if r.stopped_after then some (c, abandoned, []) else if r.waited then again else left
      | ok status ↦ mark_connected r.now c >>= λ c'.
          report_status r.now task_id status c' >>= λ c''. some (c'', resolved status, [])
    ] in
    if r.stopped then some (c, abandoned, []) else answer
