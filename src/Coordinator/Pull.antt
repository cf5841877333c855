-- ===== src/Coordinator/Pull.antt =====
-- internal/coordinator/pull.go: the worker's three requests, for a task, for more time, and with a
-- result.
use inoculum.Shared.{
  ℕ, String, ◌==◌, ◌&&◌, not, Option, none, some, List, [], ◌∷◌, if◌then◌else◌, ◌>>=◌, length,
  Result as Fallible, ok, err,
}
use inoculum.Text.Decimal.{decimal}
use inoculum.Types.Wire.{
  PullStatus, PullTask, PullClaimRequest, PullRenewRequest, PullResultRequest,
}
use inoculum.Types.Validation.{
  ValidationError, validate_worker_id, validate_task_id, validate_lease_id, validate_result,
}
use inoculum.LeaseQueue.Tasks.{QueueError, Assignment, CompletionOutcome, Result, Lease}
use inoculum.LeaseQueue.{requeue_expired, claim, renew, complete}
use inoculum.Monitor.Model.{Severity, SystemEvent}
use inoculum.Coordinator.Http.{
  Request, Response, json, Message, no_message, text, invalid, refused, PullClaimResponse,
  PullRenewResponse, PullResultResponse, decode_json_request, method_not_allowed,
  max_worker_request_bytes,
}
use inoculum.Coordinator.Server.{
  Server, Clock, record_worker_activity, coordinator_event, note, log_expired,
}

abbrev pub task_worker : String → String → List (String × String)
task_worker task_id worker_id = ("task_id", task_id) ∷ ("worker_id", worker_id) ∷ []

abbrev pub leased_event : String → Assignment → SystemEvent
leased_event worker_id a =
    coordinator_event Severity.info "task_leased" "Task leased" (
      ("task_id", a.task.id) ∷ ("worker_id", worker_id) ∷ ("attempt", decimal a.lease.attempt) ∷ [])

abbrev pub offer : Assignment → PullTask
offer a = record {
  task_id = a.task.id;
  job_id = a.task.job_id;
  type = a.task.type;
  input = a.task.input;
  lease_id = a.lease.id;
  attempt = a.lease.attempt;
  lease_expires_at = a.lease.expires_at;
}

abbrev pub claim_rejected : Message → PullClaimResponse
claim_rejected message = record { status = PullStatus.rejected; task = none; message = message }

-- What handlePullClaim answers to a call of Claim, after `k` events.
unfoldable pub answer_claim :
    Clock
    → String
    → ℕ
    → Fallible QueueError (Option Assignment)
    → Server
    → Option (Server × Response PullClaimResponse)
answer_claim clock worker_id k (err _) s = some (s, json 400 (claim_rejected no_message))
answer_claim clock worker_id k (ok none) s =
    some (s, json 200 (record { status = PullStatus.no_task; task = none; message = no_message }))
answer_claim clock worker_id k (ok (some a)) s = do
  s' ← note (clock.event k) (leased_event worker_id a) s
  some (
    s',
    json 200 (record {
      status = PullStatus.task_available;
      task = some (offer a);
      message = no_message;
    }),
  )

-- handlePullClaim, from its calls of the queue on
unfoldable pub serve_claim :
    Clock → String → PullClaimRequest → Server → Option (Server × Response PullClaimResponse)
serve_claim clock lease_id req s = do
  (q, expired) ← requeue_expired clock.sweep s.pull_queue
  s₁ ← log_expired clock 0 expired (record s { pull_queue = q })
  (q', claimed) ← claim req.worker_id clock.call lease_id s₁.pull_queue
  answer_claim clock req.worker_id (length expired) claimed (record s₁ { pull_queue = q' })

unfoldable pub handle_pull_claim :
    Clock
    → String
    → Request PullClaimRequest
    → Server
    → Option (Server × Response PullClaimResponse)
handle_pull_claim clock lease_id r s =
    if not (r.method == "POST")
    then some (s, method_not_allowed)
    else elim (decode_json_request max_worker_request_bytes r.body) [
      | err _ ↦ some (s, json 400 (claim_rejected (text "invalid request")))
      | ok req ↦ elim (validate_worker_id req.worker_id) [
        | err e ↦ some (s, json 400 (claim_rejected (invalid e)))
        | ok _ ↦
            serve_claim clock lease_id req (record_worker_activity clock.activity req.worker_id s)
      ]
    ]

pub validate_lease_request : String → String → String → Fallible ValidationError (Unit {0})
validate_lease_request worker_id task_id lease_id = elim (validate_worker_id worker_id) [
  | err e ↦ err e
  | ok _ ↦ elim (validate_task_id task_id) [ err e ↦ err e | ok _ ↦ validate_lease_id lease_id ]
]

-- pullErrorResponse
pub pull_error_response : QueueError → PullStatus × ℕ
pull_error_response QueueError.already_completed = (PullStatus.task_completed, 409)
pull_error_response QueueError.stale_lease = (PullStatus.stale_lease, 409)
pull_error_response QueueError.task_failed = (PullStatus.task_failed, 409)
pull_error_response QueueError.task_not_found = (PullStatus.rejected, 404)
pull_error_response QueueError.wrong_worker = (PullStatus.rejected, 409)
pull_error_response _ = (PullStatus.rejected, 400)

abbrev pub renew_rejected : Message → PullRenewResponse
renew_rejected message = record {
  status = PullStatus.rejected;
  lease_expires_at = none;
  message = message;
}

pub answer_renew : Fallible QueueError Lease → Response PullRenewResponse
answer_renew (err e) =
    let (status, code) = pull_error_response e in
    json code (record { status = status; lease_expires_at = none; message = refused e })
answer_renew (ok lease) = json 200 (record {
  status = PullStatus.lease_renewed;
  lease_expires_at = some lease.expires_at;
  message = no_message;
})

-- handlePullRenew, from its call of the queue on
unfoldable pub serve_renew :
    Clock → PullRenewRequest → Server → Option (Server × Response PullRenewResponse)
serve_renew clock req s =
    let (q, renewed) = renew req.task_id req.lease_id req.worker_id clock.call s.pull_queue in
    some (record s { pull_queue = q }, answer_renew renewed)

unfoldable pub handle_pull_renew :
    Clock → Request PullRenewRequest → Server → Option (Server × Response PullRenewResponse)
handle_pull_renew clock r s =
    if not (r.method == "POST")
    then some (s, method_not_allowed)
    else elim (decode_json_request max_worker_request_bytes r.body) [
      | err _ ↦ some (s, json 400 (renew_rejected (text "invalid request")))
      | ok req ↦ elim (validate_lease_request req.worker_id req.task_id req.lease_id) [
        | err e ↦ some (s, json 400 (renew_rejected (invalid e)))
        | ok _ ↦ serve_renew clock req (record_worker_activity clock.activity req.worker_id s)
      ]
    ]

abbrev pub result_rejected : Message → PullResultResponse
result_rejected message = record { status = PullStatus.rejected; message = message }

-- What the switch of handlePullResult answers to an outcome, and the event that it records. Its
-- default case is for an outcome that Complete does not return.
abbrev pub outcome_response : CompletionOutcome → PullResultResponse
outcome_response CompletionOutcome.completed = record {
  status = PullStatus.task_completed;
  message = no_message;
}
outcome_response CompletionOutcome.requeued = record {
  status = PullStatus.task_requeued;
  message = text "task execution failed; task returned to queue";
}
outcome_response CompletionOutcome.failed = record {
  status = PullStatus.task_failed;
  message = text "task execution failed and retry policy was exhausted";
}

abbrev pub outcome_event : PullResultRequest → CompletionOutcome → SystemEvent
outcome_event req CompletionOutcome.completed =
    coordinator_event Severity.info "task_completed" "Task completed"
      (task_worker req.task_id req.worker_id)
outcome_event req CompletionOutcome.requeued =
    coordinator_event Severity.warning "task_requeued" "Task failed and was requeued"
      (task_worker req.task_id req.worker_id)
outcome_event req CompletionOutcome.failed =
    coordinator_event Severity.error "task_failed" "Task permanently failed"
      (task_worker req.task_id req.worker_id)

unfoldable pub answer_result :
    Clock
    → PullResultRequest
    → Fallible QueueError CompletionOutcome
    → Server
    → Option (Server × Response PullResultResponse)
answer_result clock req (err e) s =
    let (status, code) = pull_error_response e in
    some (s, json code (record { status = status; message = refused e }))
answer_result clock req (ok outcome) s = do
  s' ← note (clock.event 0) (outcome_event req outcome) s
  some (s', json 200 (outcome_response outcome))

abbrev pub reported : PullResultRequest → Result
reported req = record {
  output = req.result.output;
  duration = req.result.duration;
  error = req.result.error;
}

-- handlePullResult, from its call of the queue on
unfoldable pub serve_result :
    Clock → PullResultRequest → Server → Option (Server × Response PullResultResponse)
serve_result clock req s =
    let (q, completed) =
      complete req.task_id req.lease_id req.worker_id (reported req) clock.call s.pull_queue in
    answer_result clock req completed (record s { pull_queue = q })

unfoldable pub handle_pull_result :
    Clock → Request PullResultRequest → Server → Option (Server × Response PullResultResponse)
handle_pull_result clock r s =
    if not (r.method == "POST")
    then some (s, method_not_allowed)
    else elim (decode_json_request max_worker_request_bytes r.body) [
      | err _ ↦ some (s, json 400 (result_rejected (text "invalid request")))
      | ok req ↦ elim (validate_lease_request req.worker_id req.task_id req.lease_id) [
        | err e ↦ some (s, json 400 (result_rejected (invalid e)))
        | ok _ ↦
            if not (req.result.task_id == "") && not (req.result.task_id == req.task_id)
            then some (
              s,
              json 400 (result_rejected (text "result task ID does not match request task ID")),
            )
            else elim (validate_result req.result) [
              | err e ↦ some (s, json 413 (result_rejected (invalid e)))
              | ok _ ↦
                  serve_result clock req (record_worker_activity clock.activity req.worker_id s)
            ]
      ]
    ]
