-- ===== src/Coordinator/Submit.antt =====
-- internal/coordinator/pull.go: handlePullSubmit, which turns a batch into queued tasks.
pub mod Batches
pub mod Queueing
use inoculum.Shared.{
  ℕ, ◌+◌, String, ◌==◌, Bool, ◌&&◌, not, Option, none, some, List, [], ◌∷◌, map, if◌then◌else◌,
  ◌>>=◌, length, ltb, Result as Fallible, ok, err,
}
use inoculum.Text.{append}
use inoculum.Text.Decimal.{decimal}
use inoculum.Types.Wire.{PullSubmitTask, PullSubmitRequest, PullSubmitResponse}
use inoculum.Workload.{
  Task, WorkloadError, http_probe_type, max_manifest_bytes, validate_task_type, validate_tasks,
  validate_simple_inputs,
}
use inoculum.LeaseQueue.Tasks.{QueueError, TaskSpec}
use inoculum.LeaseQueue.{Queue, enqueue}
use inoculum.Monitor.Model.{Severity, SystemEvent}
use inoculum.Coordinator.Http.{
  Request, Response, json, Message, text, unsuitable, refused, keyed_tasks_require,
  decode_json_request, method_not_allowed,
}
use inoculum.Coordinator.Server.{Server, Clock, coordinator_event, note}

-- The body of an answer: the response, or the message under "error".
abbrev pub Answer {ℓ} : Type ℓ → Type ℓ
Answer A = Fallible Message A

abbrev pub keyed : PullSubmitTask → Task
keyed task = record { key = task.key; input = task.input }

abbrev pub unkeyed : String → Task
unkeyed input = record { key = ""; input = input }

-- A check of the workload package, whose error the handler returns.
abbrev pub unless_unsuitable {ℓ} :
    {A : Type ℓ} → Fallible WorkloadError (Unit {0}) → Fallible Message A → Fallible Message A
unless_unsuitable (err e) k = err (unsuitable e)
unless_unsuitable (ok _) k = k

-- The tasks of a request, or the message that refuses it.
unfoldable pub batch : PullSubmitRequest → Fallible Message (List Task)
batch req =
    let tasks = map keyed req.tasks in
    unless_unsuitable (validate_task_type req.task_type) (
      if ltb 0 (length req.inputs) && ltb 0 (length req.tasks)
      then err (text "inputs and keyed tasks cannot be combined")
      else if ltb 0 (length req.tasks)
      then (if not (req.task_type == http_probe_type)
          then err (keyed_tasks_require http_probe_type)
          else unless_unsuitable (validate_tasks tasks) (ok tasks))
      else unless_unsuitable (validate_simple_inputs req.inputs) (ok (map unkeyed req.inputs)))

abbrev pub job_id_at : ℕ → String
job_id_at now = append "pull-job-" (decimal now)

abbrev pub task_id_at : String → ℕ → String
task_id_at job_id i = append job_id (append "-task-" (decimal i))

abbrev pub spec_at : String → String → ℕ → Task → TaskSpec
spec_at job_id task_type i task = record {
  id = task_id_at job_id i;
  job_id = job_id;
  key = task.key;
  type = task_type;
  input = task.input;
}

-- taskIDs[i] = taskID, before what the rest of the loop gives
unfoldable pub with_id :
    String → Queue × Fallible QueueError (List String) → Queue × Fallible QueueError (List String)
with_id id (q, err e) = (q, err e)
with_id id (q, ok ids) = (q, ok (id ∷ ids))

-- The loop ends at the first error of Enqueue.
unfoldable pub followed_by :
    String
    → Queue × Fallible QueueError (Unit {0})
    → (Queue → Queue × Fallible QueueError (List String))
    → Queue × Fallible QueueError (List String)
followed_by id (q, err e) rest = (q, err e)
followed_by id (q, ok _) rest = with_id id (rest q)

-- The loop of Enqueue over the tasks from index `i` on, and the ids that it gave.
unfoldable pub enqueue_tasks :
    String → String → ℕ → List Task → Queue → Queue × Fallible QueueError (List String)
enqueue_tasks job_id task_type i [] q = (q, ok [])
enqueue_tasks job_id task_type i (task ∷ tasks) q =
    followed_by (task_id_at job_id i) (enqueue (spec_at job_id task_type i task) q)
      (enqueue_tasks job_id task_type (i + 1) tasks)

abbrev pub queued_event : String → ℕ → SystemEvent
queued_event job_id n =
    coordinator_event Severity.info "job_queued" "Job queued"
      (("job_id", job_id) ∷ ("tasks", decimal n) ∷ [])

unfoldable pub answer_submit :
    Clock
    → String
    → Fallible QueueError (List String)
    → Server
    → Option (Server × Response (Answer PullSubmitResponse))
answer_submit clock job_id (err e) s = some (s, json 500 (err (refused e)))
answer_submit clock job_id (ok ids) s = do
  s' ← note (clock.event 0) (queued_event job_id (length ids)) s
  some (s', json 200 (ok (record { job_id = job_id; task_ids = ids })))

-- handlePullSubmit, from the choice of the job's id on
unfoldable pub serve_submit :
    Clock → String → List Task → Server → Option (Server × Response (Answer PullSubmitResponse))
serve_submit clock task_type tasks s =
    let job_id = job_id_at clock.call in
    let (q, added) = enqueue_tasks job_id task_type 0 tasks s.pull_queue in
    answer_submit clock job_id added (record s { pull_queue = q })

unfoldable pub handle_pull_submit :
    Clock
    → Request PullSubmitRequest
    → Server
    → Option (Server × Response (Answer PullSubmitResponse))
handle_pull_submit clock r s =
    if not (r.method == "POST")
    then some (s, method_not_allowed)
    else elim (decode_json_request max_manifest_bytes r.body) [
      | err _ ↦ some (s, json 400 (err (text "task_type and valid task inputs are required")))
      | ok req ↦ elim (batch req) [
        | err m ↦ some (s, json 400 (err m))
        | ok tasks ↦ serve_submit clock req.task_type tasks s
      ]
    ]
