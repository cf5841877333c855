-- ===== src/Coordinator/Jobs.antt =====
-- internal/coordinator/pull.go: handlePullJob, which reports a job's tasks and its state.
pub mod States
use inoculum.Shared.{
  ℕ, String, ◌==◌, Bool, true, false, ◌&&◌, ◌||◌, not, Option, none, some, List, [], ◌∷◌, map, ltb,
  eqb, if◌then◌else◌, ◌>>=◌, length, ok, err,
}
use inoculum.Text.Duration.{duration_string}
use inoculum.Types.Wire.{Result, PullJobState, PullJobTask, PullJobResponse}
use inoculum.LeaseQueue.Tasks.{TaskState, Task, is_terminal}
use inoculum.LeaseQueue.{requeue_expired, job_tasks}
use inoculum.Coordinator.Http.{Query, Response, json, text, method_not_allowed}
use inoculum.Coordinator.Server.{Server, Clock, log_expired}
use inoculum.Coordinator.Submit.{Answer}

-- string(task.State)
abbrev pub state_text : TaskState → String
state_text TaskState.queued = "queued"
state_text TaskState.leased = "leased"
state_text TaskState.completed = "completed"
state_text TaskState.failed = "failed"

abbrev pub is_failed : TaskState → Bool
is_failed TaskState.failed = true
is_failed _ = false

abbrev pub job_task : Task → PullJobTask
job_task task = record {
  task_id = task.id;
  key = task.key;
  state = state_text task.state;
  attempts = task.attempts;
  worker_id = task.worker_id;
  result = elim task.result [
    | none ↦ none
    | some r ↦ some (record {
      task_id = task.id;
      output = r.output;
      duration = r.duration;
      duration_str = duration_string r.duration;
      error = r.error;
    })
  ];
}

-- The three variables that the loop of handlePullJob keeps.
pub record Progress : Type 0 where
  pub all_terminal : Bool
  pub any_failed : Bool
  pub started : Bool

abbrev pub observe_task : Progress → Task → Progress
observe_task p task = record {
  all_terminal = if is_terminal task.state then p.all_terminal else false;
  any_failed = if is_failed task.state then true else p.any_failed;
  started = if ltb 0 task.attempts then true else p.started;
}

pub observe_tasks : Progress → List Task → Progress
observe_tasks p [] = p
observe_tasks p (task ∷ tasks) = observe_tasks (observe_task p task) tasks

pub job_state : Progress → PullJobState
job_state p =
    if p.all_terminal
    then (if p.any_failed then PullJobState.failed else PullJobState.completed)
    else if p.started
    then PullJobState.running
    else PullJobState.queued

abbrev pub no_progress : Progress
no_progress = record { all_terminal = true; any_failed = false; started = false }

pub job_response : String → List Task → PullJobResponse
job_response job_id tasks = record {
  job_id = job_id;
  state = job_state (observe_tasks no_progress tasks);
  tasks = map job_task tasks;
}

-- handlePullJob, from its calls of the queue on
unfoldable pub serve_job :
    Clock → String → Server → Option (Server × Response (Answer PullJobResponse))
serve_job clock job_id s = do
  (q, expired) ← requeue_expired clock.sweep s.pull_queue
  s₁ ← log_expired clock 0 expired (record s { pull_queue = q })
  (q', tasks) ← job_tasks job_id clock.call s₁.pull_queue
  some (
    record s₁ { pull_queue = q' },
    if eqb (length tasks) 0
        then json 404 (err (text "job not found"))
        else json 200 (ok (job_response job_id tasks)),
  )

unfoldable pub handle_pull_job :
    Clock → Query → Server → Option (Server × Response (Answer PullJobResponse))
handle_pull_job clock r s =
    if not (r.method == "GET")
    then some (s, method_not_allowed)
    else if r.id == ""
    then some (s, json 400 (err (text "job id is required")))
    else serve_job clock r.id s
