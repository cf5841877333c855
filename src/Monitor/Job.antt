-- ===== src/Monitor/Job.antt =====
-- internal/monitor/job.go: a job's progress from the coordinator's answer.
pub mod Counts
use inoculum.Shared.{
  ℕ, ◌+◌, String, ◌==◌, Bool, Option, none, some, List, [], ◌∷◌, ◌++◌, length, map, if◌then◌else◌,
  GoMap, lookup, insert,
}
use inoculum.Shared.Int.{ℤ, pos, sub_ℕ}
use inoculum.Shared.Sorting.{sort_by}
use inoculum.Types.Wire.{PullJobState, PullJobTask, PullJobResponse}
use inoculum.Monitor.Model.{TaskProgress, WorkerContribution, JobProgress}

-- string(response.State)
abbrev pub job_state_text : PullJobState → String
job_state_text PullJobState.queued = "queued"
job_state_text PullJobState.running = "running"
job_state_text PullJobState.completed = "completed"
job_state_text PullJobState.failed = "failed"

abbrev pub progress_of : PullJobTask → TaskProgress
progress_of task = elim task.result [
  | none ↦ record {
    task_id = task.task_id;
    key = task.key;
    state = task.state;
    worker_id = task.worker_id;
    attempt = task.attempts;
    started_at = none;
    duration = pos 0;
    output = "";
    error = "";
  }
  | some r ↦ record {
    task_id = task.task_id;
    key = task.key;
    state = task.state;
    worker_id = task.worker_id;
    attempt = task.attempts;
    started_at = none;
    duration = r.duration;
    output = r.output;
    error = r.error;
  }
]

-- The switch on task.State that counts for the job.
abbrev pub count_state : String → JobProgress → JobProgress
count_state state job =
    if state == "queued"
    then record job { queued = job.queued + 1 }
    else if state == "leased"
    then record job { running = job.running + 1 }
    else if state == "completed"
    then record job { completed = job.completed + 1 }
    else if state == "failed"
    then record job { failed = job.failed + 1 }
    else job

-- The switch on task.State that counts for the worker.
abbrev pub count_work : String → WorkerContribution → WorkerContribution
count_work state worker =
    if state == "leased"
    then record worker { active = worker.active + 1 }
    else if state == "completed"
    then record worker { completed = worker.completed + 1 }
    else if state == "failed"
    then record worker { failed = worker.failed + 1 }
    else worker

abbrev pub no_work : String → WorkerContribution
no_work worker_id = record { worker_id = worker_id; active = 0; completed = 0; failed = 0 }

-- workers[worker_id], made where it is missing
abbrev pub worker_of : String → GoMap WorkerContribution → WorkerContribution
worker_of worker_id workers = elim (lookup worker_id workers) [
  | none ↦ no_work worker_id
  | some worker ↦ worker
]

abbrev pub contribute : PullJobTask → GoMap WorkerContribution → GoMap WorkerContribution
contribute task workers =
    let worker = worker_of task.worker_id workers in
    if task.worker_id == ""
    then workers
    else insert task.worker_id (count_work task.state worker) workers

-- The loop over the tasks.
pub count_tasks :
    List PullJobTask
    → JobProgress
    → GoMap WorkerContribution
    → JobProgress × GoMap WorkerContribution
count_tasks [] job workers = (job, workers)
count_tasks (task ∷ tasks) job workers =
    let job' = count_state task.state job in
    count_tasks tasks (record job' { tasks = job.tasks ++ progress_of task ∷ [] })
      (contribute task workers)

-- The job before the loop.
abbrev pub started : PullJobResponse → Option ℕ → ℕ → JobProgress
started response started_at observed_at = record {
  job_id = response.job_id;
  state = job_state_text response.state;
  total = length response.tasks;
  queued = 0;
  running = 0;
  completed = 0;
  failed = 0;
  started_at = started_at;
  elapsed = elim started_at [ none ↦ pos 0 | some t ↦ sub_ℕ observed_at t ];
  tasks = [];
  workers = [];
}

pub job_from_response : PullJobResponse → Option ℕ → ℕ → JobProgress
job_from_response response started_at observed_at =
    let (job, workers) = count_tasks response.tasks (started response started_at observed_at) [] in
    record job { workers = sort_by (λ w. w.worker_id) (map (λ e. e.1) workers) }
