-- ===== src/Coordinator/Monitoring.antt =====
-- internal/coordinator/monitor.go: MonitorSnapshot, the view for a display.
pub mod Views
use inoculum.Shared.{
  ℕ, ◌+◌, String, ◌==◌, Bool, true, false, ◌&&◌, ◌||◌, not, Option, none, some, List, [], ◌∷◌, ◌++◌,
  eqb, ltb, if◌then◌else◌, ◌>>=◌, length, GoMap, lookup, insert,
}
use inoculum.Shared.Int.{ℤ, pos, sub_ℕ}
use inoculum.Shared.Sorting.{sort_by}
use inoculum.LeaseQueue.Tasks.{TaskState, Task, Lease, is_leased}
use inoculum.LeaseQueue.{observe}
use inoculum.Monitor.Model.{
  TaskCounts, TaskProgress, JobProgress, WorkerSummary, CoordinatorSnapshot,
}
use inoculum.Monitor.Recorder
use inoculum.Coordinator.Server.{Server}
use inoculum.Coordinator.Jobs.{state_text}
use inoculum.Coordinator.Status.{is_past}

abbrev pub new_job : String → JobProgress
new_job job_id = record {
  job_id = job_id;
  state = "";
  total = 0;
  queued = 0;
  running = 0;
  completed = 0;
  failed = 0;
  started_at = none;
  elapsed = pos 0;
  tasks = [];
  workers = [];
}

-- What the loop keeps: the counts, the jobs, and the order in which they were met.
pub record Seen : Type 0 where
  pub counts : TaskCounts
  pub jobs : GoMap JobProgress
  pub job_order : List String

-- The task's progress, with the lease's times and then the result's values written over it.
abbrev pub base_progress : Task → TaskProgress
base_progress task = record {
  task_id = task.id;
  key = task.key;
  state = state_text task.state;
  worker_id = task.worker_id;
  attempt = task.attempts;
  started_at = none;
  duration = pos 0;
  output = "";
  error = "";
}

abbrev pub timed : ℕ → Task → TaskProgress → TaskProgress
timed now task p = elim task.lease [
  | none ↦ p
  | some lease ↦
      if is_leased task.state
      then record p { started_at = some lease.issued_at; duration = sub_ℕ now lease.issued_at }
      else p
]

abbrev pub task_progress : ℕ → Task → TaskProgress
task_progress now task =
    let p = timed now task (base_progress task) in
    elim task.result [
      | none ↦ p
      | some r ↦ record p { duration = r.duration; output = r.output; error = r.error }
    ]

abbrev pub count_task : TaskState → TaskCounts → TaskCounts
count_task TaskState.queued c = record c { queued = c.queued + 1 }
count_task TaskState.leased c = record c { running = c.running + 1 }
count_task TaskState.completed c = record c { completed = c.completed + 1 }
count_task TaskState.failed c = record c { failed = c.failed + 1 }

-- The job starts with the earliest lease that one of its tasks has now.
abbrev pub earlier : Option ℕ → ℕ → Option ℕ
earlier none issued_at = some issued_at
earlier (some started) issued_at = if ltb issued_at started then some issued_at else some started

abbrev pub start_job : Task → JobProgress → JobProgress
start_job task job = elim task.lease [
  | none ↦ job
  | some lease ↦ record job { started_at = earlier job.started_at lease.issued_at }
]

abbrev pub count_in_job : Task → JobProgress → JobProgress
count_in_job task job = elim task.state [
  | TaskState.queued ↦ record job { queued = job.queued + 1 }
  | TaskState.leased ↦ start_job task (record job { running = job.running + 1 })
  | TaskState.completed ↦ record job { completed = job.completed + 1 }
  | TaskState.failed ↦ record job { failed = job.failed + 1 }
]

abbrev pub job_of : String → GoMap JobProgress → JobProgress
job_of job_id jobs = elim (lookup job_id jobs) [ none ↦ new_job job_id | some job ↦ job ]

abbrev pub add_to_job : ℕ → Task → JobProgress → JobProgress
add_to_job now task job =
    let job' = count_in_job task (record job { total = job.total + 1 }) in
    record job' { tasks = job'.tasks ++ task_progress now task ∷ [] }

abbrev pub see_task : ℕ → Task → Seen → Seen
see_task now task seen = record {
  counts = count_task task.state seen.counts;
  jobs = insert task.job_id (add_to_job now task (job_of task.job_id seen.jobs)) seen.jobs;
  job_order = elim (lookup task.job_id seen.jobs) [
    | none ↦ seen.job_order ++ task.job_id ∷ []
    | some _ ↦ seen.job_order
  ];
}

pub see_tasks : ℕ → List Task → Seen → Seen
see_tasks now [] seen = seen
see_tasks now (task ∷ tasks) seen = see_tasks now tasks (see_task now task seen)

-- The switch on the counts of a job.
pub monitor_state : JobProgress → String
monitor_state job =
    if ltb 0 job.failed && eqb (job.completed + job.failed) job.total
    then "failed"
    else if eqb job.completed job.total
    then "completed"
    else if ltb 0 job.running || ltb 0 job.completed || ltb 0 job.failed
    then "running"
    else "queued"

abbrev pub finish_job : ℕ → JobProgress → JobProgress
finish_job now job = record job {
  state = monitor_state job;
  elapsed = elim job.started_at [ none ↦ job.elapsed | some t ↦ sub_ℕ now t ];
}

abbrev pub is_open : JobProgress → Bool
is_open job = (job.state == "queued") || (job.state == "running")

-- The loop over jobOrder: the last job that is not at its end. A job id that the map lacks would be
-- a nil pointer.
pub current_job :
    ℕ → List String → GoMap JobProgress → Option JobProgress → Option (Option JobProgress)
current_job now [] jobs current = some current
current_job now (job_id ∷ job_ids) jobs current = do
  job ← lookup job_id jobs
  let done = finish_job now job
  current_job now job_ids jobs (if is_open done then some done else current)

-- The inner loop of the workers' loop.
abbrev pub leases_of : String → List Task → ℕ
leases_of worker_id [] = 0
leases_of worker_id (task ∷ tasks) =
    let rest = leases_of worker_id tasks in
    elim task.lease [
      | none ↦ rest
      | some lease ↦
          if is_leased task.state && (lease.worker_id == worker_id) then rest + 1 else rest
    ]

pub summaries : ℕ → List Task → GoMap ℕ → GoMap ℕ × List WorkerSummary
summaries now tasks [] = ([], [])
summaries now tasks ((worker_id, last_activity) ∷ activity) =
    let (kept, workers) = summaries now tasks activity in
    if is_past now last_activity then (kept, workers) else (
      (worker_id, last_activity) ∷ kept,
      record {
        worker_id = worker_id;
        last_activity = last_activity;
        active = leases_of worker_id tasks;
      }
          ∷ workers,
    )

abbrev pub nothing_seen : ℕ → Seen
nothing_seen total = record {
  counts = record { queued = 0; running = 0; completed = 0; failed = 0; total = total };
  jobs = [];
  job_order = [];
}

pub monitor_snapshot : ℕ → List String → String → Server → Option (Server × CoordinatorSnapshot)
monitor_snapshot now addresses fingerprint s = do
  tasks ← observe s.pull_queue
  let seen = see_tasks now tasks (nothing_seen (length tasks))
  current ← current_job now seen.job_order seen.jobs none
  let (kept, workers) = summaries now tasks s.worker_activity
  some (
    record s { worker_activity = kept },
    record {
      observed_at = now;
      online = true;
      addresses = addresses;
      fingerprint = fingerprint;
      uptime = sub_ℕ now s.start_time;
      tasks = seen.counts;
      jobs = length seen.jobs;
      workers = sort_by (λ w. w.worker_id) workers;
      current_job = current;
      events = Recorder.snapshot s.events;
    },
  )
