-- ===== src/Coordinator/Monitoring/Views.antt =====
-- internal/coordinator/monitor.go: what MonitorSnapshot shows of the queue.
use inoculum.Shared.{
  ℕ, ◌+◌, ◌≤◌, ◌≡◌, ◌⊎◌, String, ◌==◌, true, ◌&&◌, Option, none, some, List, number, count, GoMap,
  lookup,
}
use inoculum.LeaseQueue.Tasks.{Task, is_queued, is_leased}
use inoculum.Monitor.Model.{JobProgress, WorkerSummary}
use inoculum.Coordinator.Server.{Server}
use inoculum.Coordinator.Jobs.{is_failed}
use inoculum.Coordinator.Jobs.States.{is_completed}
use inoculum.Coordinator.Status.Counting.{holds, is_held}
use inoculum.Coordinator.Status.{recent_worker_window}
use inoculum.Coordinator.Monitoring.{job_of, finish_job, is_open}

-- The counts of a job, by the tasks that are its own.
record Tallied (j : String) (ts : List Task) (job job' : JobProgress) : Type 0 where
  total : job'.total ≡ job.total + number (λ t. t.job_id == j) ts
  queued : job'.queued ≡ job.queued + number (λ t. (t.job_id == j) && is_queued t.state) ts
  running : job'.running ≡ job.running + number (λ t. (t.job_id == j) && is_leased t.state) ts
  completed :
      job'.completed ≡ job.completed + number (λ t. (t.job_id == j) && is_completed t.state) ts
  failed : job'.failed ≡ job.failed + number (λ t. (t.job_id == j) && is_failed t.state) ts

-- Each job of the order is there.
abbrev Known : List String → GoMap JobProgress → Type 0
Known order jobs = (j : String) → 1 ≤ count j order → is_held (lookup j jobs) ≡ true

-- What the loop over the jobs leaves: nothing new, or an open job, as it stands in the map.
abbrev IsCurrent : ℕ → GoMap JobProgress → Option JobProgress → Type 0
IsCurrent now jobs none = Unit
IsCurrent now jobs (some job) =
    (j : String) × (job ≡ finish_job now (job_of j jobs)) × (is_open job ≡ true)

abbrev IsSummary : ℕ → List Task → WorkerSummary → Type 0
IsSummary now ts w =
    (now ≤ w.last_activity + recent_worker_window) × (w.active ≡ number (holds w.worker_id) ts)

-- What a view says of its job: it is queued or running, and its counts are those of its own tasks.
abbrev pub ShowsJob : List Task → Option JobProgress → Type 0
ShowsJob ts none = Unit
ShowsJob ts (some job) =
    (j : String) × ((job.state ≡ "queued") ⊎ (job.state ≡ "running"))
    × (job.total ≡ number (λ t. t.job_id == j) ts)
    × (job.queued ≡ number (λ t. (t.job_id == j) && is_queued t.state) ts)
    × (job.running ≡ number (λ t. (t.job_id == j) && is_leased t.state) ts)
    × (job.completed ≡ number (λ t. (t.job_id == j) && is_completed t.state) ts)
    × (job.failed ≡ number (λ t. (t.job_id == j) && is_failed t.state) ts)
