-- ===== src/Coordinator/Status.antt =====
-- internal/coordinator/status.go: handlePullStatus, which counts the tasks, jobs and workers.
pub mod Counting
pub mod Reports
use inoculum.Shared.{
  ℕ, ◌+◌, ◌*◌, String, ◌==◌, Bool, not, Option, none, some, List, [], ◌∷◌, ltb, if◌then◌else◌,
  ◌>>=◌, length, GoMap, lookup, insert,
}
use inoculum.Shared.Int.{sub_ℕ}
use inoculum.Shared.Sorting.{sort_by}
use inoculum.Text.Duration.{duration_string}
use inoculum.Types.Wire.{PullWorkerStatus, CoordinatorStatusResponse}
use inoculum.LeaseQueue.Tasks.{Task, Stats, is_leased}
use inoculum.LeaseQueue.{requeue_expired, snapshot, bump}
use inoculum.Coordinator.Http.{Query, Response, json, method_not_allowed}
use inoculum.Coordinator.Server.{Server, Clock, log_expired}

abbrev pub recent_worker_window : ℕ
recent_worker_window = 30 * 1000000000

-- The loop of countTaskStates, and the function.
pub count_states : List Task → Stats → Stats
count_states [] stats = stats
count_states (task ∷ tasks) stats = count_states tasks (bump task.state stats)

pub count_task_states : List Task → Stats
count_task_states tasks =
    count_states tasks
      (record { queued = 0; leased = 0; completed = 0; failed = 0; total = length tasks })

-- m[k] of a map of numbers, 0 where the key is missing, and m[k]++
abbrev pub at : String → GoMap ℕ → ℕ
at k m = elim (lookup k m) [ none ↦ 0 | some n ↦ n ]

abbrev pub increment : String → GoMap ℕ → GoMap ℕ
increment k m = insert k (at k m + 1) m

-- The loop over the tasks that fills `jobs` and `activeLeases`.
abbrev pub note_lease : Task → GoMap ℕ → GoMap ℕ
note_lease task active = elim task.lease [
  | none ↦ active
  | some lease ↦ if is_leased task.state then increment lease.worker_id active else active
]

pub tally : List Task → GoMap (Unit {0}) → GoMap ℕ → GoMap (Unit {0}) × GoMap ℕ
tally [] jobs active = (jobs, active)
tally (task ∷ tasks) jobs active = tally tasks (insert task.job_id tt jobs) (note_lease task active)

-- lastActivity.Before(cutoff), with the cutoff's subtraction on the other side
abbrev pub is_past : ℕ → ℕ → Bool
is_past now last_activity = ltb (last_activity + recent_worker_window) now

-- The loop over `workerActivity`: what it leaves there, and the workers it lists.
pub recent_workers : ℕ → GoMap ℕ → GoMap ℕ → GoMap ℕ × List PullWorkerStatus
recent_workers now active [] = ([], [])
recent_workers now active ((worker_id, last_activity) ∷ activity) =
    let (kept, workers) = recent_workers now active activity in
    if is_past now last_activity then (kept, workers) else (
      (worker_id, last_activity) ∷ kept,
      record {
        worker_id = worker_id;
        last_activity = last_activity;
        active_leases = at worker_id active;
      }
          ∷ workers,
    )

-- handlePullStatus. `uptime` is the reading for time.Since.
unfoldable pub serve_status :
    Clock → ℕ → Server → Option (Server × Response CoordinatorStatusResponse)
serve_status clock uptime s = do
  (q, expired) ← requeue_expired clock.sweep s.pull_queue
  s₁ ← log_expired clock 0 expired (record s { pull_queue = q })
  (q', tasks) ← snapshot clock.call s₁.pull_queue
  let stats = count_task_states tasks
  let (jobs, active) = tally tasks [] []
  let (kept, workers) = recent_workers clock.activity active s₁.worker_activity
  some (
    record s₁ { pull_queue = q'; worker_activity = kept },
    json 200 (record {
      queued_tasks = stats.queued;
      leased_tasks = stats.leased;
      completed_tasks = stats.completed;
      failed_tasks = stats.failed;
      total_tasks = stats.total;
      total_jobs = length jobs;
      recent_workers = sort_by (λ w. w.worker_id) workers;
      uptime = duration_string (sub_ℕ uptime s.start_time);
    }),
  )

unfoldable pub handle_pull_status :
    Clock → ℕ → Query → Server → Option (Server × Response CoordinatorStatusResponse)
handle_pull_status clock uptime r s =
    if not (r.method == "GET") then some (s, method_not_allowed) else serve_status clock uptime s
