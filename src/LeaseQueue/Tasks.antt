-- ===== src/LeaseQueue/Tasks.antt =====
-- internal/leasequeue/queue.go: the task, lease and result values that the queue stores.
use inoculum.Shared.{ℕ, String, Bool, true, false, Option}
use inoculum.Shared.Int.{ℤ}

pub data TaskState : Type 0 where
  queued leased completed failed : TaskState

pub data CompletionOutcome : Type 0 where
  completed requeued failed : CompletionOutcome

-- The package's error variables, and the two errors that are made in place.
pub data QueueError : Type 0 where
  task_exists task_not_found invalid_worker stale_lease wrong_worker already_completed : QueueError
  task_failed task_id_required : QueueError

pub record TaskSpec : Type 0 where
  pub id : String
  pub job_id : String
  pub key : String
  pub type : String
  pub input : String

pub record Result : Type 0 where
  pub output : String
  pub duration : ℤ
  pub error : String

-- Times are nanoseconds of the coordinator's clock.
pub record Lease : Type 0 where
  pub id : String
  pub task_id : String
  pub worker_id : String
  pub issued_at : ℕ
  pub expires_at : ℕ
  pub attempt : ℕ

pub record Task : Type 0 where
  pub id : String
  pub job_id : String
  pub key : String
  pub type : String
  pub input : String
  pub state : TaskState
  pub attempts : ℕ
  pub worker_id : String
  pub lease : Option Lease
  pub result : Option Result

pub record Assignment : Type 0 where
  pub task : TaskSpec
  pub lease : Lease

pub record Stats : Type 0 where
  pub queued : ℕ
  pub leased : ℕ
  pub completed : ℕ
  pub failed : ℕ
  pub total : ℕ

-- task.State == StateQueued, and so on
abbrev pub is_queued : TaskState → Bool
is_queued TaskState.queued = true
is_queued _ = false

abbrev pub is_leased : TaskState → Bool
is_leased TaskState.leased = true
is_leased _ = false

abbrev pub is_terminal : TaskState → Bool
is_terminal TaskState.completed = true
is_terminal TaskState.failed = true
is_terminal _ = false
