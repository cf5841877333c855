-- ===== src/Monitor/Model.antt =====
-- internal/monitor/model.go: the values that the runtime packages report. A time is in nanoseconds
-- of the clock, and `none` is the zero time.Time.
use inoculum.Shared.{ℕ, String, Bool, Option, List, GoMap}
use inoculum.Shared.Int.{ℤ}

pub data ConnectionState : Type 0 where
  starting connected unavailable auth_failed untrusted identity stopping : ConnectionState

pub record TaskCounts : Type 0 where
  pub queued : ℕ
  pub running : ℕ
  pub completed : ℕ
  pub failed : ℕ
  pub total : ℕ

pub record TaskProgress : Type 0 where
  pub task_id : String
  pub key : String
  pub state : String
  pub worker_id : String
  pub attempt : ℕ
  pub started_at : Option ℕ
  pub duration : ℤ
  pub output : String
  pub error : String

pub record WorkerSummary : Type 0 where
  pub worker_id : String
  pub last_activity : ℕ
  pub active : ℕ

pub record WorkerContribution : Type 0 where
  pub worker_id : String
  pub active : ℕ
  pub completed : ℕ
  pub failed : ℕ

pub record JobProgress : Type 0 where
  pub job_id : String
  pub state : String
  pub total : ℕ
  pub queued : ℕ
  pub running : ℕ
  pub completed : ℕ
  pub failed : ℕ
  pub started_at : Option ℕ
  pub elapsed : ℤ
  pub tasks : List TaskProgress
  pub workers : List WorkerContribution

pub data Severity : Type 0 where
  info warning error : Severity

pub record SystemEvent : Type 0 where
  pub time : Option ℕ
  pub severity : Severity
  pub component : String
  pub kind : String
  pub message : String
  pub fields : GoMap String

pub record CoordinatorSnapshot : Type 0 where
  pub observed_at : ℕ
  pub online : Bool
  pub addresses : List String
  pub fingerprint : String
  pub uptime : ℤ
  pub tasks : TaskCounts
  pub jobs : ℕ
  pub workers : List WorkerSummary
  pub current_job : Option JobProgress
  pub events : List SystemEvent

pub record WorkerSnapshot : Type 0 where
  pub observed_at : Option ℕ
  pub worker_id : String
  pub coordinator : String
  pub connection : ConnectionState
  pub connected_at : Option ℕ
  pub unavailable_since : Option ℕ
  pub last_error : String
  pub retry_attempt : ℕ
  pub retry_at : Option ℕ
  pub concurrency : ℕ
  pub active_tasks : List TaskProgress
  pub completed : ℕ
  pub failed : ℕ
  pub events : List SystemEvent

pub record SubmitSnapshot : Type 0 where
  pub observed_at : Option ℕ
  pub submitted : Bool
  pub done : Bool
  pub timed_out : Bool
  pub job : JobProgress
  pub error : String
