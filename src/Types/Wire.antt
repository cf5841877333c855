-- ===== src/Types/Wire.antt =====
-- internal/types/types.go: the requests and responses of the pull protocol.
use inoculum.Shared.{ℕ, String, List, Option}
use inoculum.Shared.Int.{ℤ}

pub record Result : Type 0 where
  pub task_id : String
  pub output : String
  pub duration : ℤ
  pub duration_str : String
  pub error : String

pub data PullStatus : Type 0 where
  task_available no_task lease_renewed task_completed task_requeued task_failed : PullStatus
  stale_lease rejected : PullStatus

pub record PullTask : Type 0 where
  pub task_id : String
  pub job_id : String
  pub type : String
  pub input : String
  pub lease_id : String
  pub attempt : ℕ
  pub lease_expires_at : ℕ

pub record PullClaimRequest : Type 0 where
  pub worker_id : String

pub record PullRenewRequest : Type 0 where
  pub worker_id : String
  pub task_id : String
  pub lease_id : String

pub record PullResultRequest : Type 0 where
  pub worker_id : String
  pub task_id : String
  pub lease_id : String
  pub result : Result

pub record PullSubmitTask : Type 0 where
  pub key : String
  pub input : String

pub record PullSubmitRequest : Type 0 where
  pub task_type : String
  pub inputs : List String
  pub tasks : List PullSubmitTask

pub record PullSubmitResponse : Type 0 where
  pub job_id : String
  pub task_ids : List String

pub data PullJobState : Type 0 where
  queued running completed failed : PullJobState

pub record PullJobTask : Type 0 where
  pub task_id : String
  pub key : String
  pub state : String
  pub attempts : ℕ
  pub worker_id : String
  pub result : Option Result

pub record PullJobResponse : Type 0 where
  pub job_id : String
  pub state : PullJobState
  pub tasks : List PullJobTask

pub record PullWorkerStatus : Type 0 where
  pub worker_id : String
  pub last_activity : ℕ
  pub active_leases : ℕ

pub record CoordinatorStatusResponse : Type 0 where
  pub queued_tasks : ℕ
  pub leased_tasks : ℕ
  pub completed_tasks : ℕ
  pub failed_tasks : ℕ
  pub total_tasks : ℕ
  pub total_jobs : ℕ
  pub recent_workers : List PullWorkerStatus
  pub uptime : String

pub record HttpProbeOutput : Type 0 where
  pub status_code : ℕ
  pub final_url : String
  pub elapsed_milliseconds : ℕ
  pub declared_content_length : Option ℕ
  pub tls_certificate_expiry : String
  pub error_category : String
  pub error_message : String
