-- ===== src/Cli/Roles.antt =====
-- internal/cli/worker.go and coordinator.go: the checks of the two long-running commands, and what
-- they start.
pub mod Starting
pub mod Examples
use inoculum.Shared.{
  ℕ, String, ◌==◌, ◌||◌, ◌+◌, ◌*◌, Bool, Option, none, some, if◌then◌else◌, Result as Fallible, ok,
  err,
}
use inoculum.Shared.Int.{ℤ, pos, pos_part, leb_ℤ, ltb_ℤ}
use inoculum.Text.{append}
use inoculum.Types.Validation.{ValidationError, validate_worker_id}
use inoculum.Crypto.Fingerprint.{Runes}
use inoculum.Crypto.Disk.{Disk, Host}
use inoculum.Coordinator.Server.{Config}
use inoculum.Worker.Config.{PullConfig, PullConfigError, PullWorker, new_pull_worker}
use inoculum.Cli.Submit.{SubmitError, resolve_token}

-- The usage errors.
pub data RoleError : Type 0 where
  coordinator_required concurrency_not_positive no_token : RoleError
  bad_port bad_lease_duration bad_max_attempts : RoleError
  bad_worker_id : ValidationError → RoleError

-- workerOptions, less the flags of the presentation
pub record WorkerOptions : Type 0 where
  pub coordinator : String
  pub worker_id : String
  pub concurrency : ℤ
  pub token : String
  pub fingerprint : Runes

abbrev pub with_token :
    {A : Type 0} → A → Fallible SubmitError String → Fallible RoleError (A × String)
with_token o (err e) = err no_token
with_token o (ok token) = ok (o, token)

abbrev pub unless_bad_id :
    {A : Type 0} → Fallible ValidationError (Unit {0}) → Fallible RoleError A → Fallible RoleError A
unless_bad_id (err e) rest = err (bad_worker_id e)
unless_bad_id (ok _) rest = rest

-- RunWorker up to runWorker; `environment` is INOCULUM_TOKEN, or "" where it is not set.
pub prepare_worker : String → WorkerOptions → Fallible RoleError (WorkerOptions × String)
prepare_worker environment o =
    if o.coordinator == ""
    then err coordinator_required
    else if leb_ℤ o.concurrency (pos 0)
    then err concurrency_not_positive
    else if o.worker_id == ""
    then with_token o (resolve_token o.token environment)
    else unless_bad_id (validate_worker_id o.worker_id)
        (with_token o (resolve_token o.token environment))

-- The id of a worker without --id is made of the host's name.
abbrev pub worker_id_of : String → String → String
worker_id_of hostname id = if id == "" then append "worker-" hostname else id

-- The configuration that runWorker passes to NewPullWorker.
abbrev pub pull_config : String → WorkerOptions → String → PullConfig
pull_config hostname o token = record {
  coordinator_addr = o.coordinator;
  worker_id = worker_id_of hostname o.worker_id;
  token = token;
  fingerprint = o.fingerprint;
  trust_file = "";
  concurrency = o.concurrency;
}

-- coordinatorOptions, less the flags of the presentation
pub record CoordinatorOptions : Type 0 where
  pub port : ℤ
  pub token : String
  pub audit_log : String
  pub lease_duration : ℤ
  pub max_attempts : ℤ

-- RunCoordinator up to runCoordinator
pub prepare_coordinator :
    String → CoordinatorOptions → Fallible RoleError (CoordinatorOptions × String)
prepare_coordinator environment o =
    if ltb_ℤ o.port (pos 1) || ltb_ℤ (pos 65535) o.port
    then err bad_port
    else if leb_ℤ o.lease_duration (pos 0)
    then err bad_lease_duration
    else if ltb_ℤ o.max_attempts (pos 1)
    then err bad_max_attempts
    else with_token o (resolve_token o.token environment)

-- The configuration that runCoordinator passes to NewServer.
abbrev pub server_config : CoordinatorOptions → String → Config
server_config o token = record {
  port = pos_part o.port;
  token = token;
  lease_duration = o.lease_duration;
  max_attempts = o.max_attempts;
}
