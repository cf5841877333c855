-- ===== src/Worker/Config.antt =====
-- internal/worker/pull.go: what NewPullWorker accepts. The HTTP client is not modelled.
use inoculum.Shared.{String, false, ◌==◌, if◌then◌else◌, Result as Fallible, ok, err}
use inoculum.Shared.Int.{ℤ, pos, pos_part, leb_ℤ}
use inoculum.Types.Validation.{ValidationError, validate_worker_id}
use inoculum.Crypto.Fingerprint.{Runes}
use inoculum.Crypto.Disk.{Disk, Host}
use inoculum.Crypto.Trust.{TrustError, TrustVerifier, new_coordinator_client_config}
use inoculum.Monitor.Worker.{new_worker_tracker}
use inoculum.Worker.Connection.{Connection}

pub record PullConfig : Type 0 where
  pub coordinator_addr : String
  pub worker_id : String
  pub token : String
  pub fingerprint : Runes
  pub trust_file : String
  pub concurrency : ℤ

pub data PullConfigError : Type 0 where
  no_coordinator no_token bad_concurrency : PullConfigError
  bad_worker_id : ValidationError → PullConfigError
  no_paths : String → PullConfigError
  untrusted : TrustError → PullConfigError

pub record PullWorker : Type 0 where
  pub config : PullConfig
  pub verifier : TrustVerifier
  pub connection : Connection

abbrev pub worker_with : PullConfig → TrustVerifier → PullWorker
worker_with config verifier = record {
  config = config;
  verifier = verifier;
  connection = record {
    ever_connected = false;
    unavailable = false;
    monitor =
        new_worker_tracker config.worker_id config.coordinator_addr (pos_part config.concurrency);
  };
}

-- The trust file: that of the configuration, or else that of appconfig.DefaultPaths.
abbrev pub trust_path : String → Fallible String String → Fallible PullConfigError String
trust_path named paths =
    if named == "" then (elim paths [ err e ↦ err (no_paths e) | ok path ↦ ok path ]) else ok named

abbrev pub trusting :
    PullConfig → Fallible TrustError TrustVerifier → Fallible PullConfigError PullWorker
trusting config (err e) = err (untrusted e)
trusting config (ok verifier) = ok (worker_with config verifier)

abbrev pub connecting :
    Host → Disk → PullConfig → Fallible PullConfigError String → Fallible PullConfigError PullWorker
connecting host d config (err e) = err e
connecting host d config (ok path) =
    trusting config (new_coordinator_client_config host path config.fingerprint d)

-- NewPullWorker, given what DefaultPaths returns for the trust record.
unfoldable pub new_pull_worker :
    Host → Fallible String String → Disk → PullConfig → Fallible PullConfigError PullWorker
new_pull_worker host paths d config =
    let made = connecting host d config (trust_path config.trust_file paths) in
    if config.coordinator_addr == ""
    then err no_coordinator
    else elim (validate_worker_id config.worker_id) [
      | err e ↦ err (bad_worker_id e)
      | ok _ ↦
          if config.token == ""
          then err no_token
          else if leb_ℤ config.concurrency (pos 0)
          then err bad_concurrency
          else made
    ]
