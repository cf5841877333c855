-- ===== src/Cli/Roles/Examples.antt =====
-- A coordinator and a worker with the options of a small cluster.
use inoculum.Shared.{◌≡◌, refl, none, [], ok}
use inoculum.Shared.Int.{pos}
use inoculum.Crypto.Disk.{Host}
use inoculum.Coordinator.Server.{new_server}
use inoculum.Cli.Submit.{resolve_token}
use inoculum.Cli.Roles.{WorkerOptions, CoordinatorOptions, prepare_coordinator, server_config}
use inoculum.Cli.Roles.Starting.{Starts, prepare_coordinator-Starts}

abbrev cluster : CoordinatorOptions
cluster = record {
  port = pos 8080;
  token = "";
  audit_log = "";
  lease_duration = pos 6000000000;
  max_attempts = pos 3;
}

cluster_passes : prepare_coordinator "secret" cluster ≡ ok (cluster, "secret")
unfolding prepare_coordinator resolve_token
cluster_passes = refl

prepare_coordinator-Starts_example :
    Starts "secret" (new_server 100 (server_config cluster "secret"))
prepare_coordinator-Starts_example =
    prepare_coordinator-Starts "secret" 100 cluster cluster "secret" cluster_passes

abbrev mac : WorkerOptions
mac = record {
  coordinator = "192.168.1.20:8080";
  worker_id = "mac-1";
  concurrency = pos 2;
  token = "secret";
  fingerprint = [];
}

abbrev quiet_host : Host
quiet_host = record {
  dir = λ path. "/config";
  stat = λ path. none;
  read = λ path. none;
  make_all = λ path. none;
  create = λ path. none;
  chmod = λ path. none;
  write = λ path. none;
  sync = λ path. none;
  close = λ path. none;
}
