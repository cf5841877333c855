-- ===== src/Presentation/Layout/Examples.antt =====
-- internal/presentation/layout_test.go: the three frames in a small terminal.
use inoculum.Shared.{true, false, none, some, [], ◌∷◌}
use inoculum.Shared.Int.{pos}
use inoculum.Monitor.Model.{
  ConnectionState, CoordinatorSnapshot, WorkerSnapshot, SubmitSnapshot, JobProgress,
}
use inoculum.Presentation.Mode.{Capabilities}
use inoculum.Presentation.Layout.{layout_width}
use inoculum.Presentation.Layout.Coordinator.{coordinator_frame}
use inoculum.Presentation.Layout.Worker.{worker_frame}
use inoculum.Presentation.Layout.Submit.{submit_frame}
use inoculum.Presentation.Layout.Fitting.{FitsIn, frames-FitsIn}

abbrev running_job : JobProgress
running_job = record {
  job_id = "pull-job-1764000000000000000";
  state = "running";
  total = 2;
  queued = 1;
  running = 1;
  completed = 0;
  failed = 0;
  started_at = some 100;
  elapsed = pos 61000000000;
  tasks = [];
  workers = [];
}

abbrev overview : CoordinatorSnapshot
overview = record {
  observed_at = 5000000000;
  online = true;
  addresses = "192.168.1.20:8080" ∷ [];
  fingerprint = "SHA256:AB:CD";
  uptime = pos 5000000000;
  tasks = record { queued = 1; running = 1; completed = 0; failed = 0; total = 2 };
  jobs = 1;
  workers = record { worker_id = "lab\nmac"; last_activity = 100; active = 1 } ∷ [];
  current_job = some running_job;
  events = [];
}

abbrev refused_worker : WorkerSnapshot
refused_worker = record {
  observed_at = none;
  worker_id = "lab-mac";
  coordinator = "192.168.1.20:8080";
  connection = ConnectionState.auth_failed;
  connected_at = none;
  unavailable_since = some 100;
  last_error = "HTTP 401";
  retry_attempt = 2;
  retry_at = some 1000000100;
  concurrency = 1;
  active_tasks = [];
  completed = 0;
  failed = 0;
  events = [];
}

abbrev waiting_client : SubmitSnapshot
waiting_client = record {
  observed_at = some 5000000000;
  submitted = true;
  done = false;
  timed_out = false;
  job = running_job;
  error = "";
}

abbrev ascii : Capabilities
ascii = record { interactive = true; verbose = true; color = false; unicode = false }

frames-FitsIn_example :
    FitsIn (layout_width (pos 24)) (pos 6) (coordinator_frame overview (pos 24) (pos 6) ascii)
    × FitsIn
        (layout_width (pos 24))
        (pos 6)
        (worker_frame 200 refused_worker (pos 24) (pos 6) ascii)
    × FitsIn (layout_width (pos 24)) (pos 6) (submit_frame waiting_client (pos 24) (pos 6) ascii)
frames-FitsIn_example =
    frames-FitsIn overview refused_worker waiting_client 200 (pos 24) (pos 6) ascii
