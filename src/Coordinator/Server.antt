-- ===== src/Coordinator/Server.antt =====
-- internal/coordinator/server.go: the server's state, and what its handlers write of it.
use inoculum.Shared.{
  ℕ, ◌+◌, ◌*◌, String, ◌==◌, Option, none, some, List, [], ◌∷◌, if◌then◌else◌, ◌>>=◌, GoMap, insert,
  Result as Fallible, ok, err,
}
use inoculum.Shared.Int.{ℤ, pos}
use inoculum.Monitor.Model.{Severity, SystemEvent}
use inoculum.Monitor.Recorder.{Recorder, new_recorder, record_event}
use inoculum.LeaseQueue
use inoculum.LeaseQueue.{Queue, ConfigError, new}

abbrev pub default_lease_duration : ℕ
default_lease_duration = 6 * 1000000000

abbrev pub default_max_attempts : ℕ
default_max_attempts = 3

-- Config without the certificate, which only Start hands to crypto/tls.
pub record Config : Type 0 where
  pub port : ℕ
  pub token : String
  pub lease_duration : ℤ
  pub max_attempts : ℤ

pub record Server : Type 0 where
  pub start_time : ℕ
  pub port : ℕ
  pub token : String
  pub pull_queue : Queue
  pub events : Recorder
  pub lease_duration : ℤ
  pub max_attempts : ℤ
  pub worker_activity : GoMap ℕ

abbrev pub server_with : ℕ → Config → Queue → Server
server_with now config pull_queue = record {
  start_time = now;
  port = config.port;
  token = config.token;
  pull_queue = pull_queue;
  events = new_recorder (pos 100);
  lease_duration = config.lease_duration;
  max_attempts = config.max_attempts;
  worker_activity = [];
}

abbrev pub policy : Config → LeaseQueue.Config
policy config = record {
  lease_duration = config.lease_duration;
  max_attempts = config.max_attempts;
}

unfoldable pub new_server : ℕ → Config → Fallible ConfigError Server
new_server now config = elim (new (policy config)) [
  | err e ↦ err e
  | ok pull_queue ↦ ok (server_with now config pull_queue)
]

-- What a handler reads of the clock: for the worker's activity, for the sweep of the queue, for its
-- own call of the queue, and for each event that it records.
pub record Clock : Type 0 where
  pub activity : ℕ
  pub sweep : ℕ
  pub call : ℕ
  pub event : ℕ → ℕ

unfoldable pub record_worker_activity : ℕ → String → Server → Server
record_worker_activity now worker_id s =
    if worker_id == ""
    then s
    else record s { worker_activity = insert worker_id now s.worker_activity }

abbrev pub coordinator_event : Severity → String → String → GoMap String → SystemEvent
coordinator_event severity kind message fields = record {
  time = none;
  severity = severity;
  component = "coordinator";
  kind = kind;
  message = message;
  fields = fields;
}

-- recordEvent
unfoldable pub note : ℕ → SystemEvent → Server → Option Server
note now event s = do events ← record_event now event s.events; some (record s { events = events })

-- logExpiredLease
abbrev pub expired_event : String → SystemEvent
expired_event task_id =
    coordinator_event Severity.warning "lease_expired" "Task lease expired; applying retry policy"
      (("task_id", task_id) ∷ [])

-- The loop over what RequeueExpired returns. `k` counts the events of the request.
unfoldable pub log_expired : Clock → ℕ → List String → Server → Option Server
log_expired clock k [] s = some s
log_expired clock k (id ∷ ids) s = do
  s' ← note (clock.event k) (expired_event id) s
  log_expired clock (k + 1) ids s'
