-- ===== src/Worker/Connection.antt =====
-- internal/worker/pull.go: the back-off, and the connection state that all slots share.
pub mod Backoff
use inoculum.Shared.{
  ℕ, ◌+◌, ◌*◌, String, Bool, true, false, not, Option, none, some, List, [], ◌∷◌, ltb,
  if◌then◌else◌, ◌>>=◌, GoMap,
}
use inoculum.Monitor.Model.{Severity, SystemEvent}
use inoculum.Monitor.Worker.{WorkerTracker, connected, unavailable, record_tracked}

abbrev pub default_claim_interval : ℕ
default_claim_interval = 500 * 1000000

abbrev pub default_min_backoff : ℕ
default_min_backoff = 500 * 1000000

abbrev pub default_max_backoff : ℕ
default_max_backoff = 8 * 1000000000

unfoldable pub next_backoff : ℕ → ℕ
next_backoff current =
    if ltb default_max_backoff (current * 2) then default_max_backoff else current * 2

-- connectionState, with the tracker that its changes are reported to
pub record Connection : Type 0 where
  pub ever_connected : Bool
  pub unavailable : Bool
  pub monitor : WorkerTracker

abbrev pub worker_event : Severity → String → String → GoMap String → SystemEvent
worker_event severity kind message fields = record {
  time = none;
  severity = severity;
  component = "worker";
  kind = kind;
  message = message;
  fields = fields;
}

-- w.monitor.Record
unfoldable pub report : ℕ → SystemEvent → Connection → Option Connection
report now event c = do
  monitor ← record_tracked now event c.monitor
  some (record c { monitor = monitor })

unfoldable pub mark_unavailable : ℕ → String → ℕ → ℕ → Connection → Option Connection
mark_unavailable now error attempt delay c =
    let seen : WorkerTracker = record (c.monitor) {
      snapshot = unavailable now (some error) attempt (some (now + delay)) c.monitor.snapshot;
    } in
    let told : Connection = record c { unavailable = true; monitor = seen } in
    let first =
      report now
        (worker_event Severity.warning "coordinator_unavailable" "Coordinator unavailable"
          (("error", error) ∷ []))
        told in
    if c.unavailable then some (record c { monitor = seen }) else first

unfoldable pub mark_connected : ℕ → Connection → Option Connection
mark_connected now c =
    let seen : WorkerTracker = record (c.monitor) { snapshot = connected now c.monitor.snapshot } in
    let told : Connection = record { ever_connected = true; unavailable = false; monitor = seen } in
    let first =
      report now (worker_event Severity.info "connected" "Connected to coordinator" []) told in
    let restored =
      report now
        (worker_event Severity.info "connection_restored" "Coordinator connection restored" [])
        told in
    if not c.ever_connected
    then first
    else if c.unavailable
    then restored
    else some (record c { monitor = seen })
