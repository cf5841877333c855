-- ===== src/Monitor/Worker.antt =====
-- internal/monitor/worker.go: what a worker shows of itself. Each method holds the tracker's mutex.
pub mod History
pub mod Examples
use inoculum.Shared.{
  ℕ, ◌+◌, String, ◌==◌, Bool, true, false, ◌||◌, not, Option, none, some, List, [], ◌∷◌, ◌++◌,
  if◌then◌else◌, ◌>>=◌,
}
use inoculum.Shared.Int.{pos}
use inoculum.Shared.Sorting.{sort_by}
use inoculum.Text.Search.{contains_lower}
use inoculum.Monitor.Model.{ConnectionState, TaskProgress, WorkerSnapshot, SystemEvent}
use inoculum.Monitor.Recorder
use inoculum.Monitor.Recorder.{Recorder, new_recorder, record_event, default_event_limit}

pub record WorkerTracker : Type 0 where
  pub snapshot : WorkerSnapshot
  pub events : Recorder

unfoldable pub new_worker_tracker : String → String → ℕ → WorkerTracker
new_worker_tracker worker_id coordinator concurrency = record {
  snapshot = record {
    observed_at = none;
    worker_id = worker_id;
    coordinator = coordinator;
    connection = ConnectionState.starting;
    connected_at = none;
    unavailable_since = none;
    last_error = "";
    retry_attempt = 0;
    retry_at = none;
    concurrency = concurrency;
    active_tasks = [];
    completed = 0;
    failed = 0;
    events = [];
  };
  events = new_recorder (pos default_event_limit);
}

abbrev pub is_connected : ConnectionState → Bool
is_connected ConnectionState.connected = true
is_connected _ = false

unfoldable pub connected : ℕ → WorkerSnapshot → WorkerSnapshot
connected now s = record s {
  connected_at = if is_connected s.connection then s.connected_at else some now;
  connection = ConnectionState.connected;
  unavailable_since = none;
  last_error = "";
  retry_attempt = 0;
  retry_at = none;
}

-- The switch on the error's text.
pub classify : Option String → ConnectionState
classify none = ConnectionState.unavailable
classify (some e) =
    if contains_lower e "authentication rejected" || contains_lower e "http 401"
    then ConnectionState.auth_failed
    else if contains_lower e "no coordinator identity is trusted"
    then ConnectionState.untrusted
    else if contains_lower e "fingerprint mismatch"
        || contains_lower e "certificate changed"
        || contains_lower e "coordinator identity mismatch"
    then ConnectionState.identity
    else ConnectionState.unavailable

-- ==, on connection states
abbrev pub same_state : ConnectionState → ConnectionState → Bool
same_state ConnectionState.starting ConnectionState.starting = true
same_state ConnectionState.connected ConnectionState.connected = true
same_state ConnectionState.unavailable ConnectionState.unavailable = true
same_state ConnectionState.auth_failed ConnectionState.auth_failed = true
same_state ConnectionState.untrusted ConnectionState.untrusted = true
same_state ConnectionState.identity ConnectionState.identity = true
same_state ConnectionState.stopping ConnectionState.stopping = true
same_state _ _ = false

unfoldable pub unavailable : ℕ → Option String → ℕ → Option ℕ → WorkerSnapshot → WorkerSnapshot
unavailable now error attempt retry_at s =
    let state = classify error in
    record s {
      unavailable_since = if same_state s.connection state then s.unavailable_since else some now;
      connection = state;
      last_error = elim error [ none ↦ s.last_error | some e ↦ e ];
      retry_attempt = attempt;
      retry_at = retry_at;
    }

pub stopping : WorkerSnapshot → WorkerSnapshot
stopping s = record s { connection = ConnectionState.stopping }

-- The loop of TaskStarted, and the append behind it.
unfoldable pub put_task : TaskProgress → List TaskProgress → List TaskProgress
put_task task [] = task ∷ []
put_task task (t ∷ ts) =
    let rest = put_task task ts in if t.task_id == task.task_id then task ∷ ts else t ∷ rest

unfoldable pub task_started : TaskProgress → WorkerSnapshot → WorkerSnapshot
task_started task s = record s { active_tasks = put_task task s.active_tasks }

-- The loop of TaskFinished, which ends at its first hit.
unfoldable pub drop_task : String → List TaskProgress → List TaskProgress
drop_task task_id [] = []
drop_task task_id (t ∷ ts) =
    let rest = drop_task task_id ts in if t.task_id == task_id then ts else t ∷ rest

unfoldable pub task_finished : String → Bool → Bool → WorkerSnapshot → WorkerSnapshot
task_finished task_id completed failed s = record s {
  active_tasks = drop_task task_id s.active_tasks;
  completed = if completed then s.completed + 1 else s.completed;
  failed = if failed then s.failed + 1 else s.failed;
}

unfoldable pub record_tracked : ℕ → SystemEvent → WorkerTracker → Option WorkerTracker
record_tracked now event t = do
  events ← record_event now event t.events
  some (record t { events = events })

unfoldable pub snapshot : ℕ → WorkerTracker → WorkerSnapshot
snapshot now t = record (t.snapshot) {
  observed_at = some now;
  active_tasks = sort_by (λ task. task.task_id) t.snapshot.active_tasks;
  events = Recorder.snapshot t.events;
}
