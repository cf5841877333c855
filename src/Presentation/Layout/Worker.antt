-- ===== src/Presentation/Layout/Worker.antt =====
-- internal/presentation/layout.go: WorkerFrame.
use inoculum.Shared.{
  ℕ, String, ◌==◌, Bool, true, false, ◌&&◌, not, Option, none, some, List, [], ◌∷◌, ◌++◌, map,
  length, if◌then◌else◌,
}
use inoculum.Shared.Int.{ℤ, pos, sub_ℕ}
use inoculum.Text.Decimal.{decimal}
use inoculum.Monitor.Model.{ConnectionState, TaskProgress, WorkerSnapshot}
use inoculum.Presentation.Labels.{compact_duration, short_id, pad_between}
use inoculum.Presentation.Frame.{Tone, Span, Frame}
use inoculum.Presentation.Mode.{Capabilities}
use inoculum.Presentation.Layout.{
  sprint, padded, layout_width, row, labelled, blank_row, draw, empty_frame, with_footer, keys_help,
  worker_connection,
}

-- now.Sub(t), where none is the zero time, from which the difference is the longest duration.
abbrev pub since : ℕ → Option ℕ → ℤ
since now none = pos 9223372036854775807
since now (some t) = sub_ℕ now t

abbrev identity_rows : WorkerSnapshot → String × String × Tone → ℕ → List (List Span)
identity_rows snapshot (label, symbol, tone) width =
    row Tone.heading
      (pad_between "INOCULUM WORKER" (sprint (label ∷ " " ∷ symbol ∷ [])) (pos width))
    ∷ blank_row
    ∷ labelled "Worker        " snapshot.worker_id
    ∷ labelled "Coordinator   " snapshot.coordinator
    ∷ labelled "Concurrency   " (decimal snapshot.concurrency)
    ∷ blank_row
    ∷ row Tone.heading "EXECUTION"
    ∷ row Tone.normal (
        sprint (
          "Active  "
          ∷ decimal (length snapshot.active_tasks)
          ∷ " / "
          ∷ decimal snapshot.concurrency
          ∷ "    Completed  "
          ∷ decimal snapshot.completed
          ∷ "    Failed  "
          ∷ decimal snapshot.failed
          ∷ []))
    ∷ []

-- What is wrong with the connection; no rows where nothing is.
abbrev trouble_rows : ConnectionState → List (List Span)
trouble_rows ConnectionState.auth_failed =
    row Tone.failure "Authentication failed."
    ∷ row Tone.normal "The coordinator rejected the token."
    ∷ row Tone.normal "Check INOCULUM_TOKEN or -token."
    ∷ []
trouble_rows ConnectionState.untrusted =
    row Tone.failure "No coordinator identity is trusted yet."
    ∷ row Tone.normal "Copy the coordinator fingerprint and reconnect with:"
    ∷ row Tone.normal "--coordinator-fingerprint <fingerprint>"
    ∷ []
trouble_rows ConnectionState.identity =
    row Tone.failure "The coordinator identity does not match the trusted fingerprint."
    ∷ row Tone.normal "Connection refused. The stored trust was not bypassed."
    ∷ []
trouble_rows ConnectionState.unavailable = row Tone.waiting "Coordinator unavailable." ∷ []
trouble_rows _ = []

abbrev disconnected_rows : ℕ → Option ℕ → List (List Span)
disconnected_rows now none = []
disconnected_rows now (some t) = labelled "Disconnected  " (compact_duration (sub_ℕ now t)) ∷ []

abbrev retry_rows : ℕ → ℕ → Option ℕ → List (List Span)
retry_rows now attempt none = []
retry_rows now attempt (some at) =
    row Tone.waiting (
      sprint (
        "Retrying in "
        ∷ compact_duration (sub_ℕ at now)
        ∷ " (attempt "
        ∷ decimal attempt
        ∷ ")"
        ∷ []))
    ∷ []

abbrev detail_rows : Bool → String → List (List Span)
detail_rows verbose last_error =
    if verbose && not (last_error == "") then labelled "Detail        " last_error ∷ [] else []

abbrev in_trouble : ConnectionState → Bool
in_trouble ConnectionState.unavailable = true
in_trouble ConnectionState.auth_failed = true
in_trouble ConnectionState.untrusted = true
in_trouble ConnectionState.identity = true
in_trouble _ = false

abbrev connection_rows : ℕ → Bool → WorkerSnapshot → List (List Span)
connection_rows now verbose snapshot =
    if in_trouble snapshot.connection
    then blank_row ∷ trouble_rows snapshot.connection
      ++ disconnected_rows now snapshot.unavailable_since
      ++ retry_rows now snapshot.retry_attempt snapshot.retry_at
      ++ detail_rows verbose snapshot.last_error
    else []

abbrev idle_text : ConnectionState → String
idle_text ConnectionState.connected = "Connected and waiting for work."
idle_text _ = "No active tasks."

abbrev active_row : ℕ → Bool → TaskProgress → List Span
active_row now unicode task = row Tone.normal (
    sprint (
      padded 22 (short_id task.task_id (pos 20) unicode)
      ∷ " running  "
      ∷ compact_duration (since now task.started_at)
      ∷ []))

abbrev active_rows : ℕ → Bool → ConnectionState → List TaskProgress → List (List Span)
active_rows now unicode connection [] = row Tone.muted (idle_text connection) ∷ []
active_rows now unicode connection (task ∷ tasks) = map (active_row now unicode) (task ∷ tasks)

-- `clock` is what time.Now gives.
unfoldable pub worker_frame : ℕ → WorkerSnapshot → ℤ → ℤ → Capabilities → Frame
worker_frame clock snapshot width height caps =
    let w = layout_width width in
    let now : ℕ = elim snapshot.observed_at [ none ↦ clock | some t ↦ t ] in
    with_footer w height keys_help (
      draw w
        (identity_rows snapshot (worker_connection snapshot.connection caps) w
          ++ connection_rows now caps.verbose snapshot
          ++ blank_row
            ∷ row Tone.heading "ACTIVE TASKS"
            ∷ active_rows now caps.unicode snapshot.connection snapshot.active_tasks)
        empty_frame)
