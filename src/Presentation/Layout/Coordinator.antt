-- ===== src/Presentation/Layout/Coordinator.antt =====
-- internal/presentation/layout.go: CoordinatorFrame.
use inoculum.Shared.{
  ℕ, ◌+◌, ◌-◌, ◌*◌, String, ◌==◌, Bool, ◌&&◌, ◌||◌, not, Option, none, some, List, [], ◌∷◌, ◌++◌,
  map, length, ltb, leb, eqb, if◌then◌else◌,
}
use inoculum.Shared.Int.{ℤ, pos, pos_part, ltb_ℤ, sub_ℕ}
use inoculum.Text.{append}
use inoculum.Text.Decimal.{decimal}
use inoculum.Monitor.Model.{
  TaskCounts, TaskProgress, WorkerSummary, JobProgress, CoordinatorSnapshot,
}
use inoculum.Presentation.Format.{wrap}
use inoculum.Presentation.Labels.{compact_duration, short_id, pad_between, seen_ago}
use inoculum.Presentation.Frame.{Tone, Span, Frame}
use inoculum.Presentation.Mode.{Capabilities}
use inoculum.Presentation.Layout.{
  sprint, padded, at_least, layout_width, row, labelled, span, blank_row, draw, empty_frame,
  with_footer, keys_help, status_symbol, success_word, failure_word, bar_row, active_and_recent,
}

-- strings.Join(addresses, ", ")
abbrev pub joined : List String → String
joined [] = ""
joined (a ∷ []) = a
joined (a ∷ b ∷ rest) = append a (append ", " (joined (b ∷ rest)))

abbrev address_text : List String → String
address_text [] = "listening"
address_text (a ∷ rest) = joined (a ∷ rest)

abbrev fingerprint_line : String → List Span
fingerprint_line line = row Tone.muted (append "  " line)

abbrev fingerprint_rows : ℕ → Bool → CoordinatorSnapshot → List (List Span)
fingerprint_rows width verbose snapshot =
    if not (snapshot.fingerprint == "") && (verbose || eqb (length snapshot.workers) 0)
    then row Tone.muted "Fingerprint   "
      ∷ map fingerprint_line (wrap snapshot.fingerprint (pos (at_least 12 (width - 2))))
    else []

abbrev count_rows : ℕ → TaskCounts → List (List Span)
count_rows width tasks =
    if ltb width 58
    then row Tone.normal (
        sprint (
          "Tasks  " ∷ decimal tasks.queued ∷ " queued  " ∷ decimal tasks.running ∷ " running" ∷ []))
      ∷ row Tone.normal (
          sprint (
            "       "
            ∷ decimal tasks.completed
            ∷ " done    "
            ∷ decimal tasks.failed
            ∷ " failed"
            ∷ []))
      ∷ []
    else row Tone.heading "TASKS"
      ∷ row Tone.normal (
          sprint (
            "Queued  "
            ∷ padded 6 (decimal tasks.queued)
            ∷ " Running  "
            ∷ padded 6 (decimal tasks.running)
            ∷ " Completed  "
            ∷ padded 6 (decimal tasks.completed)
            ∷ " Failed  "
            ∷ decimal tasks.failed
            ∷ []))
      ∷ []

-- A worker is not responding where it was last seen more than three seconds ago.
abbrev is_silent : ℕ → WorkerSummary → Bool
is_silent now worker = ltb_ℤ (pos (3 * 1000000000)) (sub_ℕ now worker.last_activity)

abbrev worker_state : Bool → ℕ → String
worker_state silent active =
    if silent
    then "not responding"
    else if ltb 0 active
    then sprint ("running  " ∷ decimal active ∷ " active" ∷ [])
    else "idle"

abbrev worker_row : ℕ → ℕ → Capabilities → WorkerSummary → List Span
worker_row width now caps worker =
    let state = worker_state (is_silent now worker) worker.active in
    let tone = if is_silent now worker then Tone.waiting else Tone.healthy in
    let named : ℕ → String = λ n.
      sprint (status_symbol caps ∷ " " ∷ short_id worker.worker_id (pos n) caps.unicode ∷ []) in
    let seen =
      sprint (padded 20 state ∷ " seen " ∷ seen_ago now (some worker.last_activity) ∷ []) in
    if ltb width 58
    then span tone (append (named 18) "  ") ∷ row Tone.normal state
    else row tone (pad_between (named 24) seen (pos width))

abbrev worker_rows : ℕ → ℕ → Capabilities → List WorkerSummary → List (List Span)
worker_rows width now caps [] =
    row Tone.waiting "No workers connected."
    ∷ (if leb 48 width
        then row Tone.normal "Start one with: inoculum worker --coordinator <address>" ∷ []
        else [])
worker_rows width now caps (worker ∷ workers) = map (worker_row width now caps) (worker ∷ workers)

abbrev task_row : Capabilities → TaskProgress → List Span
task_row caps task =
    let text : String → String = λ state. sprint (
      padded 18 (short_id task.worker_id (pos 16) caps.unicode)
      ∷ " "
      ∷ padded 18 (short_id task.task_id (pos 16) caps.unicode)
      ∷ " "
      ∷ padded 10 state
      ∷ " "
      ∷ compact_duration task.duration
      ∷ []) in
    if task.state == "completed"
    then row Tone.healthy (text (success_word caps))
    else if task.state == "failed"
    then row Tone.failure (text (failure_word caps))
    else row Tone.normal (text task.state)

abbrev job_heading : ℕ → Capabilities → JobProgress → List (List Span)
job_heading width caps job =
    blank_row
    ∷ row Tone.heading
        (pad_between "CURRENT JOB" (short_id job.job_id (pos 20) caps.unicode) (pos width))
    ∷ bar_row width caps.unicode (job.completed + job.failed) job.total
    ∷ []

-- The tasks of the job, as many as the height leaves room for.
abbrev pub draw_tasks : ℕ → ℤ → Capabilities → List TaskProgress → Frame → Frame
draw_tasks width height caps tasks f =
    let room = at_least 1 (pos_part height - length f.lines - 2) in
    draw width (map (task_row caps) (active_and_recent tasks room)) f

abbrev pub draw_job : ℕ → ℤ → Capabilities → ℕ → Option JobProgress → Frame → Frame
draw_job width height caps total (some job) f =
    draw_tasks width height caps job.tasks (draw width (job_heading width caps job) f)
draw_job width height caps total none f =
    if eqb total 0 then draw width (blank_row ∷ row Tone.muted "No jobs yet." ∷ []) f else f

unfoldable pub coordinator_frame : CoordinatorSnapshot → ℤ → ℤ → Capabilities → Frame
coordinator_frame snapshot width height caps =
    let w = layout_width width in
    let online = append "ONLINE " (status_symbol caps) in
    let above =
      draw w
        (row Tone.heading (pad_between "INOCULUM" online (pos w))
            ∷ blank_row
            ∷ labelled "Coordinator   " (address_text snapshot.addresses)
            ∷ labelled "Uptime        " (compact_duration snapshot.uptime)
            ∷ fingerprint_rows w caps.verbose snapshot
          ++ blank_row ∷ count_rows w snapshot.tasks
          ++ blank_row
            ∷ row Tone.heading "WORKERS"
            ∷ worker_rows w snapshot.observed_at caps snapshot.workers)
        empty_frame in
    with_footer w height keys_help
      (draw_job w height caps snapshot.tasks.total snapshot.current_job above)
