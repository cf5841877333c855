-- ===== src/Presentation/Layout/Submit.antt =====
-- internal/presentation/layout.go: SubmitFrame.
use Prim.Native.Char.{Char, code}
use Prim.Native.String.{[] as empty_text, ◌∷◌ as char_then}
use inoculum.Shared.{
  ℕ, zero, suc, ◌+◌, ◌-◌, String, Bool, ◌&&◌, List, [], ◌∷◌, ◌++◌, map, not, ◌≡◌, refl, ltb, leb,
  length, if◌then◌else◌,
}
use inoculum.Shared.Int.{ℤ, pos}
use inoculum.Text.Decimal.{decimal}
use inoculum.Monitor.Model.{JobProgress, SubmitSnapshot, WorkerContribution}
use inoculum.Presentation.Labels.{compact_duration, short_id}
use inoculum.Presentation.Frame.{Tone, Span, Frame, fit_height}
use inoculum.Presentation.Mode.{Capabilities}
use inoculum.Presentation.Layout.{
  sprint, padded, at_least, layout_width, row, labelled, blank_row, draw, empty_frame, with_footer,
  failure_tone, bar_row,
}

-- The character at a place of a text, or `c` where there is none.
letter_at : ℕ → Char → String → Char
letter_at n c empty_text = c
letter_at zero c (char_then d s) = d
letter_at (suc n) c (char_then d s) = letter_at n c s

-- The upper case of a to z.
upper : Char → Char
upper c =
    if leb b'a' (code c) && leb (code c) b'z'
    then letter_at (code c - b'a') c "ABCDEFGHIJKLMNOPQRSTUVWXYZ"
    else c

-- titleState
pub title_state : String → String
title_state empty_text = "Unknown"
title_state (char_then c s) = char_then (upper c) s

running_title : title_state "running" ≡ "Running"
unfolding title_state upper letter_at
running_title = refl

-- The rows above the list of the workers.
abbrev job_rows : ℕ → Bool → JobProgress → List (List Span)
job_rows width unicode job =
    labelled "Job        " (short_id job.job_id (pos (at_least 8 (width - 11))) unicode)
    ∷ labelled "State      " (title_state job.state)
    ∷ labelled "Elapsed    " (compact_duration job.elapsed)
    ∷ blank_row
    ∷ bar_row width unicode (job.completed + job.failed) job.total
    ∷ blank_row
    ∷ row Tone.normal (sprint ("Queued     " ∷ decimal job.queued ∷ []))
    ∷ row Tone.normal (sprint ("Running    " ∷ decimal job.running ∷ []))
    ∷ row Tone.healthy (sprint ("Completed  " ∷ decimal job.completed ∷ []))
    ∷ row (failure_tone job.failed) (sprint ("Failed     " ∷ decimal job.failed ∷ []))
    ∷ []

abbrev contribution_row : Bool → WorkerContribution → List Span
contribution_row unicode worker = row Tone.normal (
    sprint (
      padded 22 (short_id worker.worker_id (pos 20) unicode)
      ∷ " "
      ∷ decimal worker.completed
      ∷ " completed  "
      ∷ decimal worker.active
      ∷ " active"
      ∷ []))

abbrev contribution_rows : ℕ → Bool → JobProgress → List (List Span)
contribution_rows width unicode job =
    if ltb 0 (length job.workers) && leb 44 width
    then blank_row ∷ row Tone.heading "WORKERS" ∷ map (contribution_row unicode) job.workers
    else []

abbrev heading_rows : List (List Span)
heading_rows = row Tone.heading "INOCULUM SUBMIT" ∷ blank_row ∷ []

unfoldable pub submit_frame : SubmitSnapshot → ℤ → ℤ → Capabilities → Frame
submit_frame snapshot width height caps =
    let w = layout_width width in
    if not snapshot.submitted
    then fit_height height []
        (draw w (heading_rows ++ row Tone.waiting "Submitting tasks..." ∷ []) empty_frame)
    else with_footer w height "Ctrl+C stops waiting; the coordinator job continues." (
        draw w
          (heading_rows
            ++ job_rows w caps.unicode snapshot.job
            ++ contribution_rows w caps.unicode snapshot.job)
          empty_frame)
