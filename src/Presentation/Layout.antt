-- ===== src/Presentation/Layout.antt =====
-- internal/presentation/layout.go: what the three frames share.
pub mod Coordinator
pub mod Worker
pub mod Submit
pub mod Fitting
pub mod Examples
use Prim.Native.Char.{Char, char, code}
use text.Mathlib.TextBridge.{to_list, of_list}
use inoculum.Shared.{
  ℕ, zero, suc, ◌+◌, ◌-◌, String, ◌==◌, Bool, ◌&&◌, Option, none, some, List, [], ◌∷◌, ◌++◌, ltb,
  leb, length, take, min, if◌then◌else◌,
}
use inoculum.Shared.Int.{ℤ, pos, pos_part, ltb_ℤ, sub_ℕ}
use inoculum.Text.{append}
use inoculum.Text.Decimal.{decimal}
use inoculum.Monitor.Model.{ConnectionState, TaskProgress}
use inoculum.Presentation.Format.{repeat, truncate, progress_bar}
use inoculum.Presentation.Frame.{Tone, Span, Frame, add, blank, fit_height}
use inoculum.Presentation.Mode.{Capabilities}

-- The parts of a text that fmt.Sprintf writes, and "%-ns".
abbrev pub sprint : List String → String
sprint [] = ""
sprint (part ∷ parts) = append part (sprint parts)

pub padded : ℕ → String → String
padded n text = append text (of_list (repeat (n - length (to_list text)) (char 32 tt)))

abbrev pub at_least : ℕ → ℕ → ℕ
at_least a b = if ltb a b then b else a

-- A width of less than 20 is taken as 20.
abbrev pub layout_width : ℤ → ℕ
layout_width width = if ltb_ℤ width (pos 20) then 20 else pos_part width

abbrev pub span : Tone → String → Span
span tone text = record { text = text; tone = tone }

-- The spans of one call of Add: one text, or a muted label before a text.
abbrev pub row : Tone → String → List Span
row tone text = span tone text ∷ []

abbrev pub labelled : String → String → List Span
labelled label text = span Tone.muted label ∷ span Tone.normal text ∷ []

abbrev pub blank_row : List Span
blank_row = row Tone.normal ""

-- Calls of Add one after the other; Blank is that of one empty text.
pub draw : ℕ → List (List Span) → Frame → Frame
draw width [] f = f
draw width (spans ∷ rows) f = draw width rows (add (pos width) spans f)

abbrev pub empty_frame : Frame
empty_frame = record { lines = [] }

abbrev pub footer_of : ℕ → String → List Span
footer_of width text = row Tone.muted (truncate text (pos width))

abbrev pub with_line : List Span → Frame → Frame
with_line line f = record { lines = f.lines ++ line ∷ [] }

-- The end of a frame: a blank line and the footer, and the cut to the height.
abbrev pub with_footer : ℕ → ℤ → String → Frame → Frame
with_footer width height text f =
    let footer = footer_of width text in
    fit_height height footer (with_line footer (draw width (blank_row ∷ []) f))

abbrev pub keys_help : String
keys_help = "q quit    ? help"

abbrev pub status_symbol : Capabilities → String
status_symbol caps = if caps.unicode then "●" else "*"

abbrev pub success_word : Capabilities → String
success_word caps = if caps.unicode then "✓" else "OK"

abbrev pub failure_word : Capabilities → String
failure_word caps = if caps.unicode then "✗" else "X"

abbrev pub failure_tone : ℕ → Tone
failure_tone count = if ltb 0 count then Tone.failure else Tone.normal

-- The progress of a job, in a bar of 10 to 40 columns.
abbrev pub bar_row : ℕ → Bool → ℕ → ℕ → List Span
bar_row width unicode done total =
    let bar_width = min (at_least (width - 14) 10) 40 in
    row Tone.normal (
      sprint (
        progress_bar (pos done) (pos total) (pos bar_width) unicode
        ∷ "  "
        ∷ decimal done
        ∷ " / "
        ∷ decimal total
        ∷ []))

-- taskPriority
abbrev pub task_priority : String → ℕ
task_priority state =
    if state == "leased"
    then 0
    else if state == "failed"
    then 1
    else if state == "completed"
    then 2
    else 3

-- sort.SliceStable by the priority
abbrev pub place : TaskProgress → List TaskProgress → List TaskProgress
place task [] = task ∷ []
place task (other ∷ others) =
    let rest = place task others in
    if ltb (task_priority other.state) (task_priority task.state)
    then other ∷ rest
    else task ∷ other ∷ others

abbrev pub by_priority : List TaskProgress → List TaskProgress
by_priority [] = []
by_priority (task ∷ tasks) = place task (by_priority tasks)

pub active_and_recent : List TaskProgress → ℕ → List TaskProgress
active_and_recent tasks limit =
    let sorted = by_priority tasks in
    if ltb limit (length sorted) then take limit sorted else sorted

-- workerConnection: the label, the symbol and the tone
pub worker_connection : ConnectionState → Capabilities → String × String × Tone
worker_connection ConnectionState.connected caps = ("CONNECTED", status_symbol caps, Tone.healthy)
worker_connection ConnectionState.unavailable caps =
    ("UNAVAILABLE", (if caps.unicode then "○" else "!"), Tone.waiting)
worker_connection ConnectionState.auth_failed caps = ("AUTH FAILED", "X", Tone.failure)
worker_connection ConnectionState.untrusted caps = ("NO TRUST", "X", Tone.failure)
worker_connection ConnectionState.identity caps = ("IDENTITY ERROR", "X", Tone.failure)
worker_connection ConnectionState.stopping caps = ("STOPPING", "-", Tone.waiting)
worker_connection ConnectionState.starting caps = ("CONNECTING", "-", Tone.waiting)
