-- ===== src/Cli/Waiting.antt =====
-- internal/cli/submit.go: the wait for a job, and how the submit command ends.
pub mod Outcomes
pub mod Exits
use inoculum.Shared.{
  ℕ, ◌+◌, ◌-◌, ◌*◌, ◌%◌, String, ◌==◌, Bool, true, false, ◌&&◌, ◌||◌, not, ltb, eqb, Option, none,
  some, List, [], ◌∷◌, length, if◌then◌else◌, Result as Fallible, ok, err,
}
use inoculum.Shared.Int.{ℤ, pos}
use inoculum.Text.{append}
use inoculum.Text.Decimal.{decimal}
use inoculum.Text.Duration.{duration_string}
use inoculum.Types.Wire.{PullJobState, PullJobResponse, PullSubmitResponse}
use inoculum.Monitor.Model.{JobProgress}
use inoculum.Monitor.Submit.{SubmitTracker, submitted, update, finish, snapshot}
use inoculum.Cli.Errors.{CliError, plain, runtime_error, reported_runtime_error, render_exit}

-- The context's error: context.Canceled or context.DeadlineExceeded.
pub data Cause : Type 0 where
  canceled deadline_exceeded : Cause

abbrev pub cause_text : Cause → String
cause_text canceled = "context canceled"
cause_text deadline_exceeded = "context deadline exceeded"

abbrev pub is_deadline : Option Cause → Bool
is_deadline (some deadline_exceeded) = true
is_deadline _ = false

-- jobFailedError, waitTimeoutError, and the errors of requests
pub data WaitError : Type 0 where
  job_failed : String → WaitError
  stopped_waiting : String → ℤ → Cause → WaitError
  other : String → WaitError

abbrev pub wait_error_text : WaitError → String
wait_error_text (job_failed job_id) = append "job " (append job_id " failed")
wait_error_text (stopped_waiting job_id timeout cause) = append "client stopped waiting after " (
    append (duration_string timeout) (
      append " for job " (
        append job_id (
          append ": " (
            append (cause_text cause)
              "; the coordinator job was not marked failed and may still be running")))))
wait_error_text (other text) = text

pub record ExecutionResult : Type 0 where
  pub job : JobProgress
  pub error : Option WaitError

-- progressKey
pub progress_key : JobProgress → String
progress_key job = append (decimal job.queued) (
    append "/" (
      append (decimal job.running)
        (append "/" (append (decimal job.completed) (append "/" (decimal job.failed))))))

-- Round to tenths of a second, halves up.
abbrev pub round_tenth : ℕ → ℕ
round_tenth d =
    let rest = d % 100000000 in
    if ltb (rest + rest) 100000000 then d - rest else d + (100000000 - rest)

-- waitedDuration of a wait that has started: the clock of time.Since does not go back.
abbrev pub waited_duration : ℕ → ℤ → Cause → ℕ → ℤ
waited_duration started_at configured canceled now = pos (round_tenth (now - started_at))
waited_duration started_at configured deadline_exceeded now = configured

-- One round of the loop: the job's response or the error of the request, the error of the context
-- behind a failed request, the clock, and the context's error if it ends the wait of 250ms.
pub record WaitRound : Type 0 where
  pub reply : Fallible String PullJobResponse
  pub cause : Option Cause
  pub now : ℕ
  pub ended : Option Cause

-- What the loop reads and does not change: --timeout, the job's id, and when the wait began.
pub record Wait : Type 0 where
  pub timeout : ℤ
  pub job_id : String
  pub started_at : ℕ

-- The tracker, the jobs that the progress callback gets, and the result, which is none while the loop
-- goes on.
abbrev pub Waited : Type 0
Waited = SubmitTracker × List JobProgress × Option ExecutionResult

abbrev pub client_wait_timeout : Wait → ℕ → Cause → WaitError
client_wait_timeout w now cause =
    stopped_waiting w.job_id (waited_duration w.started_at w.timeout cause now) cause

abbrev pub request_error : Wait → ℕ → Option Cause → String → WaitError
request_error w now none text = other text
request_error w now (some cause) text = client_wait_timeout w now cause

-- tracker.Finish, with the result that shows the tracker's job.
abbrev pub stop_with : WaitError → Option Cause → ℕ → SubmitTracker → Waited
stop_with e cause now t =
    let t' = finish (some (wait_error_text e)) (is_deadline cause) t in
    (t', [], some (record { job = (snapshot now t').job; error = some e }))

abbrev pub is_over : PullJobState → Bool
is_over PullJobState.completed = true
is_over PullJobState.failed = true
is_over _ = false

abbrev pub job_error : PullJobResponse → PullJobState → Option WaitError
job_error response PullJobState.failed = some (job_failed response.job_id)
job_error response _ = none

abbrev pub error_text_of : Option WaitError → Option String
error_text_of none = none
error_text_of (some e) = some (wait_error_text e)

abbrev pub settle : PullJobResponse → JobProgress → SubmitTracker → Waited
settle response job t =
    let e = job_error response response.state in
    (finish (error_text_of e) false t, [], some (record { job = job; error = e }))

-- The call of progress, where the counts have changed.
abbrev pub showing : Bool → JobProgress → Waited → Waited
showing changed job (t, shown, result) = (t, (if changed then job ∷ shown else shown), result)

-- The end of a round: the job is over, the context ends the wait, or the next round follows.
abbrev pub next_round :
    Wait → ℕ → Bool → Option Cause → PullJobResponse → JobProgress → SubmitTracker → Waited → Waited
next_round w now true ended response job t later = settle response job t
next_round w now false (some cause) response job t later =
    stop_with (client_wait_timeout w now cause) (some cause) now t
next_round w now false none response job t later = later

abbrev pub after_update :
    Wait
    → WaitRound
    → String
    → PullJobResponse
    → SubmitTracker × JobProgress
    → (String → SubmitTracker → Waited)
    → Waited
after_update w r last response (t, job) later = showing (not (progress_key job == last)) job (
    next_round w r.now (is_over response.state) r.ended response job t (later (progress_key job) t))

abbrev pub after_reply :
    Wait
    → Fallible String PullJobResponse
    → WaitRound
    → String
    → SubmitTracker
    → (String → SubmitTracker → Waited)
    → Waited
after_reply w (err e) r last t later = stop_with (request_error w r.now r.cause e) r.cause r.now t
after_reply w (ok response) r last t later =
    after_update w r last response (update response r.now t) later

-- The loop of execute; `last` is the key of the counts last shown.
unfoldable pub wait_for : Wait → List WaitRound → String → SubmitTracker → Waited
wait_for w [] last t = (t, [], none)
wait_for w (r ∷ rounds) last t = after_reply w r.reply r last t (wait_for w rounds)

abbrev pub no_job : JobProgress
no_job = record {
  job_id = "";
  state = "";
  total = 0;
  queued = 0;
  running = 0;
  completed = 0;
  failed = 0;
  started_at = none;
  elapsed = pos 0;
  tasks = [];
  workers = [];
}

-- execute, given the reply to the request, the context's error behind a failed one, and the clock.
unfoldable pub execute :
    ℤ
    → Fallible String PullSubmitResponse
    → Option Cause
    → ℕ
    → List WaitRound
    → SubmitTracker
    → Waited
execute timeout (err e) cause now rounds t = (
  finish (some e) (is_deadline cause) t,
  [],
  some (record { job = no_job; error = some (other e) }),
)
execute timeout (ok job) cause now rounds t =
    wait_for (record { timeout = timeout; job_id = job.job_id; started_at = now }) rounds ""
      (submitted job.job_id (length job.task_ids) now t)

-- A result that the user's quit turned into the end of the wait.
abbrev pub quit_error : Bool → ℤ → String → Option WaitError → Option WaitError
quit_error quit timeout job_id (some e) = some e
quit_error true timeout job_id none = some (stopped_waiting job_id timeout canceled)
quit_error false timeout job_id none = none

abbrev pub after_quit : Bool → ℤ → ExecutionResult → ExecutionResult
after_quit quit timeout result = record result {
  error = quit_error quit timeout result.job.job_id result.error;
}

-- The error of runSubmit.
pub data RunError : Type 0 where
  results_unwritten : String → RunError
  wait_failed : WaitError → RunError

abbrev pub is_terminal : JobProgress → Bool
is_terminal job = not (job.job_id == "") && eqb (job.completed + job.failed) job.total

abbrev pub result_error : Option WaitError → Option RunError
result_error none = none
result_error (some e) = some (wait_failed e)

abbrev pub unless_unwritten : Option String → Option RunError → Option RunError
unless_unwritten (some e) rest = some (results_unwritten e)
unless_unwritten none rest = rest

-- finishSubmit: `write` is writeManifestResults of the job, to the path of --output.
pub finish_submit : (JobProgress → Option String) → String → ExecutionResult → Option RunError
finish_submit write output_path result =
    if is_terminal result.job && not (output_path == "")
    then unless_unwritten (write result.job) (result_error result.error)
    else result_error result.error

-- The end of RunSubmit: what is already reported, and what renderExit reports.
pub submit_error : Bool → Option RunError → Option CliError
submit_error verbose none = none
submit_error verbose (some (results_unwritten e)) =
    runtime_error (some (plain (append "write manifest results: " e))) verbose
submit_error verbose (some (wait_failed (other text))) = runtime_error (some (plain text)) verbose
submit_error verbose (some (wait_failed e)) =
    reported_runtime_error (some (plain (wait_error_text e)))

-- The exit code of the command.
pub submit_exit : Bool → (JobProgress → Option String) → String → ExecutionResult → ℕ
submit_exit verbose write output_path result =
    (render_exit (submit_error verbose (finish_submit write output_path result))).0
