-- ===== src/Cli/Waiting/Exits.antt =====
-- internal/cli/submit.go: the exit code of the submit command.
use inoculum.Shared.{
  ℕ, ◌≡◌, ◌↔◌, refl, sym, ap, ◌∙◌, String, ◌==◌, Bool, true, false, ◌&&◌, ◌||◌, not, Option, none,
  some, List, [], ◌∷◌, if◌then◌else◌, Result as Fallible, ok, err, arith,
}
use inoculum.Shared.Int.{ℤ}
use inoculum.Types.Wire.{PullJobState, PullJobResponse, PullSubmitResponse}
use inoculum.Monitor.Model.{JobProgress}
use inoculum.Monitor.Submit.{SubmitTracker}
use inoculum.Cli.Errors.{render_exit, is_help, as_usage, as_command}
use inoculum.Cli.Waiting.{
  Cause, WaitError, job_failed, stopped_waiting, other, ExecutionResult, WaitRound, Wait, is_over,
  execute, quit_error, after_quit, is_terminal, RunError, results_unwritten, wait_failed,
  result_error, unless_unwritten, finish_submit, submit_error, submit_exit,
}
use inoculum.Cli.Waiting.Outcomes.{
  first_end, is_end, is_given, verdict, over_error, reply_error, error_of, wait_of, execute-verdict,
}

-- The round read a job that is completed.
abbrev is_completed_job : PullJobState → Bool
is_completed_job PullJobState.completed = true
is_completed_job _ = false

abbrev read_completed : Fallible String PullJobResponse → Bool
read_completed (err e) = false
read_completed (ok response) = is_completed_job response.state

pub completes : Option WaitRound → Bool
completes none = false
completes (some r) = read_completed r.reply

-- A job with an end is written to the path of --output.
abbrev pub Written : (JobProgress → Option String) → String → JobProgress → Type 0
Written write path job = (is_terminal job && not (path == "")) ≡ true → write job ≡ none

over_error_iff :
    (w : Wait) (now : ℕ) (response : PullJobResponse) (state : PullJobState) (ended : Option Cause)
    → (is_over state || is_given ended) ≡ true
    → (over_error w now response state ended ≡ none) ↔ (is_completed_job state ≡ true)
over_error_iff w now response PullJobState.completed ended h = (λ _. refl, λ _. refl)
over_error_iff w now response PullJobState.failed ended h = (λ e. cc e, λ e. cc e)
over_error_iff w now response PullJobState.queued (some c) h = (λ e. cc e, λ e. cc e)
over_error_iff w now response PullJobState.running (some c) h = (λ e. cc e, λ e. cc e)
over_error_iff w now response PullJobState.queued none h = cc h
over_error_iff w now response PullJobState.running none h = cc h

reply_error_iff :
    (w : Wait) (r : WaitRound) (reply : Fallible String PullJobResponse)
    → is_end reply r.ended ≡ true
    → (reply_error w r reply ≡ none) ↔ (read_completed reply ≡ true)
reply_error_iff w r (err e) h = (λ e. cc e, λ e. cc e)
reply_error_iff w r (ok response) h = over_error_iff w r.now response response.state r.ended h

first_end-is_end :
    (rounds : List WaitRound) (r : WaitRound)
    → first_end rounds ≡ some r
    → is_end r.reply r.ended ≡ true
unfolding first_end
first_end-is_end [] r h = cc h
first_end-is_end (r' ∷ rounds) r h =
    by_end (is_end r'.reply r'.ended) (first_end-is_end rounds r) refl h
  where
    by_end :
        (ends : Bool)
        → (first_end rounds ≡ some r → is_end r.reply r.ended ≡ true)
        → is_end r'.reply r'.ended ≡ ends
        → (if ends then some r' else first_end rounds) ≡ some r
        → is_end r.reply r.ended ≡ true
    by_end true rest is h =
        let same : r' ≡ r = cc h in ap (λ x. is_end x.reply x.ended) (sym same) ∙ is
    by_end false rest is h = rest h

verdict_iff :
    (w : Wait) (rounds : List WaitRound) (last : Option WaitRound) (e : Option WaitError)
    → first_end rounds ≡ last
    → some e ≡ verdict w last
    → (e ≡ none) ↔ (completes last ≡ true)
unfolding verdict completes
verdict_iff w rounds none e is h = cc h
verdict_iff w rounds (some r) e is h =
    let same : e ≡ reply_error w r r.reply = cc h in
    let (there, back) = reply_error_iff w r r.reply (first_end-is_end rounds r is) in
    (λ n. there (sym same ∙ n), λ c. same ∙ back c)

abbrev exit_code : Option RunError → ℕ
exit_code none = 0
exit_code (some e) = 1

submit_error-exit_code :
    (verbose : Bool) (e : Option RunError) → (render_exit (submit_error verbose e)).0 ≡ exit_code e
unfolding render_exit submit_error is_help as_usage as_command
submit_error-exit_code verbose none = refl
submit_error-exit_code verbose (some (results_unwritten e)) = refl
submit_error-exit_code verbose (some (wait_failed (other text))) = refl
submit_error-exit_code verbose (some (wait_failed (job_failed job_id))) = refl
submit_error-exit_code verbose (some (wait_failed (stopped_waiting job_id timeout cause))) = refl

exit_code_iff : (e : Option RunError) → (exit_code e ≡ 0) ↔ (e ≡ none)
exit_code_iff none = (λ _. refl, λ _. refl)
exit_code_iff (some e) = (λ h. absurd (ground (arith, h)), λ h. absurd (ground (arith, h)))

result_error_iff : (e : Option WaitError) → (result_error e ≡ none) ↔ (e ≡ none)
result_error_iff none = (λ _. refl, λ _. refl)
result_error_iff (some e) = (λ h. absurd (ground (arith, h)), λ h. absurd (ground (arith, h)))

quit_error_iff :
    (quit : Bool) (timeout : ℤ) (job_id : String) (e : Option WaitError)
    → (quit_error quit timeout job_id e ≡ none) ↔ ((e ≡ none) × (quit ≡ false))
quit_error_iff quit timeout job_id (some e) =
    (λ h. absurd (ground (arith, h)), λ h. absurd (ground (arith, h.0)))
quit_error_iff true timeout job_id none =
    (λ h. absurd (ground (arith, h)), λ h. absurd (ground (arith, h.1)))
quit_error_iff false timeout job_id none = (λ _. (refl, refl), λ _. refl)

written_iff :
    (writes : Bool) (written : Option String) (e : Option WaitError)
    → ((if writes then unless_unwritten written (result_error e) else result_error e) ≡ none)
      ↔ ((e ≡ none) × (writes ≡ true → written ≡ none))
written_iff true (some failure) e =
    (λ h. absurd (ground (arith, h)), λ h. absurd (ground (arith, h.1 refl)))
written_iff true none e =
    (λ h. ((result_error_iff e).0 h, λ _. refl), λ h. (result_error_iff e).1 h.0)
written_iff false written e = (
  λ h. ((result_error_iff e).0 h, λ h₁. absurd (ground (arith, h₁))),
  λ h. (result_error_iff e).1 h.0,
)

submit_exit_iff :
    (verbose quit : Bool) (write : JobProgress → Option String) (path : String) (timeout : ℤ)
    (result : ExecutionResult)
    → (submit_exit verbose write path (after_quit quit timeout result) ≡ 0)
      ↔ ((result.error ≡ none) × (quit ≡ false) × Written write path result.job)
unfolding submit_exit finish_submit
submit_exit_iff verbose quit write path timeout result =
    let code =
      submit_error-exit_code verbose (finish_submit write path (after_quit quit timeout result)) in
    let (none_of, zero_of) =
      exit_code_iff (finish_submit write path (after_quit quit timeout result)) in
    let (fine, unfine) =
      written_iff (is_terminal result.job && not (path == "")) (write result.job)
        (quit_error quit timeout result.job.job_id result.error) in
    let (calm, uncalm) = quit_error_iff quit timeout result.job.job_id result.error in
    (
      λ h.
          let (no_error, written) = fine (none_of (sym code ∙ h)) in
          let (e, q) = calm no_error in (e, q, written),
      λ h. code ∙ zero_of (unfine (uncalm (h.0, h.1), h.2)),
    )

-- The submit command of a job that was taken, once the wait has a result, exits with 0 exactly if
-- the round that ended the wait read that the job is completed, the user did not quit, and the
-- results were written wherever the job has come to an end and --output names a file.
pub submit_exit-execute :
    (verbose quit : Bool) (write : JobProgress → Option String) (path : String)
    → (timeout : ℤ) (job : PullSubmitResponse) (cause : Option Cause) (now : ℕ)
      (rounds : List WaitRound)
    → (t : SubmitTracker) (result : ExecutionResult)
    → (execute timeout (ok job) cause now rounds t).2 ≡ some result
    → (submit_exit verbose write path (after_quit quit timeout result) ≡ 0)
      ↔ ((completes (first_end rounds) ≡ true) × (quit ≡ false) × Written write path result.job)
submit_exit-execute verbose quit write path timeout job cause now rounds t result h =
    let says = ap error_of (sym h) ∙ execute-verdict timeout job cause now rounds t in
    let (there, back) =
      verdict_iff (wait_of timeout job now) rounds (first_end rounds) result.error refl says in
    let (zero_of, of_zero) = submit_exit_iff verbose quit write path timeout result in
    (
      λ z. let (e, q, written) = zero_of z in (there e, q, written),
      λ c. of_zero (back c.0, c.1, c.2),
    )
