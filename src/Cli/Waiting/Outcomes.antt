-- ===== src/Cli/Waiting/Outcomes.antt =====
-- What the end of a submit says of the job.
use inoculum.Shared.{
  ℕ, ◌≡◌, refl, ap, ◌∙◌, String, ◌==◌, Bool, true, false, ◌||◌, not, Option, none, some, List, [],
  ◌∷◌, length, if◌then◌else◌, Result as Fallible, ok, err,
}
use inoculum.Shared.Int.{ℤ}
use inoculum.Types.Wire.{PullJobState, PullJobTask, PullJobResponse, PullSubmitResponse}
use inoculum.Monitor.Model.{JobProgress}
use inoculum.Monitor.Submit.{SubmitTracker, submitted, update}
use inoculum.Cli.Waiting.{
  Cause, WaitError, job_failed, ExecutionResult, WaitRound, Wait, Waited, is_over, request_error,
  client_wait_timeout, progress_key, showing, next_round, after_update, after_reply, wait_for,
  execute,
}

-- A round that ends the loop: a failed request, a job that is over, or the end of the context.
abbrev pub is_given : Option Cause → Bool
is_given none = false
is_given (some cause) = true

abbrev pub is_end : Fallible String PullJobResponse → Option Cause → Bool
is_end (err e) ended = true
is_end (ok response) ended = is_over response.state || is_given ended

unfoldable pub first_end : List WaitRound → Option WaitRound
first_end [] = none
first_end (r ∷ rounds) = if is_end r.reply r.ended then some r else first_end rounds

-- What the round that ends the loop says: a job that is over counts for more than the context's end.
abbrev pub over_error : Wait → ℕ → PullJobResponse → PullJobState → Option Cause → Option WaitError
over_error w now response PullJobState.completed ended = none
over_error w now response PullJobState.failed ended = some (job_failed response.job_id)
over_error w now response _ none = none
over_error w now response _ (some cause) = some (client_wait_timeout w now cause)

abbrev pub reply_error : Wait → WaitRound → Fallible String PullJobResponse → Option WaitError
reply_error w r (err e) = some (request_error w r.now r.cause e)
reply_error w r (ok response) = over_error w r.now response response.state r.ended

unfoldable pub verdict : Wait → Option WaitRound → Option (Option WaitError)
verdict w none = none
verdict w (some r) = some (reply_error w r r.reply)

abbrev pub error_of : Option ExecutionResult → Option (Option WaitError)
error_of none = none
error_of (some result) = some result.error

showing-result :
    (changed : Bool) (job : JobProgress) (waited : Waited)
    → (showing changed job waited).2 ≡ waited.2
showing-result changed job (t, shown, result) = refl

-- The end of a round whose job was read, by the job's state.
module _ (w : Wait) (cause : Option Cause) (now : ℕ) (job_id : String)
    (tasks : List PullJobTask) where
  abbrev read : PullJobState → PullJobResponse
  read state = record { job_id = job_id; state = state; tasks = tasks }

  abbrev round : PullJobState → Option Cause → WaitRound
  round state ended = record { reply = ok (read state); cause = cause; now = now; ended = ended }

  next_round-verdict :
      (state : PullJobState) (ended : Option Cause)
      → (job : JobProgress) (t : SubmitTracker) (rounds : List WaitRound) (later : Waited)
      → error_of later.2 ≡ verdict w (first_end rounds)
      → error_of (next_round w now (is_over state) ended (read state) job t later).2
        ≡ verdict w (first_end (round state ended ∷ rounds))
  unfolding first_end verdict
  next_round-verdict PullJobState.completed ended job t rounds later rest = refl
  next_round-verdict PullJobState.failed ended job t rounds later rest = refl
  next_round-verdict PullJobState.queued none job t rounds later rest = rest
  next_round-verdict PullJobState.queued (some c) job t rounds later rest = refl
  next_round-verdict PullJobState.running none job t rounds later rest = rest
  next_round-verdict PullJobState.running (some c) job t rounds later rest = refl

  after_update-verdict :
      (state : PullJobState) (ended : Option Cause)
      → (last : String) (updated : SubmitTracker × JobProgress) (rounds : List WaitRound)
      → (later : String → SubmitTracker → Waited)
      → ((key : String) (t : SubmitTracker)
          → error_of (later key t).2 ≡ verdict w (first_end rounds))
      → error_of (after_update w (round state ended) last (read state) updated later).2
        ≡ verdict w (first_end (round state ended ∷ rounds))
  after_update-verdict state ended last (t, job) rounds later rest =
      ap error_of (
        showing-result (not (progress_key job == last)) job
          (next_round w now (is_over state) ended (read state) job t (later (progress_key job) t)))
      ∙ next_round-verdict state ended job t rounds (later (progress_key job) t)
          (rest (progress_key job) t)

after_reply-verdict :
    (w : Wait) (reply : Fallible String PullJobResponse) (cause : Option Cause) (now : ℕ)
    (ended : Option Cause)
    → (last : String) (t : SubmitTracker) (rounds : List WaitRound)
    → (later : String → SubmitTracker → Waited)
    → ((key : String) (t : SubmitTracker) → error_of (later key t).2 ≡ verdict w (first_end rounds))
    → let r : WaitRound = record { reply = reply; cause = cause; now = now; ended = ended } in
      error_of (after_reply w reply r last t later).2 ≡ verdict w (first_end (r ∷ rounds))
unfolding first_end verdict
after_reply-verdict w (err e) cause now ended last t rounds later rest = refl
after_reply-verdict w (ok response) cause now ended last t rounds later rest =
    after_update-verdict w cause now response.job_id response.tasks response.state ended last
      (update response now t) rounds later rest

wait_for-verdict :
    (w : Wait) (rounds : List WaitRound) (last : String) (t : SubmitTracker)
    → error_of (wait_for w rounds last t).2 ≡ verdict w (first_end rounds)
unfolding wait_for first_end verdict
wait_for-verdict w [] last t = refl
wait_for-verdict w (r ∷ rounds) last t =
    after_reply-verdict w r.reply r.cause r.now r.ended last t rounds (wait_for w rounds)
      (wait_for-verdict w rounds)

abbrev pub wait_of : ℤ → PullSubmitResponse → ℕ → Wait
wait_of timeout job now = record { timeout = timeout; job_id = job.job_id; started_at = now }

-- The wait for a job that was taken ends in the first round in which the request fails, the job is
-- over, or the context ends, and with what that round says: no error if the job is completed, that
-- the job failed, the request's error, or that the client stopped waiting. It has no result only as
-- long as there is no such round.
pub execute-verdict :
    (timeout : ℤ) (job : PullSubmitResponse) (cause : Option Cause) (now : ℕ)
    (rounds : List WaitRound) (t : SubmitTracker)
    → error_of (execute timeout (ok job) cause now rounds t).2
      ≡ verdict (wait_of timeout job now) (first_end rounds)
unfolding execute
execute-verdict timeout job cause now rounds t =
    wait_for-verdict (wait_of timeout job now) rounds ""
      (submitted job.job_id (length job.task_ids) now t)
