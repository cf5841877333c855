-- ===== src/Coordinator/Handlers.antt =====
-- internal/coordinator: the handlers, each on a sound server.
use inoculum.Shared.{
  ◌+◌, ◌≡◌, sym, subst, String, ◌==◌, not, ℕ, Option, none, some, List, [], ◌∷◌, ok, err, ◌>>=◌,
  Bool-cases, inl, inr, Result as Fallible, length,
}
use inoculum.Types.Wire.{PullClaimRequest, PullRenewRequest, PullResultRequest, PullSubmitRequest}
use inoculum.Types.Validation.{validate_worker_id, validate_result}
use inoculum.Workload.{Task}
use inoculum.LeaseQueue.Tasks.{QueueError, Assignment, CompletionOutcome, TaskSpec}
use inoculum.LeaseQueue.{Queue, claim, enqueue, job_tasks, snapshot}
use inoculum.LeaseQueue.Invariant.{IsValid}
use inoculum.LeaseQueue.History.{
  Follows, Follows-refl, Follows-trans, step, step_lem, claims, renews, completes, reads_job,
  snapshots, enqueues,
}
use inoculum.Monitor.Model.{SystemEvent}
use inoculum.Coordinator.Http.{Request, Query, Response}
use inoculum.Coordinator.Server.{Server, Clock, note, record_worker_activity}
use inoculum.Coordinator.Pull.{
  answer_claim, serve_claim, handle_pull_claim, leased_event, serve_renew, handle_pull_renew,
  answer_result, validate_lease_request, serve_result, handle_pull_result, outcome_event, reported,
}
use inoculum.Coordinator.Submit.{
  answer_submit, enqueue_tasks, followed_by, with_id, serve_submit, handle_pull_submit,
  queued_event, job_id_at, spec_at, batch,
}
use inoculum.Coordinator.Jobs.{serve_job, handle_pull_job}
use inoculum.Coordinator.Status.{serve_status, handle_pull_status}
use inoculum.Coordinator.Soundness.{
  Serves-if, Serves-check, IsSound, Keeps, Keeps-refl, Extends-refl, change-Keeps, Serves,
  Serves-bind, Serves-after, Serves-return, Serves-same, returned, note_lem, sweep_lem,
}

-- The queue of a call that always returns.
at_queue : (q q' : Queue) → some q ≡ some q' → q ≡ q'
at_queue q q' e = cc e

activity-Keeps :
    (now : ℕ) (worker_id : String) (s : Server)
    → IsSound s
    → Keeps s (record_worker_activity now worker_id s)
unfolding record_worker_activity
activity-Keeps now worker_id s d = elim (Bool-cases (worker_id == "")) [
  | inl nameless ↦ rw nameless (Keeps-refl s d)
  | inr named ↦ rw named (
      change-Keeps s s.pull_queue s.events _ (Follows-refl s.pull_queue d.queue)
        (Extends-refl s.events d.events))
]

-- A handler that ends with an event.
note-Serves {ℓ} :
    {R : Type ℓ} (now : ℕ) (event : SystemEvent) (s : Server) (r : Response R)
    → IsSound s
    → Serves s (note now event s >>= λ s'. some (s', r))
note-Serves now event s r d =
    let (events, runs, b) = note_lem now event s d.events in
    Serves-bind s (note now event s) _ runs (
      Serves-return s _ r (
        change-Keeps s s.pull_queue events s.worker_activity (Follows-refl s.pull_queue d.queue) b))

answer_claim-Serves :
    (clock : Clock) (w : String) (k : ℕ) (claimed : Fallible QueueError (Option Assignment))
    (s : Server)
    → IsSound s
    → Serves s (answer_claim clock w k claimed s)
unfolding answer_claim
answer_claim-Serves clock w k (err e) s d = Serves-return s s _ (Keeps-refl s d)
answer_claim-Serves clock w k (ok none) s d = Serves-return s s _ (Keeps-refl s d)
answer_claim-Serves clock w k (ok (some a)) s d =
    note-Serves (clock.event k) (leased_event w a) s _ d

serve_claim-Serves :
    (clock : Clock) (lease_id : String) (req : PullClaimRequest) (s : Server)
    → IsSound s
    → Serves s (serve_claim clock lease_id req s)
unfolding serve_claim step
serve_claim-Serves clock lease_id req s d =
    let (q, expired, events, runs, logs, f, b) = sweep_lem clock s d in
    let (q', stepped, f') = step_lem q (claims req.worker_id clock.call lease_id) f.valid in
    let (claimed, claims') = returned (claim req.worker_id clock.call lease_id q) q' stepped in
    let keeps =
      change-Keeps s q' events s.worker_activity (Follows-trans s.pull_queue q q' f f') b in
    Serves-bind s _ _ runs (
      Serves-bind s _ _ logs (
        Serves-bind s _ _ claims' (
          Serves-after s _ _ keeps
            (answer_claim-Serves clock req.worker_id (length expired) claimed _ keeps.sound))))

-- handlePullClaim returns, whatever the request, and keeps the server sound.
pub handle_pull_claim-Serves :
    (clock : Clock) (lease_id : String) (r : Request PullClaimRequest) (s : Server)
    → IsSound s
    → Serves s (handle_pull_claim clock lease_id r s)
unfolding handle_pull_claim
handle_pull_claim-Serves clock lease_id r s d = Serves-if s _ _ _ (Serves-same s _ d) (
    Serves-check s _ _ _ (λ _. Serves-same s _ d)
      (λ req.
        Serves-check s (validate_worker_id req.worker_id) _ _ (λ _. Serves-same s _ d)
          (λ _.
            let active = activity-Keeps clock.activity req.worker_id s d in
            Serves-after s _ _ active (serve_claim-Serves clock lease_id req _ active.sound))))

serve_renew-Serves :
    (clock : Clock) (req : PullRenewRequest) (s : Server)
    → IsSound s
    → Serves s (serve_renew clock req s)
unfolding serve_renew step
serve_renew-Serves clock req s d =
    let (q, stepped, f) =
      step_lem s.pull_queue (renews req.task_id req.lease_id req.worker_id clock.call) d.queue in
    let same = at_queue _ q stepped in
    Serves-return s _ _ (
      change-Keeps s _ s.events s.worker_activity (subst (Follows s.pull_queue) (sym same) f)
        (Extends-refl s.events d.events))

-- handlePullRenew does too.
pub handle_pull_renew-Serves :
    (clock : Clock) (r : Request PullRenewRequest) (s : Server)
    → IsSound s
    → Serves s (handle_pull_renew clock r s)
unfolding handle_pull_renew
handle_pull_renew-Serves clock r s d = Serves-if s _ _ _ (Serves-same s _ d) (
    Serves-check s _ _ _ (λ _. Serves-same s _ d)
      (λ req.
        Serves-check s (validate_lease_request req.worker_id req.task_id req.lease_id) _ _
          (λ _. Serves-same s _ d)
          (λ _.
            let active = activity-Keeps clock.activity req.worker_id s d in
            Serves-after s _ _ active (serve_renew-Serves clock req _ active.sound))))

answer_result-Serves :
    (clock : Clock) (req : PullResultRequest) (r : Fallible QueueError CompletionOutcome)
    (s : Server)
    → IsSound s
    → Serves s (answer_result clock req r s)
unfolding answer_result
answer_result-Serves clock req (err e) s d = Serves-same s _ d
answer_result-Serves clock req (ok outcome) s d =
    note-Serves (clock.event 0) (outcome_event req outcome) s _ d

serve_result-Serves :
    (clock : Clock) (req : PullResultRequest) (s : Server)
    → IsSound s
    → Serves s (serve_result clock req s)
unfolding serve_result step
serve_result-Serves clock req s d =
    let (q, stepped, f) =
      step_lem s.pull_queue
        (completes req.task_id req.lease_id req.worker_id (reported req) clock.call) d.queue in
    let same = at_queue _ q stepped in
    let keeps =
      change-Keeps s _ s.events s.worker_activity (subst (Follows s.pull_queue) (sym same) f)
        (Extends-refl s.events d.events) in
    Serves-after s _ _ keeps (answer_result-Serves clock req _ _ keeps.sound)

-- handlePullResult does too.
pub handle_pull_result-Serves :
    (clock : Clock) (r : Request PullResultRequest) (s : Server)
    → IsSound s
    → Serves s (handle_pull_result clock r s)
unfolding handle_pull_result
handle_pull_result-Serves clock r s d = Serves-if s _ _ _ (Serves-same s _ d) (
    Serves-check s _ _ _ (λ _. Serves-same s _ d)
      (λ req.
        Serves-check s (validate_lease_request req.worker_id req.task_id req.lease_id) _ _
          (λ _. Serves-same s _ d)
          (λ _. Serves-if s _ _ _ (Serves-same s _ d) (
            Serves-check s (validate_result req.result) _ _ (λ _. Serves-same s _ d)
              (λ _.
                let active = activity-Keeps clock.activity req.worker_id s d in
                Serves-after s _ _ active (serve_result-Serves clock req _ active.sound))))))

-- Enqueue, in the form of one more step of the queue.
enqueue-Follows : (spec : TaskSpec) (q : Queue) → IsValid q → Follows q (enqueue spec q).0
unfolding step
enqueue-Follows spec q v =
    let (q', stepped, f) = step_lem q (enqueues spec) v in
    subst (Follows q) (sym (at_queue _ q' stepped)) f

followed_by-Follows :
    (q : Queue) (id : String) (r : Queue × Fallible QueueError (Unit {0}))
    (rest : Queue → Queue × Fallible QueueError (List String))
    → Follows q r.0
    → ((q' : Queue) → IsValid q' → Follows q' (rest q').0)
    → Follows q (followed_by id r rest).0
unfolding followed_by with_id
followed_by-Follows q id (q', err e) rest f k = f
followed_by-Follows q id (q', ok _) rest f k =
    Follows-trans q q' _ f (listed (rest q') (k q' f.valid))
  where
    listed :
        {q' : Queue} (r : Queue × Fallible QueueError (List String))
        → Follows q' r.0
        → Follows q' (with_id id r).0
    listed (q'', err e) f = f
    listed (q'', ok ids) f = f

enqueue_tasks-Follows :
    (job_id type : String) (i : ℕ) (tasks : List Task) (q : Queue)
    → IsValid q
    → Follows q (enqueue_tasks job_id type i tasks q).0
unfolding enqueue_tasks
enqueue_tasks-Follows job_id type i [] q v = Follows-refl q v
enqueue_tasks-Follows job_id type i (task ∷ tasks) q v =
    let spec = spec_at job_id type i task in
    followed_by-Follows q spec.id (enqueue spec q) (enqueue_tasks job_id type (i + 1) tasks)
      (enqueue-Follows spec q v) (enqueue_tasks-Follows job_id type (i + 1) tasks)

answer_submit-Serves :
    (clock : Clock) (job_id : String) (r : Fallible QueueError (List String)) (s : Server)
    → IsSound s
    → Serves s (answer_submit clock job_id r s)
unfolding answer_submit
answer_submit-Serves clock job_id (err e) s d = Serves-same s _ d
answer_submit-Serves clock job_id (ok ids) s d =
    note-Serves (clock.event 0) (queued_event job_id (length ids)) s _ d

-- handlePullSubmit does too.
pub handle_pull_submit-Serves :
    (clock : Clock) (r : Request PullSubmitRequest) (s : Server)
    → IsSound s
    → Serves s (handle_pull_submit clock r s)
unfolding handle_pull_submit serve_submit
handle_pull_submit-Serves clock r s d = Serves-if s _ _ _ (Serves-same s _ d) (
    Serves-check s _ _ _ (λ _. Serves-same s _ d)
      (λ req.
        Serves-check s (batch req) _ _ (λ _. Serves-same s _ d)
          (λ tasks.
            let job_id = job_id_at clock.call in
            let f = enqueue_tasks-Follows job_id req.task_type 0 tasks s.pull_queue d.queue in
            let keeps =
              change-Keeps s _ s.events s.worker_activity f (Extends-refl s.events d.events) in
            Serves-after s _ _ keeps (answer_submit-Serves clock job_id _ _ keeps.sound))))

serve_job-Serves :
    (clock : Clock) (id : String) (s : Server) → IsSound s → Serves s (serve_job clock id s)
unfolding serve_job step
serve_job-Serves clock id s d =
    let (q, expired, events, runs, logs, f, b) = sweep_lem clock s d in
    let (q', stepped, f') = step_lem q (reads_job id clock.call) f.valid in
    let (tasks, reads) = returned (job_tasks id clock.call q) q' stepped in
    let keeps =
      change-Keeps s q' events s.worker_activity (Follows-trans s.pull_queue q q' f f') b in
    Serves-bind s _ _ runs
      (Serves-bind s _ _ logs (Serves-bind s _ _ reads (Serves-return s _ _ keeps)))

-- handlePullJob does too.
pub handle_pull_job-Serves :
    (clock : Clock) (r : Query) (s : Server) → IsSound s → Serves s (handle_pull_job clock r s)
unfolding handle_pull_job
handle_pull_job-Serves clock r s d =
    Serves-if s (not (r.method == "GET")) _ _ (Serves-same s _ d)
      (Serves-if s (r.id == "") _ _ (Serves-same s _ d) (serve_job-Serves clock r.id s d))

serve_status-Serves :
    (clock : Clock) (uptime : ℕ) (s : Server) → IsSound s → Serves s (serve_status clock uptime s)
unfolding serve_status step
serve_status-Serves clock uptime s d =
    let (q, expired, events, runs, logs, f, b) = sweep_lem clock s d in
    let (q', stepped, f') = step_lem q (snapshots clock.call) f.valid in
    let (tasks, reads) = returned (snapshot clock.call q) q' stepped in
    let keeps = change-Keeps s q' events _ (Follows-trans s.pull_queue q q' f f') b in
    Serves-bind s _ _ runs
      (Serves-bind s _ _ logs (Serves-bind s _ _ reads (Serves-return s _ _ keeps)))

-- handlePullStatus does too.
pub handle_pull_status-Serves :
    (clock : Clock) (uptime : ℕ) (r : Query) (s : Server)
    → IsSound s
    → Serves s (handle_pull_status clock uptime r s)
unfolding handle_pull_status
handle_pull_status-Serves clock uptime r s d =
    Serves-if s _ _ _ (Serves-same s _ d) (serve_status-Serves clock uptime s d)
