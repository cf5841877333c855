-- ===== src/Coordinator/Status/Reports.antt =====
-- internal/coordinator: what a status and a job's report say of the queue that the handler leaves.
use inoculum.Shared.{
  ℕ, ◌+◌, ◌≤◌, ◌≡◌, ◌≢◌, refl, String, ◌==◌, false, Option, some, List, arith, length, eqb,
  if◌then◌else◌, GoMap, ok, err, bind_to, eq_iff,
}
use inoculum.Types.Wire.{PullWorkerStatus, PullJobResponse}
use inoculum.LeaseQueue.Tasks.{Task}
use inoculum.LeaseQueue.{Queue, observe, snapshot}
use inoculum.LeaseQueue.Views.{keep, snapshot_lem, job_tasks_lem}
use inoculum.Coordinator.Http.{Response, json, text}
use inoculum.Coordinator.Server.{Server, Clock}
use inoculum.Coordinator.Jobs.{handle_pull_job, serve_job, job_response}
use inoculum.Coordinator.Submit.{Answer}
use inoculum.Coordinator.Status.{at, recent_worker_window}
use inoculum.Coordinator.Soundness.{IsSound, sweep_lem}

-- A worker that was active within the window, with the leases that `active` counts for it.
abbrev IsRecent : ℕ → GoMap ℕ → PullWorkerStatus → Type 0
IsRecent now active w =
    (now ≤ w.last_activity + recent_worker_window) × (w.active_leases ≡ at w.worker_id active)

observed :
    (m : Option (Queue × List Task)) (p q : Queue) (us ts : List Task)
    → m ≡ some (p, us)
    → m ≡ some (q, ts)
    → observe p ≡ some us
    → observe q ≡ some ts
observed m p q us ts e f h = cc (e, f, h)

-- What handlePullJob answers for the tasks of a job.
abbrev pub job_answer : String → List Task → Response (Answer PullJobResponse)
job_answer id mine =
    if eqb (length mine) 0
    then json 404 (err (text "job not found"))
    else json 200 (ok (job_response id mine))

serve_job-reports :
    (clock : Clock) (id : String) (s : Server)
    → IsSound s
    → (s' : Server) × (ts : List Task) × (observe s'.pull_queue ≡ some ts)
      × (serve_job clock id s ≡ some (s', job_answer id (keep (λ t. t.job_id == id) ts)))
unfolding serve_job
serve_job-reports clock id s d =
    let (q, expired, events, runs, logs, f, b) = sweep_lem clock s d in
    let (q', again, ts, snaps, reads, rest) = job_tasks_lem id clock.call q f.valid in
    let (q'', _, us, snaps', observes, _, _) = snapshot_lem clock.call q f.valid in
    (
      _,
      ts,
      observed (snapshot clock.call q) q'' q' us ts snaps' snaps observes,
      bind_to _ _ runs (bind_to _ _ logs (bind_to _ _ reads refl)),
    )

-- GET /pull/job on a sound server answers with the tasks of that job in the queue that it leaves
-- behind, in the order in which they were added; where there are none, with 404.
pub handle_pull_job-reports :
    (clock : Clock) (id : String) (s : Server)
    → IsSound s
    → id ≢ ""
    → (s' : Server) × (ts : List Task) × (observe s'.pull_queue ≡ some ts)
      × (handle_pull_job clock (record { method = "GET"; id = id }) s
          ≡ some (s', job_answer id (keep (λ t. t.job_id == id) ts)))
unfolding handle_pull_job
handle_pull_job-reports clock id s d named =
    let (s', ts, observes, runs) = serve_job-reports clock id s d in
    let nonempty : (id == "") ≡ false = ground (arith, eq_iff id "") in
    (s', ts, observes, rw nonempty runs)
