-- ===== src/Coordinator/Examples.antt =====
-- Runs of the coordinator at concrete requests.
use inoculum.Shared.{
  number, ℕ, ◌≡◌, refl, true, false, none, some, List, [], ◌∷◌, map, length, ok, All, ◌↔◌,
}
use inoculum.Shared.Int.{pos}
use inoculum.Shared.Json.{Document, value, end_of_file}
use inoculum.Types.Wire.{PullSubmitRequest, PullJobState}
use inoculum.Workload.{Task, max_manifest_bytes}
use inoculum.LeaseQueue.Tasks.{TaskState, Task as QueueTask, is_terminal}
use inoculum.LeaseQueue.{new}
use inoculum.Monitor.Job.{job_from_response, progress_of}
use inoculum.Monitor.Job.Counts.{in_state, IsContribution, job_from_response_lem}
use inoculum.Coordinator.Http.{decode_json_request}
use inoculum.Coordinator.Server.{Server, Config, Clock, new_server, server_with}
use inoculum.Coordinator.Jobs.{job_response}
use inoculum.Coordinator.Jobs.States.{job_response_lem, all_in, is_completed, never_started}
use inoculum.Coordinator.Soundness.{IsSound}
use inoculum.Coordinator.Requests.{Call, worker_claim, pull_submit, status, new_server-IsFresh}

abbrev pub config : Config
config = record {
  port = 8080;
  token = "secret";
  lease_duration = pos 6000000000;
  max_attempts = pos 3;
}

abbrev pub first : Server
first =
    server_with 0 config (record {
      lease_duration = 6000000000;
      max_attempts = 3;
      queued = [];
      order = [];
      tasks = [];
    })

fresh : new_server 0 config ≡ ok first
unfolding new_server new
fresh = refl

pub first-IsSound : IsSound first
first-IsSound = (new_server-IsFresh 0 config first fresh).sound

abbrev pub at_time : ℕ → Clock
at_time t = record { activity = t; sweep = t; call = t; event = λ _. t }

abbrev two_inputs : PullSubmitRequest
two_inputs = record { task_type = "echo"; inputs = "a" ∷ "b" ∷ []; tasks = [] }

abbrev two_body : Document PullSubmitRequest
two_body = record { size = 60; decoded = value two_inputs end_of_file }

abbrev two_tasks : List Task
two_tasks = record { key = ""; input = "a" } ∷ record { key = ""; input = "b" } ∷ []

decoded : decode_json_request max_manifest_bytes two_body ≡ ok two_inputs
unfolding decode_json_request
decoded = refl

abbrev some_calls : List Call
some_calls =
    pull_submit (at_time 7) (record { method = "POST"; body = two_body })
    ∷ worker_claim (at_time 8) "lease-1" (record {
      method = "POST";
      body = record { size = 20; decoded = value (record { worker_id = "worker-a" }) end_of_file };
    })
    ∷ status (at_time 9) 10 (record { method = "GET"; id = "" })
    ∷ []

abbrev done_task : QueueTask
done_task = record {
  id = "pull-job-7-task-0";
  job_id = "pull-job-7";
  key = "";
  type = "echo";
  input = "a";
  state = TaskState.completed;
  attempts = 1;
  worker_id = "worker-a";
  lease = none;
  result = some (record { output = "a"; duration = pos 5; error = "" });
}

abbrev waiting_task : QueueTask
waiting_task = record done_task {
  id = "pull-job-7-task-1";
  state = TaskState.queued;
  attempts = 0;
  worker_id = "";
  result = none;
}

abbrev one_done : List QueueTask
one_done = done_task ∷ waiting_task ∷ []

job_response_lem_example :
    let response = job_response "pull-job-7" one_done in
    ((response.state ≡ PullJobState.completed) ↔ (all_in is_completed one_done ≡ true))
    × ((response.state ≡ PullJobState.failed)
        ↔ ((all_in is_terminal one_done ≡ true) × (all_in is_completed one_done ≡ false)))
    × ((response.state ≡ PullJobState.running)
        ↔ ((all_in is_terminal one_done ≡ false) × (never_started one_done ≡ false)))
    × ((response.state ≡ PullJobState.queued)
        ↔ ((all_in is_terminal one_done ≡ false) × (never_started one_done ≡ true)))
    × (map (λ t. t.task_id) response.tasks ≡ "pull-job-7-task-0" ∷ "pull-job-7-task-1" ∷ [])
    × (map (λ t. t.state) response.tasks ≡ "completed" ∷ "queued" ∷ [])
job_response_lem_example = job_response_lem "pull-job-7" one_done

half_done_state : (job_response "pull-job-7" one_done).state ≡ PullJobState.running
half_done_state = job_response_lem_example.2.1 (refl, refl)

job_from_response_lem_example :
    let response = job_response "pull-job-7" one_done in
    let job = job_from_response response (some 3) 9 in
    (job.queued ≡ number (in_state "queued") response.tasks)
    × (job.running ≡ number (in_state "leased") response.tasks)
    × (job.completed ≡ number (in_state "completed") response.tasks)
    × (job.failed ≡ number (in_state "failed") response.tasks)
    × (job.total ≡ length response.tasks)
    × (job.tasks ≡ map progress_of response.tasks)
    × All (IsContribution response.tasks) job.workers
job_from_response_lem_example =
    job_from_response_lem (job_response "pull-job-7" one_done) (some 3) 9
