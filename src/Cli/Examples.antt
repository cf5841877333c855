-- ===== src/Cli/Examples.antt =====
-- The results of a job whose tasks are a probe that failed and a task that did not run to its end.
use inoculum.Shared.{
  ◌≡◌, ◌↔◌, refl, true, false, List, Option, some, ◌==◌, String, none, [], ◌∷◌, if◌then◌else◌,
  Result as Fallible, ok, err,
}
use inoculum.Shared.Int.{pos}
use inoculum.Types.Wire.{HttpProbeOutput}
use inoculum.Monitor.Model.{JobProgress, TaskProgress}
use inoculum.Types.Wire.{PullJobState, PullJobResponse, PullSubmitResponse}
use inoculum.Monitor.Job.{job_from_response}
use inoculum.Monitor.Submit.{new_submit_tracker, submitted, update}
use inoculum.Text.{byte_length}
use inoculum.Workload.{validate_task_type, check_type_characters}
use inoculum.Cli.Output.{Answers, missing, found}
use inoculum.Cli.Submit.{
  SubmitOptions, Surroundings, parse_submit_options, check_workload, resolve_token, prepare,
  first_visited, submit_request, ◌>>=◌,
}
use inoculum.Cli.Submit.Acceptance.{Taken, prepare-Taken}
use inoculum.Cli.Waiting.{ExecutionResult, WaitRound, wait_for, execute, after_quit, submit_exit}
use inoculum.Cli.Waiting.Outcomes.{first_end, verdict, error_of, wait_of, execute-verdict}
use inoculum.Cli.Waiting.Exits.{completes, Written, submit_exit-execute}
use inoculum.Cli.Results.{ManifestResults, build_manifest_results}
use inoculum.Cli.Results.Exports.{Exported, build_manifest_results-Exported}

abbrev task_with : String → String → String → TaskProgress
task_with key output error = record {
  task_id = key;
  key = key;
  state = "failed";
  worker_id = "worker-1";
  attempt = 3;
  started_at = none;
  duration = pos 0;
  output = output;
  error = error;
}

abbrev failed_job : JobProgress
failed_job = record {
  job_id = "pull-job-7";
  state = "failed";
  total = 2;
  queued = 0;
  running = 0;
  completed = 0;
  failed = 2;
  started_at = none;
  elapsed = pos 0;
  tasks = task_with "a" "{}" "HTTP probe timed out" ∷ task_with "b" "" "lease expired" ∷ [];
  workers = [];
}

abbrev decode_probe : String → Fallible String HttpProbeOutput
decode_probe s =
    if s == "{}"
    then ok (record {
      status_code = 0;
      final_url = "";
      elapsed_milliseconds = 10000;
      declared_content_length = none;
      tls_certificate_expiry = "";
      error_category = "timeout";
      error_message = "HTTP probe timed out";
    })
    else err "invalid character"

build_manifest_results-Exported_example :
    Exported decode_probe failed_job (build_manifest_results decode_probe failed_job)
build_manifest_results-Exported_example = build_manifest_results-Exported decode_probe failed_job

-- Two sleeps, whose job is running in the first poll and completed in the second.
abbrev two_sleeps : SubmitOptions
two_sleeps = record {
  coordinator = "localhost:8080";
  token = "";
  fingerprint = "";
  task_type = "diagnostic_sleep";
  input = "1s";
  task_count = pos 2;
  timeout = pos 60000000000;
  manifest_path = "";
  output_path = "";
  manifest = none;
  verbose = false;
}

abbrev quiet_surroundings : Surroundings
quiet_surroundings = record {
  visited = λ name. name == "tasks";
  manifest_file = none;
  target = missing;
  parent = found true;
  environment = "secret";
}

two_sleeps_pass : prepare quiet_surroundings two_sleeps ≡ ok (two_sleeps, "secret")
unfolding prepare parse_submit_options first_visited check_workload resolve_token validate_task_type
    check_type_characters ◌>>=◌ byte_length
two_sleeps_pass = refl

prepare-Taken_example : Taken (submit_request two_sleeps) (pos 2)
prepare-Taken_example =
    prepare-Taken quiet_surroundings two_sleeps two_sleeps "secret" refl two_sleeps_pass

abbrev taken : PullSubmitResponse
taken = record { job_id = "pull-job-7"; task_ids = "pull-job-7-task-0" ∷ "pull-job-7-task-1" ∷ [] }

abbrev answer_in : PullJobState → PullJobResponse
answer_in state = record { job_id = "pull-job-7"; state = state; tasks = [] }

abbrev poll : PullJobState → WaitRound
poll state = record { reply = ok (answer_in state); cause = none; now = 500; ended = none }

abbrev polls : List WaitRound
polls = poll PullJobState.running ∷ poll PullJobState.completed ∷ []

abbrev completed_result : ExecutionResult
completed_result = record {
  job = job_from_response (answer_in PullJobState.completed) (some 100) 500;
  error = none;
}

polls_complete :
    (execute (pos 60000000000) (ok taken) none 100 polls (new_submit_tracker 2)).2
    ≡ some completed_result
unfolding execute wait_for submitted update
polls_complete = refl

execute-verdict_example :
    error_of (execute (pos 60000000000) (ok taken) none 100 polls (new_submit_tracker 2)).2
    ≡ verdict (wait_of (pos 60000000000) taken 100) (first_end polls)
execute-verdict_example =
    execute-verdict (pos 60000000000) taken none 100 polls (new_submit_tracker 2)

abbrev not_written : JobProgress → Option String
not_written job = some "disk full"

submit_exit-execute_example :
    (submit_exit false not_written "" (after_quit false (pos 60000000000) completed_result) ≡ 0) ↔ (
      (completes (first_end polls) ≡ true)
      × (false ≡ false)
      × Written not_written "" completed_result.job)
submit_exit-execute_example =
    submit_exit-execute false false not_written "" (pos 60000000000) taken none 100 polls
      (new_submit_tracker 2) completed_result polls_complete

abbrev disk_full : Answers
disk_full = record {
  create = none;
  write = some ("{", "no space left on device");
  sync = none;
  close = none;
  rename = none;
  remove = none;
}

abbrev encode_id : ManifestResults → Fallible String String
encode_id document = ok document.job_id
