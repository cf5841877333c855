-- ===== src/Cli/Results.antt =====
-- internal/cli/results.go: the results of a manifest's job, and the file that they are written to.
pub mod Exports
use inoculum.Shared.{
  ℕ, String, ◌==◌, Bool, true, false, ◌&&◌, ◌||◌, not, Option, none, some, List, [], ◌∷◌, GoMap,
  insert, delete, if◌then◌else◌, Result as Fallible, ok, err,
}
use inoculum.Text.{is_blank}
use inoculum.Types.Wire.{HttpProbeOutput}
use inoculum.Monitor.Model.{JobProgress, TaskProgress}

pub record ManifestTaskError : Type 0 where
  pub category : String
  pub message : String

pub record ManifestTaskResult : Type 0 where
  pub key : String
  pub state : String
  pub attempts : ℕ
  pub worker : String
  pub output : Option HttpProbeOutput
  pub error : Option ManifestTaskError

pub record ManifestResults : Type 0 where
  pub job_id : String
  pub state : String
  pub tasks : List ManifestTaskResult

-- An output that does not decode: the key of its task, and the decoder's error.
pub data ResultsError : Type 0 where
  undecodable : String → String → ResultsError

abbrev pub result_without : TaskProgress → ManifestTaskResult
result_without task = record {
  key = task.key;
  state = task.state;
  attempts = task.attempt;
  worker = task.worker_id;
  output = none;
  error = none;
}

abbrev pub quiet_probe : HttpProbeOutput → HttpProbeOutput
quiet_probe probe = record probe { error_category = ""; error_message = "" }

-- The probe's output, with its error apart.
abbrev pub with_probe : HttpProbeOutput → ManifestTaskResult → ManifestTaskResult
with_probe probe result =
    if not (probe.error_category == "") || not (probe.error_message == "")
    then record result {
      output = some (quiet_probe probe);
      error = some (record { category = probe.error_category; message = probe.error_message });
    }
    else record result { output = some probe }

-- The execution's error, where the output has none.
abbrev pub error_or : Option ManifestTaskError → String → ManifestTaskResult → ManifestTaskResult
error_or (some e) message result = result
error_or none message result =
    if message == ""
    then result
    else record result { error = some (record { category = "execution"; message = message }) }

abbrev pub with_execution_error : String → ManifestTaskResult → ManifestTaskResult
with_execution_error message result = error_or result.error message result

-- `decode` is json.Unmarshal to an HTTPProbeOutput.
module _ (decode : String → Fallible String HttpProbeOutput) where
  abbrev pub decoded_result :
      TaskProgress → Fallible String HttpProbeOutput → Fallible ResultsError ManifestTaskResult
  decoded_result task (err e) = err (undecodable task.key e)
  decoded_result task (ok probe) =
      ok (with_execution_error task.error (with_probe probe (result_without task)))

  pub task_result : TaskProgress → Fallible ResultsError ManifestTaskResult
  task_result task =
      if task.output == ""
      then ok (with_execution_error task.error (result_without task))
      else decoded_result task (decode task.output)

  abbrev pub add_result :
      Fallible ResultsError ManifestTaskResult
      → Fallible ResultsError (List ManifestTaskResult)
      → Fallible ResultsError (List ManifestTaskResult)
  add_result (err e) rest = err e
  add_result (ok result) (err e) = err e
  add_result (ok result) (ok results) = ok (result ∷ results)

  -- The loop, which ends at its first error.
  pub task_results : List TaskProgress → Fallible ResultsError (List ManifestTaskResult)
  task_results [] = ok []
  task_results (task ∷ tasks) = add_result (task_result task) (task_results tasks)

  abbrev pub document_of :
      JobProgress
      → Fallible ResultsError (List ManifestTaskResult)
      → Fallible ResultsError ManifestResults
  document_of job (err e) = err e
  document_of job (ok tasks) = ok (record { job_id = job.job_id; state = job.state; tasks = tasks })

  pub build_manifest_results : JobProgress → Fallible ResultsError ManifestResults
  build_manifest_results job = document_of job (task_results job.tasks)
