-- ===== src/Cli/Results/Exports.antt =====
-- What is exported of each task.
use inoculum.Shared.{
  ◌≡◌, ◌≢◌, refl, sym, ◌∙◌, String, ◌==◌, Bool, true, false, ◌||◌, not, Option, none, some, List,
  [], ◌∷◌, ◌⊎◌, if◌then◌else◌, Bool-cases, inl, inr, arith, eq_iff, Result as Fallible, ok, err,
}
use inoculum.Types.Wire.{HttpProbeOutput}
use inoculum.Monitor.Model.{JobProgress, TaskProgress}
use inoculum.Cli.Results.{
  ManifestTaskError, ManifestTaskResult, ManifestResults, ResultsError, undecodable, result_without,
  quiet_probe, with_probe, error_or, with_execution_error, decoded_result, task_result, add_result,
  task_results, document_of, build_manifest_results,
}

-- A task's result: what it says of the task, and that an error is exported of a task with an error.
pub record IsExport (task : TaskProgress) (result : ManifestTaskResult) : Type 0 where
  pub key : result.key ≡ task.key
  pub state : result.state ≡ task.state
  pub attempts : result.attempts ≡ task.attempt
  pub worker : result.worker ≡ task.worker_id
  pub error : task.error ≢ "" → result.error ≢ none

abbrev pub AreExports : List TaskProgress → List ManifestTaskResult → Type 0
AreExports [] [] = Unit
AreExports [] (r ∷ rs) = ⊥
AreExports (t ∷ ts) [] = ⊥
AreExports (t ∷ ts) (r ∷ rs) = IsExport t r × AreExports ts rs

some-none : {A : Type 0} {a : A} → some a ≢ none
some-none h = absurd (ground (arith, h))

error_or-IsExport :
    (e : Option ManifestTaskError) (task : TaskProgress) (result : ManifestTaskResult)
    → result.error ≡ e
    → result.key ≡ task.key
    → result.state ≡ task.state
    → result.attempts ≡ task.attempt
    → result.worker ≡ task.worker_id
    → IsExport task (error_or e task.error result)
error_or-IsExport (some e) task result is k s a w = record {
  key = k;
  state = s;
  attempts = a;
  worker = w;
  error = λ _ h. some-none (sym is ∙ h);
}
error_or-IsExport none task result is k s a w = elim (Bool-cases (task.error == "")) [
  | inl empty ↦ rw empty (record {
    key = k;
    state = s;
    attempts = a;
    worker = w;
    error = λ n. absurd (n ((eq_iff task.error "").0 empty));
  })
  | inr full ↦
      rw full (record { key = k; state = s; attempts = a; worker = w; error = λ _ h. some-none h })
]

without-IsExport :
    (task : TaskProgress) → IsExport task (with_execution_error task.error (result_without task))
without-IsExport task = error_or-IsExport none task (result_without task) refl refl refl refl refl

with_probe-IsExport :
    (task : TaskProgress) (probe : HttpProbeOutput)
    → IsExport task (with_execution_error task.error (with_probe probe (result_without task)))
with_probe-IsExport task probe =
    by_test (not (probe.error_category == "") || not (probe.error_message == ""))
  where
    with_error : ManifestTaskResult
    with_error = record (result_without task) {
      output = some (quiet_probe probe);
      error = some (record { category = probe.error_category; message = probe.error_message });
    }

    without_error : ManifestTaskResult
    without_error = record (result_without task) { output = some probe }

    by_test :
        (b : Bool)
        → IsExport task (with_execution_error task.error (if b then with_error else without_error))
    by_test true = error_or-IsExport with_error.error task with_error refl refl refl refl refl
    by_test false =
        error_or-IsExport without_error.error task without_error refl refl refl refl refl

-- Some task of the list has the key, and an output on which the decoder fails with this error.
abbrev pub IsUndecodable :
    (String → Fallible String HttpProbeOutput) → String → String → TaskProgress → Type 0
IsUndecodable decode key e task =
    (task.key ≡ key) × (task.output ≢ "") × (decode task.output ≡ err e)

abbrev pub Undecodable :
    (String → Fallible String HttpProbeOutput) → List TaskProgress → String → String → Type 0
Undecodable decode [] key e = ⊥
Undecodable decode (task ∷ tasks) key e =
    IsUndecodable decode key e task ⊎ Undecodable decode tasks key e

abbrev pub TaskExported :
    (String → Fallible String HttpProbeOutput)
    → TaskProgress
    → Fallible ResultsError ManifestTaskResult
    → Type 0
TaskExported decode task (ok result) = IsExport task result
TaskExported decode task (err (undecodable key e)) = IsUndecodable decode key e task

abbrev pub TasksExported :
    (String → Fallible String HttpProbeOutput)
    → List TaskProgress
    → Fallible ResultsError (List ManifestTaskResult)
    → Type 0
TasksExported decode tasks (ok results) = AreExports tasks results
TasksExported decode tasks (err (undecodable key e)) = Undecodable decode tasks key e

abbrev pub Exported :
    (String → Fallible String HttpProbeOutput)
    → JobProgress
    → Fallible ResultsError ManifestResults
    → Type 0
Exported decode job (ok document) =
    (document.job_id ≡ job.job_id)
    × (document.state ≡ job.state)
    × AreExports job.tasks document.tasks
Exported decode job (err (undecodable key e)) = Undecodable decode job.tasks key e

module _ (decode : String → Fallible String HttpProbeOutput) where
  decoded_result-Exported :
      (task : TaskProgress)
      → task.output ≢ ""
      → (decoded : Fallible String HttpProbeOutput) → decode task.output ≡ decoded
      → TaskExported decode task (decoded_result decode task decoded)
  decoded_result-Exported task output (ok probe) is = with_probe-IsExport task probe
  decoded_result-Exported task output (err e) is = (refl, output, is)

  task_result-Exported : (task : TaskProgress) → TaskExported decode task (task_result decode task)
  unfolding task_result
  task_result-Exported task = elim (Bool-cases (task.output == "")) [
    | inl empty ↦ rw empty (without-IsExport task)
    | inr full ↦ rw full (
        decoded_result-Exported task (λ h. ground (arith, sym ((eq_iff task.output "").1 h) ∙ full))
          (decode task.output) refl)
  ]

  add_result-Exported :
      (task : TaskProgress) (tasks : List TaskProgress)
      → (first : Fallible ResultsError ManifestTaskResult)
      → (rest : Fallible ResultsError (List ManifestTaskResult)) → TaskExported decode task first
      → TasksExported decode tasks rest
      → TasksExported decode (task ∷ tasks) (add_result decode first rest)
  add_result-Exported task tasks (err (undecodable key e)) rest first_is rest_is = inl first_is
  add_result-Exported task tasks (ok result) (err (undecodable key e)) first_is rest_is =
      inr rest_is
  add_result-Exported task tasks (ok result) (ok results) first_is rest_is = (first_is, rest_is)

  task_results-Exported :
      (tasks : List TaskProgress) → TasksExported decode tasks (task_results decode tasks)
  unfolding task_results
  task_results-Exported [] = tt
  task_results-Exported (task ∷ tasks) =
      add_result-Exported task tasks (task_result decode task) (task_results decode tasks)
        (task_result-Exported task) (task_results-Exported tasks)

  document_of-Exported :
      (job : JobProgress) (results : Fallible ResultsError (List ManifestTaskResult))
      → TasksExported decode job.tasks results
      → Exported decode job (document_of decode job results)
  document_of-Exported job (ok results) is = (refl, refl, is)
  document_of-Exported job (err (undecodable key e)) is = is

  -- The document of a job has its id, its state, and one result for each of its tasks in their
  -- order: with the task's key, state, attempts and worker, and with an error wherever the task has
  -- one. There is no document only if some task has an output that does not decode, and then the
  -- error names that task and the decoder's error.
  pub build_manifest_results-Exported :
      (job : JobProgress) → Exported decode job (build_manifest_results decode job)
  unfolding build_manifest_results
  build_manifest_results-Exported job =
      document_of-Exported job (task_results decode job.tasks) (task_results-Exported job.tasks)
