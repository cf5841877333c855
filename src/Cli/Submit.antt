-- ===== src/Cli/Submit.antt =====
-- internal/cli/submit.go and common.go: the checks of the submit command, and the request that it
-- sends.
pub mod Acceptance
use inoculum.Shared.{
  ℕ, String, ◌==◌, Bool, true, false, ◌&&◌, not, ltb, Option, none, some, List, [], ◌∷◌, map,
  length, zero, suc, if◌then◌else◌, Result as Fallible, ok, err,
}
use inoculum.Shared.Int.{ℤ, pos, pos_part, leb_ℤ, ltb_ℤ}
use inoculum.Shared.Json.{Document}
use inoculum.Text.{byte_length, is_blank}
use inoculum.Types.Wire.{PullSubmitTask, PullSubmitRequest}
use inoculum.Cli.Output.{OutputPathError, Stat, validate_result_output_path}
use inoculum.Workload.{
  Task, Manifest, WorkloadError, max_tasks, max_input_bytes, validate_task_type, load_manifest,
}

-- submitOptions, less the flags of the presentation but `verbose`.
pub record SubmitOptions : Type 0 where
  pub coordinator : String
  pub token : String
  pub fingerprint : String
  pub task_type : String
  pub input : String
  pub task_count : ℤ
  pub timeout : ℤ
  pub manifest_path : String
  pub output_path : String
  pub manifest : Option Manifest
  pub verbose : Bool

-- The usage errors of the command, with what they print.
pub data SubmitError : Type 0 where
  manifest_requires_path output_requires_path output_requires_manifest : SubmitError
  tasks_not_positive too_many_tasks input_too_long token_required : SubmitError
  manifest_excludes : String → SubmitError
  bad_manifest bad_type : WorkloadError → SubmitError
  bad_output : OutputPathError → SubmitError

-- The first of these flags that is on the command line.
unfoldable pub first_visited : (String → Bool) → List String → Option String
first_visited visited [] = none
first_visited visited (name ∷ names) =
    let rest = first_visited visited names in if visited name then some name else rest

abbrev pub check_output_flags : (String → Bool) → SubmitOptions → Fallible SubmitError SubmitOptions
check_output_flags visited o =
    if visited "output" && o.output_path == ""
    then err output_requires_path
    else if not (o.output_path == "") && o.manifest_path == ""
    then err output_requires_manifest
    else ok o

abbrev pub unless_excluded :
    Option String → Fallible SubmitError SubmitOptions → Fallible SubmitError SubmitOptions
unless_excluded (some name) rest = err (manifest_excludes name)
unless_excluded none rest = rest

abbrev pub simple_flags : List String
simple_flags = "type" ∷ "input" ∷ "tasks" ∷ []

-- parseSubmitOptions behind the flag package, which gives the options and the flags visited.
unfoldable pub parse_submit_options :
    (String → Bool) → SubmitOptions → Fallible SubmitError SubmitOptions
parse_submit_options visited o =
    if visited "manifest" && o.manifest_path == ""
    then err manifest_requires_path
    else unless_excluded
        (if o.manifest_path == "" then none else first_visited visited simple_flags)
        (check_output_flags visited o)

abbrev pub with_manifest :
    SubmitOptions → Fallible WorkloadError Manifest → Fallible SubmitError SubmitOptions
with_manifest o (err e) = err (bad_manifest e)
with_manifest o (ok m) =
    ok (record o { manifest = some m; task_type = m.type; task_count = pos (length m.tasks) })

abbrev pub unless_bad_type :
    Fallible WorkloadError (Unit {0})
    → Fallible SubmitError SubmitOptions
    → Fallible SubmitError SubmitOptions
unless_bad_type (err e) rest = err (bad_type e)
unless_bad_type (ok _) rest = rest

-- RunSubmit: the tasks, from the manifest's file or from the flags.
unfoldable pub check_workload :
    SubmitOptions → Option (Document Manifest) → Fallible SubmitError SubmitOptions
check_workload o file =
    if not (o.manifest_path == "")
    then with_manifest o (load_manifest o.manifest_path file)
    else if leb_ℤ o.task_count (pos 0)
    then err tasks_not_positive
    else if ltb_ℤ (pos max_tasks) o.task_count
    then err too_many_tasks
    else unless_bad_type (validate_task_type o.task_type)
        (if ltb max_input_bytes (byte_length o.input) then err input_too_long else ok o)

abbrev pub unless_bad_output :
    Fallible OutputPathError (Unit {0})
    → Fallible SubmitError SubmitOptions
    → Fallible SubmitError SubmitOptions
unless_bad_output (err e) rest = err (bad_output e)
unless_bad_output (ok _) rest = rest

abbrev pub check_output : Stat → Stat → SubmitOptions → Fallible SubmitError SubmitOptions
check_output target parent o =
    if o.output_path == ""
    then ok o
    else unless_bad_output (validate_result_output_path o.output_path target parent) (ok o)

-- resolveToken, of the flag and of INOCULUM_TOKEN ("" where it is not set).
unfoldable pub resolve_token : String → String → Fallible SubmitError String
resolve_token flag environment =
    if not (flag == "")
    then ok flag
    else if not (environment == "")
    then ok environment
    else err token_required

-- What the command reads of its surroundings.
pub record Surroundings : Type 0 where
  pub visited : String → Bool
  pub manifest_file : Option (Document Manifest)
  pub target : Stat
  pub parent : Stat
  pub environment : String

abbrev pub with_token :
    SubmitOptions → Fallible SubmitError String → Fallible SubmitError (SubmitOptions × String)
with_token o (err e) = err e
with_token o (ok token) = ok (o, token)

infixl 5 ◌>>=◌
unfoldable pub ◌>>=◌ :
    {A B : Type 0} → Fallible SubmitError A → (A → Fallible SubmitError B) → Fallible SubmitError B
err e >>= next = err e
ok a >>= next = next a

-- RunSubmit up to runSubmit, from the options that the flag package gives.
unfoldable pub prepare :
    Surroundings → SubmitOptions → Fallible SubmitError (SubmitOptions × String)
prepare w flags = parse_submit_options w.visited flags >>= λ o.
    check_workload o w.manifest_file >>= λ o'. check_output w.target w.parent o' >>= λ o''.
    with_token o'' (resolve_token o''.token w.environment)

abbrev pub submit_task : Task → PullSubmitTask
submit_task task = record { key = task.key; input = task.input }

abbrev pub repeated : ℕ → String → List String
repeated zero input = []
repeated (suc n) input = input ∷ repeated n input

abbrev pub request_for : String → String → ℕ → Option Manifest → PullSubmitRequest
request_for task_type input count (some m) = record {
  task_type = task_type;
  inputs = [];
  tasks = map submit_task m.tasks;
}
request_for task_type input count none = record {
  task_type = task_type;
  inputs = repeated count input;
  tasks = [];
}

-- The request of runSubmit.
abbrev pub submit_request : SubmitOptions → PullSubmitRequest
submit_request o = request_for o.task_type o.input (pos_part o.task_count) o.manifest
