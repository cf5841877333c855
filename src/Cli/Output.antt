-- ===== src/Cli/Output.antt =====
-- internal/cli/results.go: the path of the results, and the write of the file.
pub mod Replacing
use inoculum.Shared.{
  String, Bool, true, false, Option, none, some, GoMap, insert, delete, if◌then◌else◌,
  Result as Fallible, ok, err,
}
use inoculum.Text.{append, is_blank}
use inoculum.Types.Wire.{HttpProbeOutput}
use inoculum.Monitor.Model.{JobProgress}
use inoculum.Cli.Results.{ManifestResults, ResultsError, build_manifest_results}

-- Errors of validateResultOutputPath.
pub data OutputPathError : Type 0 where
  path_required is_a_directory parent_not_directory : OutputPathError
  path_failed parent_unavailable : String → OutputPathError

-- What os.Stat says of a path.
pub data Stat : Type 0 where
  missing : Stat
  stat_failed : String → Stat
  found : Bool → Stat

abbrev pub check_parent : Stat → Fallible OutputPathError (Unit {0})
check_parent missing = err (parent_unavailable "no such file or directory")
check_parent (stat_failed e) = err (parent_unavailable e)
check_parent (found true) = ok tt
check_parent (found false) = err parent_not_directory

abbrev pub check_target : Stat → Stat → Fallible OutputPathError (Unit {0})
check_target (found true) parent = err is_a_directory
check_target (found false) parent = check_parent parent
check_target missing parent = check_parent parent
check_target (stat_failed e) parent = err (path_failed e)

-- validateResultOutputPath, given Stat of the cleaned path and of its directory.
pub validate_result_output_path : String → Stat → Stat → Fallible OutputPathError (Unit {0})
validate_result_output_path path target parent =
    if is_blank path then err path_required else check_target target parent

-- Files by their path; and what the system refuses of the calls of writeManifestResults. A write
-- that fails has put down some of the text.
abbrev pub Files : Type 0
Files = GoMap String

pub record Answers : Type 0 where
  pub create : Option String
  pub write : Option (String × String)
  pub sync : Option String
  pub close : Option String
  pub rename : Option String
  pub remove : Option String

pub data WriteResultsError : Type 0 where
  bad_path : OutputPathError → WriteResultsError
  bad_results : ResultsError → WriteResultsError
  encoding creating writing syncing closing replacing : String → WriteResultsError

abbrev pub Written : Type 0
Written = Files × Fallible WriteResultsError (Unit {0})

-- os.Rename, which replaces the file at the target.
abbrev pub rename_temporary : Option String → String → String → String → Files → Written
rename_temporary (some e) temporary target contents d = (d, err (replacing e))
rename_temporary none temporary target contents d =
    (insert target contents (delete temporary d), ok tt)

abbrev pub sync_temporary : Option String → Option String → Files → Written → Written
sync_temporary (some e) closed d next = (d, err (syncing e))
sync_temporary none (some e) d next = (d, err (closing e))
sync_temporary none none d next = next

abbrev pub write_temporary :
    Answers → Option (String × String) → String → String → String → Files → Written
write_temporary a (some (part, e)) temporary target contents d =
    (insert temporary part d, err (writing e))
write_temporary a none temporary target contents d =
    let d' = insert temporary contents d in
    sync_temporary a.sync a.close d' (rename_temporary a.rename temporary target contents d')

-- defer os.Remove(temporaryPath), whose error is dropped
abbrev pub without_temporary : Option String → String → Written → Written
without_temporary (some e) temporary (d, result) = (d, result)
without_temporary none temporary (d, result) = (delete temporary d, result)

abbrev pub create_temporary : Answers → Option String → String → String → String → Files → Written
create_temporary a (some e) temporary target contents d = (d, err (creating e))
create_temporary a none temporary target contents d =
    without_temporary a.remove temporary (write_temporary a a.write temporary target contents d)

-- The file part of writeManifestResults. `temporary` is the name that os.CreateTemp draws, and
-- `target` the cleaned path.
pub replace_file : Answers → String → String → String → Files → Written
replace_file a temporary target contents d = create_temporary a a.create temporary target contents d

-- `decode` is json.Unmarshal to an HTTPProbeOutput, and `encode` json.MarshalIndent.
module _ (decode : String → Fallible String HttpProbeOutput)
    (encode : ManifestResults → Fallible String String) where
  abbrev pub write_encoded : Fallible String String → Answers → String → String → Files → Written
  write_encoded (err e) a temporary target d = (d, err (encoding e))
  write_encoded (ok contents) a temporary target d =
      replace_file a temporary target (append contents "\n") d

  abbrev pub write_document :
      Fallible ResultsError ManifestResults → Answers → String → String → Files → Written
  write_document (err e) a temporary target d = (d, err (bad_results e))
  write_document (ok document) a temporary target d =
      write_encoded (encode document) a temporary target d

  abbrev pub write_checked :
      Fallible OutputPathError (Unit {0})
      → Answers
      → String
      → String
      → JobProgress
      → Files
      → Written
  write_checked (err e) a temporary target job d = (d, err (bad_path e))
  write_checked (ok _) a temporary target job d =
      write_document (build_manifest_results decode job) a temporary target d

  pub write_manifest_results :
      Answers → String → Stat → Stat → String → String → JobProgress → Files → Written
  write_manifest_results a path at_target at_parent temporary target job d =
      write_checked (validate_result_output_path path at_target at_parent) a temporary target job d
