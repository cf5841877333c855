-- ===== src/Cli/Output/Replacing.antt =====
-- internal/cli/results.go: the results file is replaced as a whole or not at all.
use inoculum.Shared.{◌≡◌, ◌≢◌, String, some, lookup, Result as Fallible, ok, err}
use inoculum.Types.Wire.{HttpProbeOutput}
use inoculum.Monitor.Model.{JobProgress}
use inoculum.Text.{append}
use inoculum.Cli.Results.{ManifestResults, build_manifest_results}
use inoculum.Cli.Output.{Files, WriteResultsError, Written}

-- Apart from the target and the temporary file, every file is as before.
abbrev pub OthersKept : String → String → Files → Files → Type 0
OthersKept temporary target d d' =
    (path : String) → path ≢ target → path ≢ temporary → lookup path d' ≡ lookup path d

-- The target holds the new text if there is no error, and else what it held before.
abbrev pub TargetHolds :
    String → String → Files → Files → Fallible WriteResultsError (Unit {0}) → Type 0
TargetHolds target contents d d' (ok _) = lookup target d' ≡ some contents
TargetHolds target contents d d' (err e) = lookup target d' ≡ lookup target d

abbrev pub Replaces : String → String → String → Files → Written → Type 0
Replaces temporary target contents d (d', result) =
    OthersKept temporary target d d' × TargetHolds target contents d d' result

-- The target holds a job's document if there is no error, and else what it held before.
abbrev pub TargetShows :
    (String → Fallible String HttpProbeOutput)
    → (ManifestResults → Fallible String String)
    → String
    → JobProgress
    → Files
    → Written
    → Type 0
TargetShows decode encode target job d (d', err e) = lookup target d' ≡ lookup target d
TargetShows decode encode target job d (d', ok _) =
    (document : ManifestResults) × (contents : String) × (build_manifest_results decode job
      ≡ ok document)
    × (encode document ≡ ok contents)
    × (lookup target d' ≡ some (append contents "\n"))

abbrev pub Shows :
    (String → Fallible String HttpProbeOutput)
    → (ManifestResults → Fallible String String)
    → String
    → String
    → JobProgress
    → Files
    → Written
    → Type 0
Shows decode encode temporary target job d w =
    OthersKept temporary target d w.0 × TargetShows decode encode target job d w
