-- ===== src/Cli/Root.antt =====
-- internal/cli/root.go: the choice of a command.
use inoculum.Shared.{
  ℕ, String, ◌==◌, Bool, ◌||◌, Option, none, some, List, [], ◌∷◌, map, GoMap, lookup, if◌then◌else◌,
}
use inoculum.Text.{append}
use inoculum.Text.Search.{codes, begins}
use inoculum.Cli.Errors.{CliError, render_exit}

-- A line of output. The two lines that quote an argument print it with %q.
pub data Line : Type 0 where
  text : String → Line
  unknown_root_flag : String → Line
  unknown_command : String → Line

pub record Run : Type 0 where
  pub code : ℕ
  pub stdout : List Line
  pub stderr : List Line

abbrev pub root_help : List Line
root_help =
    text "Inoculum runs independent tasks across machines on a trusted LAN."
    ∷ text ""
    ∷ text "Usage:"
    ∷ text "  inoculum <command> [flags]"
    ∷ text ""
    ∷ text "Commands:"
    ∷ text "  coordinator   Start the task coordinator"
    ∷ text "  worker        Connect a worker to a coordinator"
    ∷ text "  submit        Submit independent tasks and wait for completion"
    ∷ text ""
    ∷ text "Options:"
    ∷ text "  --version     Print the Inoculum version"
    ∷ text ""
    ∷ text "Run \"inoculum <command> --help\" for command-specific options."
    ∷ []

abbrev pub is_root_help : String → Bool
is_root_help argument = argument == "--help" || argument == "-h" || argument == "-help"

abbrev pub is_flag : String → Bool
is_flag argument = begins (codes "-") (codes argument)

abbrev pub failing : List Line → Run
failing lines = record { code = 2; stdout = []; stderr = lines }

abbrev pub printing : List Line → Run
printing lines = record { code = 0; stdout = lines; stderr = [] }

abbrev pub see_help : Line
see_help = text "Run \"inoculum --help\" for available commands."

-- A command, from its arguments to its error; what it prints itself is not shown here.
abbrev pub CommandRunner : Type 0
CommandRunner = List String → Option CliError

abbrev pub run_command : Option CommandRunner → String → List String → Run
run_command none name args = failing (unknown_command name ∷ text "" ∷ see_help ∷ [])
run_command (some runner) name args =
    let (code, lines) = render_exit (runner args) in
    record { code = code; stdout = []; stderr = map text lines }

abbrev pub without_arguments : List String → String → List Line → Run
without_arguments [] complaint lines = printing lines
without_arguments (a ∷ args) complaint lines = failing (text complaint ∷ [])

pub main_with_commands : String → List String → GoMap CommandRunner → Run
main_with_commands version [] commands =
    failing (text "A command is required." ∷ text "" ∷ root_help)
main_with_commands version (first ∷ args) commands =
    if is_root_help first
    then without_arguments args "root help does not accept additional arguments" root_help
    else if first == "--version"
    then without_arguments args "--version does not accept additional arguments"
        (text (append "inoculum " version) ∷ [])
    else if is_flag first
    then failing (unknown_root_flag first ∷ text "" ∷ see_help ∷ [])
    else run_command (lookup first commands) first args
