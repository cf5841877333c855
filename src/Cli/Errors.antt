-- ===== src/Cli/Errors.antt =====
-- internal/cli/errors.go: the classes of errors, and the exit code of each.
use inoculum.Shared.{ℕ, String, Bool, true, false, Option, none, some, List, [], ◌∷◌, if◌then◌else◌}
use inoculum.Presentation.Errors.{friendly_error}

-- An error with what it wraps. `help` is flag.ErrHelp; `plain` is an error of another package.
pub data CliError : Type 0 where
  help : CliError
  plain : String → CliError
  usage_error : CliError → Bool → CliError
  command_error : CliError → Bool → Bool → CliError

pub error_text : CliError → String
error_text help = "flag: help requested"
error_text (plain text) = text
error_text (usage_error e reported) = error_text e
error_text (command_error e verbose reported) = error_text e

abbrev pub usage_errorf : String → CliError
usage_errorf text = usage_error (plain text) false

abbrev pub reported_usage_error : CliError → CliError
reported_usage_error e = usage_error e true

abbrev pub runtime_error : Option CliError → Bool → Option CliError
runtime_error none verbose = none
runtime_error (some e) verbose = some (command_error e verbose false)

abbrev pub reported_runtime_error : Option CliError → Option CliError
reported_runtime_error none = none
reported_runtime_error (some e) = some (command_error e false true)

-- errors.Is(err, flag.ErrHelp), and errors.As for the two classes: the first one of the chain
unfoldable pub is_help : CliError → Bool
is_help help = true
is_help (plain text) = false
is_help (usage_error e reported) = is_help e
is_help (command_error e verbose reported) = is_help e

unfoldable pub as_usage : CliError → Option (CliError × Bool)
as_usage help = none
as_usage (plain text) = none
as_usage (usage_error e reported) = some (e, reported)
as_usage (command_error e verbose reported) = as_usage e

unfoldable pub as_command : CliError → Option (CliError × Bool × Bool)
as_command help = none
as_command (plain text) = none
as_command (usage_error e reported) = as_command e
as_command (command_error e verbose reported) = some (e, verbose, reported)

-- The exit code, with what is written to the error stream.
abbrev pub Exit : Type 0
Exit = ℕ × List String

abbrev pub usage_exit : CliError × Bool → Exit
usage_exit (e, reported) = (2, if reported then [] else error_text e ∷ [])

abbrev pub command_exit : CliError → Option (CliError × Bool × Bool) → Exit
command_exit e none = (1, friendly_error (error_text e) false ∷ [])
command_exit e (some (inner, verbose, reported)) =
    (1, if reported then [] else friendly_error (error_text inner) verbose ∷ [])

abbrev pub error_exit : CliError → Option (CliError × Bool) → Exit
error_exit e (some usage) = usage_exit usage
error_exit e none = command_exit e (as_command e)

unfoldable pub render_exit : Option CliError → Exit
render_exit none = (0, [])
render_exit (some e) = if is_help e then (0, []) else error_exit e (as_usage e)
