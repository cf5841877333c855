-- ===== src/Worker/Executor.antt =====
-- internal/worker/executor.go: what a task's execution returns. What Go's parsers, its clock and the
-- network answer are arguments.
pub mod Probing
pub mod Examples
use inoculum.Shared.{
  ℕ, ◌+◌, ◌*◌, String, ◌==◌, Bool, true, false, ◌&&◌, ◌||◌, not, Option, none, some, List, [], ◌∷◌,
  ◌++◌, map, length, ltb, leb, if◌then◌else◌, Result as Fallible, ok, err,
}
use inoculum.Shared.Int.{ℤ, pos, pos_part, leb_ℤ, ltb_ℤ}
use inoculum.Text.{append}
use inoculum.Text.Duration.{duration_string}
use inoculum.Text.Search.{codes}
use inoculum.Workload.{http_probe_type}
use inoculum.Types.Wire.{HttpProbeOutput, Result}
use inoculum.Auth.{same_runes, lower}

abbrev pub default_probe_max_redirects : ℕ
default_probe_max_redirects = 5

-- Executor, less its transport
pub record Executor : Type 0 where
  pub probe_timeout : ℤ
  pub probe_max_redirects : ℤ

abbrev pub default_probe_timeout : ℕ
default_probe_timeout = 10 * 1000000000

abbrev pub new_executor : Executor
new_executor = record {
  probe_timeout = pos default_probe_timeout;
  probe_max_redirects = pos default_probe_max_redirects;
}

-- The limit of the context and of the client
abbrev pub timeout_of : Executor → ℕ
timeout_of e =
    if leb_ℤ e.probe_timeout (pos 0) then default_probe_timeout else pos_part e.probe_timeout

-- What execution returns: the output, and the text of the error.
abbrev pub Outcome : Type 0
Outcome = String × Option String

-- executeDiagnosticSleep, given what time.ParseDuration returns
pub execute_diagnostic_sleep : Option ℤ → Outcome
execute_diagnostic_sleep none = ("", some "diagnostic_sleep requires a duration between 1ns and 5m")
execute_diagnostic_sleep (some duration) =
    if leb_ℤ duration (pos 0) || ltb_ℤ (pos (5 * 60 * 1000000000)) duration
    then ("", some "diagnostic_sleep requires a duration between 1ns and 5m")
    else (append "slept for " (duration_string duration), none)

-- What the program reads of a *url.URL.
pub record Url : Type 0 where
  pub scheme : List ℕ
  pub host : String
  pub has_user : Bool
  pub text : String

abbrev pub is_scheme : String → List ℕ → Bool
is_scheme name scheme = same_runes scheme (codes name)

abbrev pub is_http : List ℕ → Bool
is_http scheme = is_scheme "http" scheme || is_scheme "https" scheme

-- The categories, with the messages that go with them.
abbrev pub Blame : Type 0
Blame = String × String

-- validateProbeURL, given what url.ParseRequestURI returns. strings.ToLower gives "http" or "https"
-- of ASCII letters only; the long s, whose upper case is S, has no lower case of its own.
pub validate_probe_url : Option Url → Fallible Blame Url
validate_probe_url none = err ("invalid_url", "HTTP probe requires a valid absolute URL")
validate_probe_url (some target) =
    if target.host == ""
    then err ("invalid_url", "HTTP probe requires a valid absolute URL")
    else if not (is_http (map lower target.scheme))
    then err ("unsupported_scheme", "HTTP probe allows only http and https URLs")
    else if target.has_user
    then err ("url_credentials", "HTTP probe URLs must not contain credentials")
    else ok (record target { scheme = map lower target.scheme })

-- What errors.Is and errors.As find in the chain of an error.
pub record ProbeError : Type 0 where
  pub is_deadline : Bool
  pub is_redirect_limit : Bool
  pub is_dns : Bool
  pub is_certificate : Bool
  pub is_unknown_authority : Bool
  pub is_hostname : Bool
  pub is_operation : Bool

pub classify_probe_error : ProbeError → Blame
classify_probe_error e =
    if e.is_deadline
    then ("timeout", "HTTP probe timed out")
    else if e.is_redirect_limit
    then ("redirect_limit", "HTTP probe exceeded the 5-redirect limit")
    else if e.is_dns
    then ("dns", "HTTP probe DNS lookup failed")
    else if e.is_certificate || e.is_unknown_authority || e.is_hostname
    then ("tls", "HTTP probe TLS verification failed")
    else if e.is_operation
    then ("connection", "HTTP probe connection failed")
    else ("request", "HTTP probe request failed")

abbrev pub other_error : ProbeError
other_error = record {
  is_deadline = false;
  is_redirect_limit = false;
  is_dns = false;
  is_certificate = false;
  is_unknown_authority = false;
  is_hostname = false;
  is_operation = false;
}

-- The limit in force, and CheckRedirect: `none` lets the request go out that follows `via` others.
abbrev pub redirect_limit : Executor → ℕ
redirect_limit e =
    if leb_ℤ e.probe_max_redirects (pos 0)
    then default_probe_max_redirects
    else pos_part e.probe_max_redirects

pub check_redirect : ℕ → ℕ → Url → Option ProbeError
check_redirect limit via url =
    if ltb limit via
    then some (record other_error { is_redirect_limit = true })
    else if not (is_http url.scheme)
    then some other_error
    else if url.has_user
    then some other_error
    else none

-- What comes back of a request: an error, a redirect, or the response that Do returns, with what the
-- probe reports of it.
pub data Hop : Type 0 where
  failure : ProbeError → Hop
  redirect : Url → Hop
  response : ℕ → Option ℕ → String → Hop

-- client.Do: the requests that go out, and how it ends. `none` is an ending behind the hops given.
pub data Ending : Type 0 where
  waiting : Ending
  failed : ProbeError → Ending
  answered : Url → ℕ → Option ℕ → String → Ending

abbrev pub onward : Url → Option ProbeError → List Url × Ending → List Url × Ending
onward url (some e) rest = (url ∷ [], failed e)
onward url none (urls, ending) = (url ∷ urls, ending)

pub follow : ℕ → ℕ → Url → List Hop → List Url × Ending
follow limit via url [] = (url ∷ [], waiting)
follow limit via url (failure e ∷ hops) = (url ∷ [], failed e)
follow limit via url (response code size expiry ∷ hops) = (url ∷ [], answered url code size expiry)
follow limit via url (redirect next ∷ hops) =
    onward url (check_redirect limit (via + 1) next) (follow limit (via + 1) next hops)

abbrev pub failure_output : ℕ → Blame → HttpProbeOutput
failure_output elapsed (category, message) = record {
  status_code = 0;
  final_url = "";
  elapsed_milliseconds = elapsed;
  declared_content_length = none;
  tls_certificate_expiry = "";
  error_category = category;
  error_message = message;
}

-- `encode` is json.Marshal of an output, which does not fail.
module _ (encode : HttpProbeOutput → String) where
  pub marshal_probe_failure : ℕ → Blame → Outcome
  marshal_probe_failure elapsed (category, message) =
      (encode (failure_output elapsed (category, message)), some message)

  -- executeHTTPProbe behind client.Do
  pub probe_outcome : ℕ → Ending → Option Outcome
  probe_outcome elapsed waiting = none
  probe_outcome elapsed (failed e) = some (marshal_probe_failure elapsed (classify_probe_error e))
  probe_outcome elapsed (answered url code size expiry) = some (
    encode (record {
      status_code = code;
      final_url = url.text;
      elapsed_milliseconds = elapsed;
      declared_content_length = size;
      tls_certificate_expiry = expiry;
      error_category = "";
      error_message = "";
    }),
    none,
  )

  abbrev pub send_probe :
      Executor → ℕ → Bool → Fallible Blame Url → List Hop → List Url × Option Outcome
  send_probe e elapsed created (err blame) hops = ([], some (marshal_probe_failure elapsed blame))
  send_probe e elapsed false (ok target) hops = (
    [],
    some (marshal_probe_failure elapsed ("invalid_url", "could not create HTTP probe request")),
  )
  send_probe e elapsed true (ok target) hops =
      let (urls, ending) = follow (redirect_limit e) 0 target hops in
      (urls, probe_outcome elapsed ending)

  -- executeHTTPProbe, with the requests that it sends. `created` is whether NewRequestWithContext
  -- returns no error.
  pub execute_http_probe : Executor → ℕ → Bool → Option Url → List Hop → List Url × Option Outcome
  execute_http_probe e elapsed created parsed hops =
      send_probe e elapsed created (validate_probe_url parsed) hops

  -- Execute, with the requests that it sends
  pub execute :
      Executor → ℕ → String → Option ℤ → Bool → Option Url → List Hop → List Url × Option Outcome
  execute e elapsed task_type duration created url hops =
      if task_type == "diagnostic_sleep"
      then ([], some (execute_diagnostic_sleep duration))
      else if task_type == http_probe_type
      then execute_http_probe e elapsed created url hops
      else ([], some ("", some (append "unknown task type: " task_type)))

-- The result that executeClaim makes of an execution.
abbrev pub result_of : String → Outcome → ℕ → Result
result_of task_id (output, error) duration = record {
  task_id = task_id;
  output = output;
  error = elim error [ none ↦ "" | some message ↦ message ];
  duration = pos duration;
  duration_str = duration_string (pos duration);
}
