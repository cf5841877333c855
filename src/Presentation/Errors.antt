-- ===== src/Presentation/Errors.antt =====
-- internal/presentation/errors.go: FriendlyError.
use inoculum.Shared.{String, Bool, ◌||◌, if◌then◌else◌}
use inoculum.Text.{append}
use inoculum.Text.Search.{contains_lower}
use inoculum.Presentation.Format.{safe_text}

-- The summary and the advice, for a verbose user with the message behind them.
abbrev pub advise : String → Bool → String → String → String
advise message verbose summary advice =
    if verbose
    then append summary (append "\n\n" (append advice (append "\n\nDetail: " message)))
    else append summary (append "\n\n" advice)

pub friendly_message : String → Bool → String
friendly_message message verbose =
    if contains_lower message "no coordinator identity is trusted"
    then advise message verbose "No coordinator identity is trusted yet."
        "Copy the fingerprint from the coordinator and reconnect with:\n--coordinator-fingerprint <fingerprint>"
    else if contains_lower message "http 401" || contains_lower message "authentication rejected"
    then advise message verbose "Authentication failed."
        "The coordinator rejected the token. Check INOCULUM_TOKEN or -token."
    else if contains_lower message "fingerprint mismatch"
        || contains_lower message "certificate changed"
        || contains_lower message "coordinator identity mismatch"
    then advise message verbose "The coordinator identity does not match the trusted fingerprint."
        "Connection refused. The stored trust was not bypassed."
    else if contains_lower message "coordinator identity could not be loaded safely"
    then advise message verbose "Coordinator identity could not be loaded safely."
        "Check the certificate and key in the reported configuration path. Inoculum did not replace them."
    else if contains_lower message "connection refused" || contains_lower message "no such host"
    then advise message verbose "Coordinator unavailable."
        "Check the coordinator address and confirm the coordinator is running."
    else message

-- FriendlyError, of an error with this text
pub friendly_error : String → Bool → String
friendly_error text verbose = friendly_message (safe_text text) verbose
