-- ===== src/Coordinator/Routes.antt =====
-- internal/coordinator/server.go: routes, the handlers behind the bearer check.
pub mod Examples
use inoculum.Shared.{
  ℕ, String, Bool, true, false, Option, some, List, [], ◌∷◌, if◌then◌else◌, ◌>>=◌, not,
}
use inoculum.Text.Search.{codes}
use inoculum.Types.Wire.{PullSubmitResponse, PullJobResponse, CoordinatorStatusResponse}
use inoculum.Auth.{Runes, with_bearer_auth, is_authorized, presented_token}
use inoculum.Coordinator.Http.{Response, PullClaimResponse, PullRenewResponse, PullResultResponse}
use inoculum.Coordinator.Server.{Server}
use inoculum.Coordinator.Soundness.{Keeps}
use inoculum.Coordinator.Pull.{handle_pull_claim, handle_pull_renew, handle_pull_result}
use inoculum.Coordinator.Submit.{handle_pull_submit, Answer}
use inoculum.Coordinator.Jobs.{handle_pull_job}
use inoculum.Coordinator.Status.{handle_pull_status}
use inoculum.Coordinator.Requests.{
  Call, worker_claim, worker_renew, worker_result, pull_submit, pull_job, status,
}

-- The response of each route, and http.Error of WithBearerAuth.
pub data Answered : Type 0 where
  refused : Answered
  claimed : Response PullClaimResponse → Answered
  renewed : Response PullRenewResponse → Answered
  resulted : Response PullResultResponse → Answered
  queued : Response (Answer PullSubmitResponse) → Answered
  reported : Response (Answer PullJobResponse) → Answered
  counted : Response CoordinatorStatusResponse → Answered

abbrev pub tagged : {R : Type 0} → (R → Answered) → Option (Server × R) → Option (Server × Answered)
tagged tag m = m >>= λ r. some (r.0, tag r.1)

-- The handler of a route.
pub handler : Call → Server → Option (Server × Answered)
handler (worker_claim clock lease_id r) s = tagged claimed (handle_pull_claim clock lease_id r s)
handler (worker_renew clock r) s = tagged renewed (handle_pull_renew clock r s)
handler (worker_result clock r) s = tagged resulted (handle_pull_result clock r s)
handler (pull_submit clock r) s = tagged queued (handle_pull_submit clock r s)
handler (pull_job clock r) s = tagged reported (handle_pull_job clock r s)
handler (status clock uptime r) s = tagged counted (handle_pull_status clock uptime r s)

-- What `routes` registers: the handler behind the check of the server's token.
pub serve : (Runes → Runes) → List Runes → Call → Server → Option (Server × Answered)
serve sha256 headers call s =
    with_bearer_auth sha256 (codes s.token) (handler call) refused headers s

-- Requests with the values of their Authorization headers.
pub serve_all : (Runes → Runes) → List (List Runes × Call) → Server → Option Server
serve_all sha256 [] s = some s
serve_all sha256 ((headers, call) ∷ requests) s =
    serve sha256 headers call s >>= λ r. serve_all sha256 requests r.0

-- The calls of the requests that present the token.
abbrev pub admitted : (Runes → Runes) → Runes → List (List Runes × Call) → List Call
admitted sha256 token [] = []
admitted sha256 token ((headers, call) ∷ requests) =
    let rest = admitted sha256 token requests in
    if is_authorized sha256 token (presented_token headers) then call ∷ rest else rest
