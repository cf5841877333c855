-- ===== src/Coordinator/Requests.antt =====
-- internal/coordinator/server.go: a server's life, any requests to its routes in any order. The
-- handlers run one after the other here; see LeaseQueue.History for the queue under interleaving.
use inoculum.Shared.{
  ℕ, ◌≡◌, refl, String, Option, some, List, [], ◌∷◌, ok, err, Result as Fallible, ◌>>=◌, subst, ap,
  ◌∙◌, arith,
}
use inoculum.Shared.Int.{pos}
use inoculum.Types.Wire.{PullClaimRequest, PullRenewRequest, PullResultRequest, PullSubmitRequest}
use inoculum.LeaseQueue.{Queue, new, ConfigError}
use inoculum.LeaseQueue.Preservation.{new-IsValid}
use inoculum.Monitor.Recorder.{new_recorder-IsBounded}
use inoculum.Coordinator.Http.{Request, Query, Response}
use inoculum.Coordinator.Server.{Server, Clock, Config, new_server, policy, server_with}
use inoculum.Coordinator.Pull.{handle_pull_claim, handle_pull_renew, handle_pull_result}
use inoculum.Coordinator.Submit.{handle_pull_submit}
use inoculum.Coordinator.Jobs.{handle_pull_job}
use inoculum.Coordinator.Status.{handle_pull_status}
use inoculum.Coordinator.Soundness.{IsSound, Keeps, Keeps-refl, Keeps-trans, Serves}
use inoculum.Coordinator.Handlers.{
  handle_pull_claim-Serves, handle_pull_renew-Serves, handle_pull_result-Serves,
  handle_pull_submit-Serves, handle_pull_job-Serves, handle_pull_status-Serves,
}

-- The routes that `routes` registers, with what the handler reads from outside the server.
pub data Call : Type 0 where
  worker_claim : Clock → String → Request PullClaimRequest → Call
  worker_renew : Clock → Request PullRenewRequest → Call
  worker_result : Clock → Request PullResultRequest → Call
  pull_submit : Clock → Request PullSubmitRequest → Call
  pull_job : Clock → Query → Call
  status : Clock → ℕ → Query → Call

unfoldable pub step : Call → Server → Option Server
step (worker_claim clock lease_id r) s = do (s', _) ← handle_pull_claim clock lease_id r s; some s'
step (worker_renew clock r) s = do (s', _) ← handle_pull_renew clock r s; some s'
step (worker_result clock r) s = do (s', _) ← handle_pull_result clock r s; some s'
step (pull_submit clock r) s = do (s', _) ← handle_pull_submit clock r s; some s'
step (pull_job clock r) s = do (s', _) ← handle_pull_job clock r s; some s'
step (status clock uptime r) s = do (s', _) ← handle_pull_status clock uptime r s; some s'

unfoldable pub run : List Call → Server → Option Server
run [] s = some s
run (call ∷ calls) s = do s' ← step call s; run calls s'

served :
    {R : Type 0} (s : Server) (m : Option (Server × Response R))
    → Serves s m
    → (s' : Server) × ((m >>= λ r. some r.0) ≡ some s') × Keeps s s'
unfolding Serves
served s m (s', r, runs, k) = (s', ap (λ o. o >>= λ r. some r.0) runs, k)

pub step_lem :
    (call : Call) (s : Server) → IsSound s → (s' : Server) × (step call s ≡ some s') × Keeps s s'
unfolding step
step_lem (worker_claim clock lease_id r) s d =
    served s _ (handle_pull_claim-Serves clock lease_id r s d)
step_lem (worker_renew clock r) s d = served s _ (handle_pull_renew-Serves clock r s d)
step_lem (worker_result clock r) s d = served s _ (handle_pull_result-Serves clock r s d)
step_lem (pull_submit clock r) s d = served s _ (handle_pull_submit-Serves clock r s d)
step_lem (pull_job clock r) s d = served s _ (handle_pull_job-Serves clock r s d)
step_lem (status clock uptime r) s d = served s _ (handle_pull_status-Serves clock uptime r s d)

-- From a sound server on, every sequence of requests is answered, and keeps the server sound.
pub run-Keeps :
    (calls : List Call) (s : Server)
    → IsSound s
    → (s' : Server) × (run calls s ≡ some s') × Keeps s s'
unfolding run
run-Keeps [] s d = (s, refl, Keeps-refl s d)
run-Keeps (call ∷ calls) s d =
    let (s', steps, k) = step_lem call s d in
    let (s'', runs, l) = run-Keeps calls s' k.sound in
    (s'', ap (λ o. o >>= run calls) steps ∙ runs, Keeps-trans s s' s'' k l)

-- What NewServer returns.
pub record IsFresh (config : Config) (s : Server) : Type 0 where
  pub sound : IsSound s
  pub room : s.events.limit ≡ 100
  pub token : s.token ≡ config.token

pub new_server-IsFresh :
    (now : ℕ) (config : Config) (s : Server) → new_server now config ≡ ok s → IsFresh config s
unfolding new_server
new_server-IsFresh now config s e = made (new (policy config)) refl e
  where
    made :
        (r : Fallible ConfigError Queue)
        → new (policy config) ≡ r
        → (elim r [ err e ↦ err e | ok q ↦ ok (server_with now config q) ]) ≡ ok s
        → IsFresh config s
    made (err x) is h = ground arith
    made (ok q) is h =
        let same : server_with now config q ≡ s = cc h in
        let sound : IsSound (server_with now config q) = record {
          queue = new-IsValid (policy config) q is;
          events = new_recorder-IsBounded (pos 100);
        } in
        subst (IsFresh config) same (record { sound = sound; room = refl; token = refl })
