-- ===== src/Cli/Roles/Starting.antt =====
-- internal/cli/worker.go and coordinator.go: what the checks of the options are good for.
use inoculum.Shared.{
  ◌≡◌, ◌≢◌, refl, sym, ap, ◌∙◌, subst, ℕ, String, ◌==◌, ◌||◌, not, Bool, true, false, [],
  if◌then◌else◌, Result as Fallible, ok, err, arith, eq_iff, passed, ok_inj,
}
use inoculum.Shared.Int.{pos, pos_part, leb_ℤ, ltb_ℤ}
use inoculum.Crypto.Disk.{Disk}
use inoculum.LeaseQueue
use inoculum.LeaseQueue.{ConfigError, Queue, new}
use inoculum.Coordinator.Server.{Server, Config, policy, server_with, new_server}
use inoculum.Worker.Config.{PullConfig, PullConfigError, PullWorker, no_paths, untrusted}
use inoculum.Cli.Submit.{SubmitError, resolve_token}
use inoculum.Cli.Roles.{
  RoleError, CoordinatorOptions, with_token, prepare_coordinator, server_config,
}

resolve_token-nonempty :
    (flag environment token : String)
    → resolve_token flag environment ≡ ok token
    → token == "" ≡ false
unfolding resolve_token
resolve_token-nonempty flag environment token h =
    by_flag (flag == "") refl (environment == "") refl h
  where
    by_flag :
        (f : Bool)
        → flag == "" ≡ f
        → (e : Bool) → environment == "" ≡ e
        → (if not f
            then ok flag
            else if not e
            then ok environment
            else err SubmitError.token_required)
          ≡ ok token
        → token == "" ≡ false
    by_flag false is e is_e h = ap (λ t. t == "") (sym (ok_inj h)) ∙ is
    by_flag true is false is_e h = ap (λ t. t == "") (sym (ok_inj h)) ∙ is_e
    by_flag true is true is_e h = absurd (ground (arith, h))

with_token-same :
    {A : Type 0} (o : A) (resolved : Fallible SubmitError String) (o' : A) (token : String)
    → with_token o resolved ≡ ok (o', token)
    → (o ≡ o') × (resolved ≡ ok token)
with_token-same o (err e) o' token h = absurd (ground (arith, h))
with_token-same {A} o (ok t) o' token h = (ap (λ p. p.0) (pair h), ap ok (ap (λ p. p.1) (pair h)))
  where
    pair : {a b : A × String} → ◌≡◌ {A = Fallible RoleError (A × String)} (ok a) (ok b) → a ≡ b
    pair h = cc

-- A server that NewServer returns, with a token.
abbrev pub Starts : String → Fallible ConfigError Server → Type 0
Starts token (err e) = ⊥
Starts token (ok s) = (s.token ≡ token) × (token ≢ "")

empty_queue : LeaseQueue.Config → Queue
empty_queue config = record {
  lease_duration = pos_part config.lease_duration;
  max_attempts = pos_part config.max_attempts;
  queued = [];
  order = [];
  tasks = [];
}

new-empty_queue :
    (config : LeaseQueue.Config)
    → leb_ℤ config.lease_duration (pos 0) ≡ false
    → leb_ℤ config.max_attempts (pos 0) ≡ false
    → new config ≡ ok (empty_queue config)
unfolding new empty_queue
new-empty_queue config lease attempts = rw (lease, attempts) refl

prepare_coordinator-passes :
    (environment : String) (flags o : CoordinatorOptions) (token : String)
    → prepare_coordinator environment flags ≡ ok (o, token)
    → (token ≢ "")
      × (leb_ℤ o.lease_duration (pos 0) ≡ false)
      × (leb_ℤ o.max_attempts (pos 0) ≡ false)
unfolding prepare_coordinator
prepare_coordinator-passes environment flags o token h =
    let (_, h₁) = passed (ltb_ℤ flags.port (pos 1) || ltb_ℤ (pos 65535) flags.port) _ _ h in
    let (lease, h₂) = passed (leb_ℤ flags.lease_duration (pos 0)) _ _ h₁ in
    let (attempts, h₃) = passed (ltb_ℤ flags.max_attempts (pos 1)) _ _ h₂ in
    let (same, resolved) =
      with_token-same flags (resolve_token flags.token environment) o token h₃ in
    let full = resolve_token-nonempty flags.token environment token resolved in
    let some_attempts : leb_ℤ flags.max_attempts (pos 0) ≡ false = ground (arith, attempts) in
    (
      λ e. absurd (ground (arith, sym full ∙ (eq_iff token "").1 e)),
      ap (λ x. leb_ℤ x.lease_duration (pos 0)) (sym same) ∙ lease,
      ap (λ x. leb_ℤ x.max_attempts (pos 0)) (sym same) ∙ some_attempts,
    )

new_server-server_with :
    (now : ℕ) (config : Config) (q : Queue)
    → new (policy config) ≡ ok q
    → new_server now config ≡ ok (server_with now config q)
unfolding new_server
new_server-server_with now config q h = ground (arith, h)

-- If the checks of the coordinator command let its options pass, NewServer accepts the configuration
-- that is made of them, and the server has the token that was resolved, which is not empty.
pub prepare_coordinator-Starts :
    (environment : String) (now : ℕ) (flags o : CoordinatorOptions) (token : String)
    → prepare_coordinator environment flags ≡ ok (o, token)
    → Starts token (new_server now (server_config o token))
prepare_coordinator-Starts environment now flags o token h =
    let (full, lease, attempts) = prepare_coordinator-passes environment flags o token h in
    let config = server_config o token in
    let q = empty_queue (policy config) in
    let made =
      new_server-server_with now config q (new-empty_queue (policy config) lease attempts) in
    subst (Starts token) (sym made) (refl, full)

-- What is left to go wrong: the paths of the configuration, and the trust in the coordinator.
abbrev pub Joins : PullConfig → Fallible PullConfigError PullWorker → Type 0
Joins config (ok w) = w.config ≡ config
Joins config (err (no_paths e)) = Unit
Joins config (err (untrusted e)) = Unit
Joins config (err _) = ⊥
