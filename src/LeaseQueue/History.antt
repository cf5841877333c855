-- ===== src/LeaseQueue/History.antt =====
-- internal/leasequeue/queue.go: a queue's history, any calls of its methods in any order, at any
-- readings of the clock. Methods hold the mutex, so a run of the program is such a sequence.
use inoculum.Shared.{
  ℕ, ◌≤◌, String, ◌==◌, ◌≡◌, refl, ap, ◌∙◌, true, Option, some, List, [], ◌∷◌, arith, lookup,
  Bool-cases, ok, err, subst, ◌>>=◌, eq_iff, inl, inr,
}
use inoculum.LeaseQueue.Tasks.{Task, Assignment, invalid_worker, TaskSpec, Result, is_terminal}
use inoculum.LeaseQueue.{
  Queue, Config, new, enqueue, claim, renew, complete, requeue_expired, expire_locked, get,
  job_tasks, snapshot, observe, stats, spec_of,
}
use inoculum.LeaseQueue.Invariant.{IsValid, Fits-attempts}
use inoculum.LeaseQueue.Expiry.{Expires, expire_locked_lem}
use inoculum.LeaseQueue.Lifecycle.{
  Lifecycle-attempts, Advances, Advances-refl, Advances-trans, Lifecycle-spec, Lifecycle-terminal,
}
use inoculum.LeaseQueue.Claims.{
  Claimed-policy, claim_lem, Claimed-IsValid, Claimed-Advances, Claimed,
}
use inoculum.LeaseQueue.Outcomes.{renew_lem, complete_lem}
use inoculum.LeaseQueue.Preservation.{
  Renewed-policy, Completed-policy, enqueue-policy, new-IsValid, enqueue_keeps, Renewed-IsValid,
  Renewed-Advances, Completed-IsValid, Completed-Advances, Expires-Advances,
}
use inoculum.LeaseQueue.Views.{snapshot_lem, job_tasks_lem, get_lem, stats_lem, observe_lem}

pub data Call : Type 0 where
  enqueues : TaskSpec → Call
  claims : String → ℕ → String → Call
  renews : String → String → String → ℕ → Call
  completes : String → String → String → Result → ℕ → Call
  requeues_expired : ℕ → Call
  gets : String → ℕ → Call
  reads_job : String → ℕ → Call
  snapshots : ℕ → Call
  observes : Call
  counts : ℕ → Call

-- The queue after a call, or the panic.
unfoldable pub step : Queue → Call → Option Queue
step q (enqueues spec) = some (enqueue spec q).0
step q (claims w now l) = do r ← claim w now l q; some r.0
step q (renews t l w now) = some (renew t l w now q).0
step q (completes t l w r now) = some (complete t l w r now q).0
step q (requeues_expired now) = do r ← requeue_expired now q; some r.0
step q (gets t now) = do r ← get t now q; some r.0
step q (reads_job j now) = do r ← job_tasks j now q; some r.0
step q (snapshots now) = do r ← snapshot now q; some r.0
step q observes = do r ← observe q; some q
step q (counts now) = do r ← stats now q; some r.0

unfoldable pub run : Queue → List Call → Option Queue
run q [] = some q
run q (c ∷ cs) = do q' ← step q c; run q' cs

pub claim-nameless :
    (w : String) (now : ℕ) (l : String) (q : Queue)
    → (w == "") ≡ true
    → claim w now l q ≡ some (q, err invalid_worker)
unfolding claim
claim-nameless w now l q e = rw e

-- What holds between a queue and a later one.
pub record Follows (q q' : Queue) : Type 0 where
  pub valid : IsValid q'
  pub limit : q'.max_attempts ≡ q.max_attempts
  pub term : q'.lease_duration ≡ q.lease_duration
  pub advances : Advances q.max_attempts q.tasks q'.tasks

pub Follows-refl : (q : Queue) → IsValid q → Follows q q
Follows-refl q v = record {
  valid = v;
  limit = refl;
  term = refl;
  advances = Advances-refl q.max_attempts q.tasks;
}

pub Follows-trans : (q q' q'' : Queue) → Follows q q' → Follows q' q'' → Follows q q''
Follows-trans q q' q'' f g = record {
  valid = g.valid;
  limit = g.limit ∙ f.limit;
  term = g.term ∙ f.term;
  advances =
      Advances-trans q.max_attempts q.tasks q'.tasks q''.tasks f.advances
        (subst (λ n. Advances n q'.tasks q''.tasks) f.limit g.advances);
}

Expires-Follows :
    (now : ℕ) (q q' : Queue) (expired : List String) → Expires now q q' expired → Follows q q'
Expires-Follows now q q' expired s = record {
  valid = s.valid;
  limit = s.limit;
  term = s.term;
  advances = Expires-Advances now s;
}

abbrev Goes : Queue → Call → Type 0
Goes q c = (q' : Queue) × (step q c ≡ some q') × Follows q q'

goes :
    (q q' : Queue) (c : Call) {A : Type 0} (m : Option (Queue × A)) {a : A}
    → (step q c ≡ (m >>= λ r. some r.0))
    → m ≡ some (q', a)
    → Follows q q'
    → Goes q c
goes q q' c m e runs f = (q', e ∙ ap (λ x. x >>= λ r. some r.0) runs, f)

Claimed-Follows :
    (w : String) (now : ℕ) (l : String) (q q' : Queue) (a : Option Assignment)
    → IsValid q
    → Claimed w now l q q' a
    → Follows q q'
Claimed-Follows w now l q q' a v d =
    let policy = Claimed-policy w now l d in
    record {
      valid = Claimed-IsValid w now l v d;
      limit = policy.0;
      term = policy.1;
      advances = Claimed-Advances w now l d;
    }

-- Every call on a valid queue returns, and leaves a valid queue that follows it.
pub step_lem : (q : Queue) (c : Call) → IsValid q → Goes q c
unfolding step requeue_expired
step_lem q (enqueues spec) v =
    let (valid, advances) = enqueue_keeps spec q v in
    let policy = enqueue-policy spec q in
    (_, refl, record { valid = valid; limit = policy.0; term = policy.1; advances = advances })
step_lem q (claims w now l) v = elim (Bool-cases (w == "")) [
  | inl nameless ↦ (q, rw (claim-nameless w now l q nameless), Follows-refl q v)
  | inr named ↦
      let (q₁, q₂, expired, a, runs, swept, d) =
        claim_lem w now l q v (ground (arith, eq_iff w "")) in
      goes q q₂ (claims w now l) (claim w now l q) refl runs (
        Follows-trans q q₁ q₂ (Expires-Follows now q q₁ expired swept)
          (Claimed-Follows w now l q₁ q₂ a swept.valid d))
]
step_lem q (renews t l w now) v =
    let (q', r, runs, d) = renew_lem t l w now q in
    let policy = Renewed-policy t l w now d in
    (
      q',
      ap (λ x. some x.0) runs,
      record {
        valid = Renewed-IsValid t l w now v d;
        limit = policy.0;
        term = policy.1;
        advances = Renewed-Advances t l w now d;
      },
    )
step_lem q (completes t l w r now) v =
    let (q', o, runs, d) = complete_lem t l w now r q in
    let policy = Completed-policy t l w now d in
    (
      q',
      ap (λ x. some x.0) runs,
      record {
        valid = Completed-IsValid t l w now v d;
        limit = policy.0;
        term = policy.1;
        advances = Completed-Advances t l w now d;
      },
    )
step_lem q (requeues_expired now) v =
    let (q', expired, runs, s) = expire_locked_lem now q v in
    goes q q' (requeues_expired now) (expire_locked now q) refl runs
      (Expires-Follows now q q' expired s)
step_lem q (gets t now) v =
    let (q', expired, runs, s) = get_lem t now q v in
    goes q q' (gets t now) (get t now q) refl runs (Expires-Follows now q q' expired s)
step_lem q (reads_job j now) v =
    let (q', expired, ts, _, runs, s) = job_tasks_lem j now q v in
    goes q q' (reads_job j now) (job_tasks j now q) refl runs (Expires-Follows now q q' expired s)
step_lem q (snapshots now) v =
    let (q', expired, ts, runs, _, _, s) = snapshot_lem now q v in
    goes q q' (snapshots now) (snapshot now q) refl runs (Expires-Follows now q q' expired s)
step_lem q observes v = let (ts, runs, _) = observe_lem q v in (q, rw runs, Follows-refl q v)
step_lem q (counts now) v =
    let (q', expired, s, runs, _, _, e) = stats_lem now q v in
    goes q q' (counts now) (stats now q) refl runs (Expires-Follows now q q' expired e)

run_lem :
    (cs : List Call) (q : Queue) → IsValid q → (q' : Queue) × (run q cs ≡ some q') × Follows q q'
unfolding run
run_lem [] q v = (q, refl, Follows-refl q v)
run_lem (c ∷ cs) q v =
    let (q₁, steps, f) = step_lem q c v in
    let (q₂, runs, g) = run_lem cs q₁ f.valid in (q₂, rw steps runs, Follows-trans q q₁ q₂ f g)

-- From a queue that New makes, any calls in any order return without a panic, and leave a queue
-- whose lists, map and tasks agree.
pub run-new :
    (config : Config) (q : Queue) (cs : List Call)
    → new config ≡ ok q
    → (q' : Queue) × (run q cs ≡ some q') × IsValid q'
run-new config q cs e =
    let (q', runs, f) = run_lem cs q (new-IsValid config q e) in (q', runs, f.valid)

later : {q q' : Queue} (cs : List Call) → IsValid q → run q cs ≡ some q' → Follows q q'
later {q} {q'} cs v e =
    let (u, runs, f) = run_lem cs q v in
    let same : u ≡ q' = cc (runs, e) in subst (λ x. Follows q x) same f

-- A completed or failed task never changes again, whatever is called after: its result is final.
pub run-final :
    {q q' : Queue} (cs : List Call) (key : String) (t : Task)
    → IsValid q
    → run q cs ≡ some q'
    → lookup key q.tasks ≡ some t
    → is_terminal t.state ≡ true
    → lookup key q'.tasks ≡ some t
run-final cs key t v runs found done =
    let (u, there, life) = (later cs v runs).advances key t found in
    there ∙ ap some (Lifecycle-terminal life done)

-- No call loses a task, or changes its id, job, key, type or input; its attempts stay within the
-- limit.
pub run-keeps_task :
    {q q' : Queue} (cs : List Call) (key : String) (t : Task)
    → IsValid q
    → run q cs ≡ some q'
    → lookup key q.tasks ≡ some t
    → (u : Task) × (lookup key q'.tasks ≡ some u)
      × (spec_of u ≡ spec_of t)
      × (t.attempts ≤ u.attempts)
      × (u.attempts ≤ q.max_attempts)
run-keeps_task {q} {q'} cs key t v runs found =
    let f = later cs v runs in
    let (u, there, life) = f.advances key t found in
    (
      u,
      there,
      Lifecycle-spec life,
      Lifecycle-attempts life,
      subst (λ n. u.attempts ≤ n) f.limit (Fits-attempts (f.valid.tasks key u there)),
    )
