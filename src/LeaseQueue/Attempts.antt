-- ===== src/LeaseQueue/Attempts.antt =====
-- internal/leasequeue/queue.go: the attempts counter counts the leases of a task, so the attempt
-- limit bounds how often a task is handed out in any history.
use inoculum.Shared.{
  ℕ, ◌+◌, ◌≤◌, String, ◌==◌, ◌≡◌, refl, sym, ap, ◌∙◌, Option, none, some, List, [], ◌∷◌, arith,
  lookup, insert, lookup-insert, Bool-cases, Option-cases, ok, err, subst, ◌>>=◌, GoMap, eq_iff,
  inl, inr, flag, Result as Fallible,
}
use inoculum.LeaseQueue.Tasks.{
  Task, Lease, Assignment, TaskSpec, Result, CompletionOutcome, QueueError,
}
use inoculum.LeaseQueue.{
  Queue, Config, new, enqueue, claim, requeue_expired, expire_locked, get, job_tasks, snapshot,
  stats, expire_task_locked, failed_task, requeued_task, fresh_task, leased_task, issue,
}
use inoculum.LeaseQueue.Invariant.{IsValid, Fits-attempts}
use inoculum.LeaseQueue.Expiry.{Expires, expire_locked_lem, after_expiry, expiry_result}
use inoculum.LeaseQueue.Lifecycle.{completed_task}
use inoculum.LeaseQueue.Claims.{claim_lem, Claimed, idle, granted}
use inoculum.LeaseQueue.Leases.{Active, ran_out}
use inoculum.LeaseQueue.Outcomes.{
  renew_lem, complete_lem, Renewed, Completed, extended, succeeds, gives_up, requeues,
}
use inoculum.LeaseQueue.Preservation.{new-IsValid}
use inoculum.LeaseQueue.Views.{snapshot_lem, job_tasks_lem, get_lem, stats_lem, observe_lem}
use inoculum.LeaseQueue.History.{
  Call, enqueues, claims, renews, completes, requeues_expired, gets, reads_job, snapshots, observes,
  counts, step, run, step_lem, claim-nameless,
}

abbrev pub attempts_of : Option Task → ℕ
attempts_of none = 0
attempts_of (some t) = t.attempts

abbrev pub attempts_at : String → Queue → ℕ
attempts_at key q = attempts_of (lookup key q.tasks)

abbrev grant_in : String → Option (Queue × Fallible QueueError (Option Assignment)) → ℕ
grant_in key none = 0
grant_in key (some (_, err e)) = 0
grant_in key (some (_, ok none)) = 0
grant_in key (some (_, ok (some a))) = flag (a.task.id == key)

-- One if the call hands the task out, and zero otherwise.
abbrev pub hands_out : String → Queue → Call → ℕ
hands_out key q (claims w now l) = grant_in key (claim w now l q)
hands_out key q _ = 0

-- How often the calls hand the task out.
pub handed_out : String → Queue → List Call → ℕ
handed_out key q [] = 0
handed_out key q (c ∷ cs) =
    hands_out key q c + elim (step q c) [ none ↦ 0 | some q' ↦ handed_out key q' cs ]

-- A write that leaves the counter of the task alone.
write-attempts :
    (m : GoMap Task) (key : String) (t u : Task) (j : String)
    → lookup key m ≡ some t
    → u.attempts ≡ t.attempts
    → attempts_of (lookup j (insert key u m)) ≡ attempts_of (lookup j m)
write-attempts m key t u j found same = ground (arith, lookup-insert key j u m, eq_iff key j)

expire_task_locked-attempts :
    (q : Queue) (key : String) (t : Task) (j : String)
    → lookup key q.tasks ≡ some t
    → attempts_at j (expire_task_locked key t q) ≡ attempts_at j q
unfolding expire_task_locked
expire_task_locked-attempts q key t j found = ground (
  arith,
  write-attempts q.tasks key t (failed_task expiry_result t) j found refl,
  write-attempts q.tasks key t (requeued_task t) j found refl,
)

after_expiry-attempts :
    (limit now : ℕ) (o : Option Task) → attempts_of (after_expiry limit now o) ≡ attempts_of o
after_expiry-attempts limit now none = refl
after_expiry-attempts limit now (some t) = ground arith

Expires-attempts :
    (now : ℕ) (q q' : Queue) (expired : List String) (j : String)
    → Expires now q q' expired
    → attempts_at j q' ≡ attempts_at j q
Expires-attempts now q q' expired j s =
    ap attempts_of (s.tasks j) ∙ after_expiry-attempts q.max_attempts now (lookup j q.tasks)

module _ (task_id lease_id worker_id : String) (now : ℕ) (j : String) where
  Active-attempts :
      {q q' : Queue} {r : Fallible QueueError (Task × Lease)}
      → Active task_id lease_id worker_id now q q' r
      → attempts_at j q' ≡ attempts_at j q
  Active-attempts {q} (ran_out t l f s h i o e) = expire_task_locked-attempts q task_id t j f
  Active-attempts _ = refl

  Renewed-attempts :
      {q q' : Queue} {r : Fallible QueueError Lease}
      → Renewed task_id lease_id worker_id now q q' r
      → attempts_at j q' ≡ attempts_at j q
  Renewed-attempts (Renewed.refused e a) = Active-attempts a
  Renewed-attempts {q} (extended t l h) = write-attempts q.tasks task_id t _ j h.found refl

  Completed-attempts :
      {r : Result} {q q' : Queue} {o : Fallible QueueError CompletionOutcome}
      → Completed task_id lease_id worker_id now r q q' o
      → attempts_at j q' ≡ attempts_at j q
  Completed-attempts (Completed.refused e a) = Active-attempts a
  Completed-attempts {r} {q} (succeeds t l h good) =
      write-attempts q.tasks task_id t (completed_task r t) j h.found refl
  Completed-attempts {r} {q} (gives_up t l h bad full) =
      write-attempts q.tasks task_id t (failed_task r t) j h.found refl
  Completed-attempts {r} {q} (requeues t l h bad room) =
      write-attempts q.tasks task_id t (requeued_task t) j h.found refl

enqueue-attempts :
    (spec : TaskSpec) (q : Queue) (j : String) → attempts_at j (enqueue spec q).0 ≡ attempts_at j q
unfolding enqueue
enqueue-attempts spec q j =
    ground (arith, lookup-insert spec.id j (fresh_task spec) q.tasks, eq_iff spec.id j)

abbrev grant_of : String → Option Assignment → ℕ
grant_of key none = 0
grant_of key (some a) = flag (a.task.id == key)

Claimed-attempts :
    (w : String) (now : ℕ) (l : String) (j : String) {q q' : Queue} {a : Option Assignment}
    → IsValid q
    → Claimed w now l q q' a
    → attempts_at j q' ≡ attempts_at j q + grant_of j a
Claimed-attempts w now l j v (idle e) = omega arith
Claimed-attempts w now l j {q} v (granted key pending t e found waits) = ground (
  arith,
  (v.tasks key t found).keyed,
  lookup-insert key j (leased_task w (issue w now l q.lease_duration t) t) q.tasks,
  eq_iff key j,
)

grant-answer :
    (j : String) (q : Queue) (a : Option Assignment) → grant_in j (some (q, ok a)) ≡ grant_of j a
grant-answer j q none = refl
grant-answer j q (some a) = refl

attempts_at-le : (key : String) (q : Queue) → IsValid q → attempts_at key q ≤ q.max_attempts
attempts_at-le key q v = elim (Option-cases (lookup key q.tasks)) [
  | inl e ↦ rw e (omega arith)
  | inr (t, e) ↦ rw e (Fits-attempts (v.tasks key t e))
]

-- One call adds to the counter of a task exactly its handing out.
abbrev Counts : String → Queue → Call → Type 0
Counts j q c =
    (q' : Queue) × (step q c ≡ some q') × (attempts_at j q' ≡ attempts_at j q + hands_out j q c)

quiet :
    (j : String) (q q' : Queue) (c : Call) {A : Type 0} (m : Option (Queue × A)) {a : A}
    → step q c ≡ (m >>= λ r. some r.0)
    → m ≡ some (q', a)
    → hands_out j q c ≡ 0
    → attempts_at j q' ≡ attempts_at j q
    → Counts j q c
quiet j q q' c m e runs none_out same =
    (q', e ∙ ap (λ x. x >>= λ r. some r.0) runs, omega (arith, none_out, same))

step-attempts : (j : String) (q : Queue) (c : Call) → IsValid q → Counts j q c
unfolding step requeue_expired
step-attempts j q (enqueues spec) v = (_, refl, omega (arith, enqueue-attempts spec q j))
step-attempts j q (claims w now l) v = elim (Bool-cases (w == "")) [
  | inl nameless ↦
      let runs = claim-nameless w now l q nameless in
      (q, rw runs, omega (arith, ap (grant_in j) runs))
  | inr named ↦
      let (q₁, q₂, expired, a, runs, s, d) = claim_lem w now l q v (ground (arith, eq_iff w "")) in
      (
        q₂,
        ap (λ x. x >>= λ r. some r.0) runs,
        omega (
          arith,
          ap (grant_in j) runs,
          grant-answer j q₂ a,
          Claimed-attempts w now l j s.valid d,
          Expires-attempts now q q₁ expired j s,
        ),
      )
]
step-attempts j q (renews t l w now) v =
    let (q', r, runs, d) = renew_lem t l w now q in
    (q', ap (λ x. some x.0) runs, omega (arith, Renewed-attempts t l w now j d))
step-attempts j q (completes t l w r now) v =
    let (q', o, runs, d) = complete_lem t l w now r q in
    (q', ap (λ x. some x.0) runs, omega (arith, Completed-attempts t l w now j d))
step-attempts j q (requeues_expired now) v =
    let (q', expired, runs, s) = expire_locked_lem now q v in
    quiet j q q' (requeues_expired now) (expire_locked now q) refl runs refl
      (Expires-attempts now q q' expired j s)
step-attempts j q (gets t now) v =
    let (q', expired, runs, s) = get_lem t now q v in
    quiet j q q' (gets t now) (get t now q) refl runs refl (Expires-attempts now q q' expired j s)
step-attempts j q (reads_job i now) v =
    let (q', expired, ts, _, runs, s) = job_tasks_lem i now q v in
    quiet j q q' (reads_job i now) (job_tasks i now q) refl runs refl
      (Expires-attempts now q q' expired j s)
step-attempts j q (snapshots now) v =
    let (q', expired, ts, runs, _, _, s) = snapshot_lem now q v in
    quiet j q q' (snapshots now) (snapshot now q) refl runs refl
      (Expires-attempts now q q' expired j s)
step-attempts j q observes v = let (ts, runs, _) = observe_lem q v in (q, rw runs, omega arith)
step-attempts j q (counts now) v =
    let (q', expired, s, runs, _, _, e) = stats_lem now q v in
    quiet j q q' (counts now) (stats now q) refl runs refl (Expires-attempts now q q' expired j e)

-- In any history the attempts counter of a task grows by the number of its leases.
pub run-attempts :
    (j : String) (cs : List Call) (q : Queue)
    → IsValid q
    → (q' : Queue) × (run q cs ≡ some q')
      × IsValid q'
      × (attempts_at j q' ≡ attempts_at j q + handed_out j q cs)
      × (q'.max_attempts ≡ q.max_attempts)
unfolding run handed_out
run-attempts j [] q v = (q, refl, v, omega arith, refl)
run-attempts j (c ∷ cs) q v =
    let (q₁, steps, adds) = step-attempts j q c v in
    let (q₂, steps', f) = step_lem q c v in
    let same : q₂ ≡ q₁ = cc (steps, steps') in
    let valid = subst IsValid same f.valid in
    let limit = ap (λ (x : Queue). x.max_attempts) (sym same) ∙ f.limit in
    let (q', runs, w, more, limit') = run-attempts j cs q₁ valid in
    (q', rw steps runs, w, rw steps (omega (arith, adds, more)), limit' ∙ limit)

-- From a queue that New makes, no task is handed out more often than the attempt limit, however
-- often leases run out, workers fail or results are lost.
pub handed_out-le :
    (config : Config) (q : Queue) (cs : List Call) (key : String)
    → new config ≡ ok q
    → handed_out key q cs ≤ q.max_attempts
handed_out-le config q cs key e =
    let (q', runs, w, adds, limit) = run-attempts key cs q (new-IsValid config q e) in
    omega (arith, adds, limit, attempts_at-le key q' w)
