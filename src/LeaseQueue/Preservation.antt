-- ===== src/LeaseQueue/Preservation.antt =====
-- internal/leasequeue/queue.go: every operation keeps the invariant and moves every task along the
-- lifecycle.
use inoculum.Shared.{
  ℕ, ◌+◌, String, ◌==◌, ◌≡◌, ◌≢◌, refl, sym, ap, false, some, none, List, [], ◌∷◌, ◌++◌, arith,
  lookup, insert, eq_iff, inl, inr, Bool-cases, Option-cases, ok, subst, Result as Fallible, leb,
}
use inoculum.LeaseQueue.Tasks.{
  TaskSpec, Task, Lease, Result, CompletionOutcome, QueueError, is_queued,
}
use inoculum.LeaseQueue.{is_expired, Queue, Config, new, enqueue, fresh_task}
use inoculum.LeaseQueue.Invariant.{
  IsValid, Fits, StateFits, update-IsValid, requeue-IsValid, failed-Fits, requeued-Fits,
  leased-Fits, add-IsValid,
}
use inoculum.LeaseQueue.Expiry.{Expires, expiry_result, expire_value}
use inoculum.LeaseQueue.Lifecycle.{
  Advances, Advances-refl, write-Advances, add-Advances, one, Lifecycle, stays, renews, completes,
  fails, retries, completed_task,
}
use inoculum.LeaseQueue.Leases.{Holds}
use inoculum.LeaseQueue.Outcomes.{
  Renewed, Completed, extended, succeeds, gives_up, requeues, extend, Active-IsValid,
  Active-Advances, Active-policy,
}

-- New accepts exactly the positive policies, and starts with a valid queue.
pub new-IsValid : (config : Config) (q : Queue) → new config ≡ ok q → IsValid q
unfolding new lookup
new-IsValid config q e = ground arith

pub enqueue-policy :
    (spec : TaskSpec) (q : Queue)
    → ((enqueue spec q).0.max_attempts ≡ q.max_attempts)
      × ((enqueue spec q).0.lease_duration ≡ q.lease_duration)
unfolding enqueue
enqueue-policy spec q = ground arith

pub enqueue_keeps :
    (spec : TaskSpec) (q : Queue)
    → IsValid q
    → IsValid (enqueue spec q).0 × Advances q.max_attempts q.tasks (enqueue spec q).0.tasks
unfolding enqueue
enqueue_keeps spec q v = elim (Bool-cases (spec.id == "")) [
  | inl nameless ↦ rw nameless (v, Advances-refl q.max_attempts q.tasks)
  | inr named ↦ elim (Option-cases (lookup spec.id q.tasks)) [
    | inr (t, there) ↦ rw (named, there) (v, Advances-refl q.max_attempts q.tasks)
    | inl absent ↦
        rw (named, absent)
          (
            add-IsValid q spec.id (fresh_task spec) v absent
                (record {
                  keyed = refl;
                  named = ground (arith, eq_iff spec.id "");
                  state = (refl, refl, v.limit);
                })
                refl,
            add-Advances q.max_attempts q.tasks spec.id (fresh_task spec) absent,
          )
  ]
]

module _ (task_id lease_id worker_id : String) (now : ℕ) where
  Holds-not_queued :
      {q : Queue} {t : Task} {l : Lease}
      → Holds task_id lease_id worker_id now q t l
      → is_queued t.state ≡ false
  Holds-not_queued h = ap is_queued h.state

  extend-Fits :
      {q : Queue} {t : Task} {l : Lease}
      → IsValid q
      → Holds task_id lease_id worker_id now q t l
      → Fits q.max_attempts task_id
          (record t { lease = some (extend task_id lease_id worker_id now q l) })
  extend-Fits {q} {t} {l} v h =
      let f = v.tasks task_id t h.found in
      let (old, held, at_task, at_worker, attempt, empty, some_attempt, in_limit) =
        leased-Fits f h.state in
      let same : old ≡ l = cc (held, h.lease) in
      record {
        keyed = f.keyed;
        named = f.named;
        state =
            subst
              (λ s.
                StateFits s q.max_attempts
                  (record t { lease = some (extend task_id lease_id worker_id now q l) }))
              (sym h.state)
              (
                extend task_id lease_id worker_id now q l,
                refl,
                subst (λ (x : Lease). x.task_id ≡ t.id) same at_task,
                subst (λ (x : Lease). x.worker_id ≡ t.worker_id) same at_worker,
                subst (λ (x : Lease). x.attempt ≡ t.attempts) same attempt,
                empty,
                some_attempt,
                in_limit,
              );
      }

  completed-Fits :
      {q : Queue} {t : Task} {l : Lease} (r : Result)
      → IsValid q
      → Holds task_id lease_id worker_id now q t l
      → r.error ≡ ""
      → Fits q.max_attempts task_id (completed_task r t)
  completed-Fits {q} {t} {l} r v h good =
      let f = v.tasks task_id t h.found in
      let was = leased-Fits f h.state in
      record { keyed = f.keyed; named = f.named; state = (r, refl, refl, good, was.6, was.7) }

  pub Renewed-IsValid :
      {q q' : Queue} {r : Fallible QueueError Lease}
      → IsValid q
      → Renewed task_id lease_id worker_id now q q' r
      → IsValid q'
  Renewed-IsValid v (Renewed.refused e a) = Active-IsValid task_id lease_id worker_id now a v
  Renewed-IsValid {q} v (extended t l h) =
      update-IsValid q task_id t _ v h.found (extend-Fits v h) (Holds-not_queued h)
        (Holds-not_queued h)

  pub Renewed-Advances :
      {q q' : Queue} {r : Fallible QueueError Lease}
      → Renewed task_id lease_id worker_id now q q' r
      → Advances q.max_attempts q.tasks q'.tasks
  Renewed-Advances (Renewed.refused e a) = Active-Advances task_id lease_id worker_id now a
  Renewed-Advances {q} (extended t l h) =
      write-Advances q.max_attempts q.tasks task_id t _ h.found
        (one (renews l (now + q.lease_duration) h.state h.lease refl))

  pub Renewed-policy :
      {q q' : Queue} {r : Fallible QueueError Lease}
      → Renewed task_id lease_id worker_id now q q' r
      → (q'.max_attempts ≡ q.max_attempts) × (q'.lease_duration ≡ q.lease_duration)
  Renewed-policy (Renewed.refused e a) = Active-policy task_id lease_id worker_id now a
  Renewed-policy (extended t l h) = (refl, refl)

  pub Completed-IsValid :
      {r : Result} {q q' : Queue} {o : Fallible QueueError CompletionOutcome}
      → IsValid q
      → Completed task_id lease_id worker_id now r q q' o
      → IsValid q'
  Completed-IsValid v (Completed.refused e a) = Active-IsValid task_id lease_id worker_id now a v
  Completed-IsValid {r} {q} v (succeeds t l h good) =
      update-IsValid q task_id t _ v h.found (completed-Fits r v h good) (Holds-not_queued h) refl
  Completed-IsValid {r} {q} v (gives_up t l h bad full) =
      update-IsValid q task_id t _ v h.found
        (failed-Fits r (v.tasks task_id t h.found) h.state full bad) (Holds-not_queued h) refl
  Completed-IsValid {q} v (requeues t l h bad room) =
      requeue-IsValid q task_id t _ v h.found (requeued-Fits (v.tasks task_id t h.found) room)
        (Holds-not_queued h) refl

  pub Completed-Advances :
      {r : Result} {q q' : Queue} {o : Fallible QueueError CompletionOutcome}
      → Completed task_id lease_id worker_id now r q q' o
      → Advances q.max_attempts q.tasks q'.tasks
  Completed-Advances (Completed.refused e a) = Active-Advances task_id lease_id worker_id now a
  Completed-Advances {r} {q} (succeeds t l h good) =
      write-Advances q.max_attempts q.tasks task_id t _ h.found
        (one (completes r h.state good refl))
  Completed-Advances {r} {q} (gives_up t l h bad full) =
      write-Advances q.max_attempts q.tasks task_id t _ h.found (one (fails r h.state full refl))
  Completed-Advances {q} (requeues t l h bad room) =
      write-Advances q.max_attempts q.tasks task_id t _ h.found (one (retries h.state room refl))

  pub Completed-policy :
      {r : Result} {q q' : Queue} {o : Fallible QueueError CompletionOutcome}
      → Completed task_id lease_id worker_id now r q q' o
      → (q'.max_attempts ≡ q.max_attempts) × (q'.lease_duration ≡ q.lease_duration)
  Completed-policy (Completed.refused e a) = Active-policy task_id lease_id worker_id now a
  Completed-policy _ = (refl, refl)

expire_value-Lifecycle : (limit now : ℕ) (t : Task) → Lifecycle limit t (expire_value limit now t)
expire_value-Lifecycle limit now t = elim (Bool-cases (is_expired now t)) [
  | inr e ↦ rw e stays
  | inl e ↦ elim (Bool-cases (leb limit t.attempts)) [
    | inl full ↦ rw (e, full) (one (fails expiry_result (ground arith) (ground arith) refl))
    | inr room ↦ rw (e, room) (one (retries (ground arith) (ground arith) refl))
  ]
]

pub Expires-Advances :
    (now : ℕ) {q q' : Queue} {expired : List String}
    → Expires now q q' expired
    → Advances q.max_attempts q.tasks q'.tasks
Expires-Advances now {q} s key t found = (
  expire_value q.max_attempts now t,
  ground (arith, s.tasks key),
  expire_value-Lifecycle q.max_attempts now t,
)

-- Enqueue of a new id puts the task at the end of the queue and of the order.
pub enqueue_new :
    (spec : TaskSpec) (q : Queue)
    → spec.id ≢ ""
    → lookup spec.id q.tasks ≡ none
    → enqueue spec q ≡ (
      record q {
        tasks = insert spec.id (fresh_task spec) q.tasks;
        queued = q.queued ++ spec.id ∷ [];
        order = q.order ++ spec.id ∷ [];
      },
      ok tt,
    )
unfolding enqueue
enqueue_new spec q named new =
    let nonempty : (spec.id == "") ≡ false = ground (arith, eq_iff spec.id "") in
    rw (nonempty, new) refl
