-- ===== src/LeaseQueue/Outcomes.antt =====
-- internal/leasequeue/queue.go: Renew and Complete, through the branches of activeLeaseLocked.
use inoculum.Shared.{
  ℕ, ◌+◌, ◌≤◌, ◌<◌, String, ◌==◌, ◌≡◌, ◌≢◌, refl, some, [], ◌∷◌, ◌++◌, arith, lookup, insert,
  eq_iff, inl, inr, Bool-cases, ok, err, Result as Fallible, leb,
}
use inoculum.LeaseQueue.Tasks.{TaskState, Task, Lease, Result, CompletionOutcome, QueueError}
use inoculum.LeaseQueue.{
  Queue, active_lease_locked, renew, complete, expire_task_locked, failed_task, requeued_task,
}
use inoculum.LeaseQueue.Invariant.{IsValid, expire_task_locked-IsValid}
use inoculum.LeaseQueue.Expiry.{expiry_result}
use inoculum.LeaseQueue.Lifecycle.{
  Advances, Advances-refl, write-Advances, one, fails, retries, completed_task,
}
use inoculum.LeaseQueue.Leases.{
  Holds, Active, missing, finished, given_up, not_leased, replaced, not_owner, ran_out, active,
  active_lease_locked_lem,
}

pub expire_task_locked-Advances :
    (q : Queue) (key : String) (t : Task)
    → lookup key q.tasks ≡ some t
    → t.state ≡ TaskState.leased
    → Advances q.max_attempts q.tasks (expire_task_locked key t q).tasks
unfolding expire_task_locked
expire_task_locked-Advances q key t f s = elim (Bool-cases (leb q.max_attempts t.attempts)) [
  | inl full ↦ rw full (
      write-Advances q.max_attempts q.tasks key t _ f
        (one (fails expiry_result s (ground arith) refl)))
  | inr room ↦
      rw room
        (write-Advances q.max_attempts q.tasks key t _ f (one (retries s (ground arith) refl)))
]

pub expire_task_locked-policy :
    (q : Queue) (key : String) (t : Task)
    → ((expire_task_locked key t q).max_attempts ≡ q.max_attempts)
      × ((expire_task_locked key t q).lease_duration ≡ q.lease_duration)
unfolding expire_task_locked
expire_task_locked-policy q key t = ground arith

module _ (task_id lease_id worker_id : String) (now : ℕ) where
  pub Active-IsValid :
      {q q' : Queue} {r : Fallible QueueError (Task × Lease)}
      → Active task_id lease_id worker_id now q q' r
      → IsValid q
      → IsValid q'
  Active-IsValid (missing f) v = v
  Active-IsValid (finished t f s) v = v
  Active-IsValid (given_up t f s) v = v
  Active-IsValid (not_leased t f s) v = v
  Active-IsValid (replaced t l f s h n) v = v
  Active-IsValid (not_owner t l f s h i n) v = v
  Active-IsValid {q} (ran_out t l f s h i o e) v = expire_task_locked-IsValid q task_id t v f s
  Active-IsValid (active t l h) v = v

  pub Active-Advances :
      {q q' : Queue} {r : Fallible QueueError (Task × Lease)}
      → Active task_id lease_id worker_id now q q' r
      → Advances q.max_attempts q.tasks q'.tasks
  Active-Advances {q} (ran_out t l f s h i o e) = expire_task_locked-Advances q task_id t f s
  Active-Advances {q} _ = Advances-refl q.max_attempts q.tasks

  pub Active-policy :
      {q q' : Queue} {r : Fallible QueueError (Task × Lease)}
      → Active task_id lease_id worker_id now q q' r
      → (q'.max_attempts ≡ q.max_attempts) × (q'.lease_duration ≡ q.lease_duration)
  Active-policy {q} (ran_out t l f s h i o e) = expire_task_locked-policy q task_id t
  Active-policy _ = (refl, refl)

  abbrev pub extend : Queue → Lease → Lease
  extend q l = record l { expires_at = now + q.lease_duration }

  -- Renew: a refusal of activeLeaseLocked, or a new expiry and nothing else.
  pub data Renewed (q : Queue) : Queue → Fallible QueueError Lease → Type 0 where
    refused :
        {q' : Queue} (e : QueueError)
        → Active task_id lease_id worker_id now q q' (err e)
        → Renewed q q' (err e)
    extended :
        (t : Task) (l : Lease)
        → Holds task_id lease_id worker_id now q t l
        → Renewed q
            (record q { tasks = insert task_id (record t { lease = some (extend q l) }) q.tasks })
            (ok (extend q l))

  -- Complete: a refusal, or the task completes, fails or goes back to the end of the queue.
  pub data Completed (result : Result) (q : Queue)
      : Queue → Fallible QueueError CompletionOutcome → Type 0 where
    refused :
        {q' : Queue} (e : QueueError)
        → Active task_id lease_id worker_id now q q' (err e)
        → Completed result q q' (err e)
    succeeds :
        (t : Task) (l : Lease)
        → Holds task_id lease_id worker_id now q t l
        → result.error ≡ ""
        → Completed result q
            (record q { tasks = insert task_id (completed_task result t) q.tasks })
            (ok CompletionOutcome.completed)
    gives_up :
        (t : Task) (l : Lease)
        → Holds task_id lease_id worker_id now q t l
        → result.error ≢ ""
        → q.max_attempts ≤ t.attempts
        → Completed result q
            (record q { tasks = insert task_id (failed_task result t) q.tasks })
            (ok CompletionOutcome.failed)
    requeues :
        (t : Task) (l : Lease)
        → Holds task_id lease_id worker_id now q t l
        → result.error ≢ ""
        → t.attempts < q.max_attempts
        → Completed result q
            (record q {
              tasks = insert task_id (requeued_task t) q.tasks;
              queued = q.queued ++ t.id ∷ [];
            })
            (ok CompletionOutcome.requeued)

  pub renew_lem :
      (q : Queue)
      → (q' : Queue) × (r : Fallible QueueError Lease) × (renew task_id lease_id worker_id now q
          ≡ (q', r))
        × Renewed q q' r
  unfolding renew
  renew_lem q = finish (active_lease_locked_lem task_id lease_id worker_id now q)
    where
      finish :
          (q' : Queue) × (r : Fallible QueueError (Task × Lease)) × (active_lease_locked task_id
                lease_id worker_id now q
              ≡ (q', r))
            × Active task_id lease_id worker_id now q q' r
          → (q' : Queue) × (r : Fallible QueueError Lease) × (renew task_id lease_id worker_id now q
              ≡ (q', r))
            × Renewed q q' r
      finish (q', err e, runs, a) = (_, _, ground arith, refused e a)
      finish (q', ok (t, l), runs, active _ _ h) = (_, _, ground arith, extended t l h)

  pub complete_lem :
      (result : Result) (q : Queue)
      → (q' : Queue) × (r : Fallible QueueError CompletionOutcome) × (complete task_id lease_id
            worker_id result now q
          ≡ (q', r))
        × Completed result q q' r
  unfolding complete
  complete_lem result q = finish (active_lease_locked_lem task_id lease_id worker_id now q)
    where
      finish :
          (q' : Queue) × (r : Fallible QueueError (Task × Lease)) × (active_lease_locked task_id
                lease_id worker_id now q
              ≡ (q', r))
            × Active task_id lease_id worker_id now q q' r
          → (q' : Queue) × (r : Fallible QueueError CompletionOutcome) × (complete task_id lease_id
                worker_id result now q
              ≡ (q', r))
            × Completed result q q' r
      finish (q', err e, runs, a) = (_, _, ground arith, refused e a)
      finish (q', ok (t, l), runs, active _ _ h) = elim (Bool-cases (result.error == "")) [
        | inl good ↦ (_, _, ground arith, succeeds t l h ((eq_iff result.error "").0 good))
        | inr bad ↦ elim (Bool-cases (leb q.max_attempts t.attempts)) [
          | inl full ↦ (
            _,
            _,
            ground arith,
            gives_up t l h (ground (arith, eq_iff result.error "")) (ground arith),
          )
          | inr room ↦ (
            _,
            _,
            ground arith,
            requeues t l h (ground (arith, eq_iff result.error "")) (ground arith),
          )
        ]
      ]
