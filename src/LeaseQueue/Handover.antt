-- ===== src/LeaseQueue/Handover.antt =====
-- internal/leasequeue/queue.go: sequences of calls, from a claim to the result that counts.
use mathlib.Core.Option.{some-injective}
use inoculum.Shared.{
  ℕ, ◌+◌, ◌<◌, String, ◌≡◌, ◌≢◌, refl, ap, ◌∙◌, Option, some, arith, lookup, insert, lookup-insert,
  ok, err, subst, eq_iff, eq_refl, Result as Fallible,
}
use inoculum.LeaseQueue.Tasks.{
  Task, Lease, Assignment, Result, TaskState, CompletionOutcome, stale_lease,
}
use inoculum.LeaseQueue.{Queue, claim, complete, spec_of, leased_task, issue, active_lease_locked}
use inoculum.LeaseQueue.Invariant.{IsValid}
use inoculum.LeaseQueue.Lifecycle.{completed_task}
use inoculum.LeaseQueue.Claims.{grant, Claimed, granted, idle, Claimed-IsValid}
use inoculum.LeaseQueue.Leases.{Holds}
use inoculum.LeaseQueue.Ownership.{claim-inv}

-- The task that a claim handed out, as the queue then holds it.
pub record HandedOut (worker_id : String) (now : ℕ) (lease_id : String) (q q' : Queue)
    (a : Assignment) : Type 0 where
  pub task : Task
  pub found : lookup a.task.id q'.tasks ≡ some task
  pub spec : spec_of task ≡ a.task
  pub state : task.state ≡ TaskState.leased
  pub lease : task.lease ≡ some a.lease
  pub attempts : a.lease.attempt ≡ task.attempts
  pub id : a.lease.id ≡ lease_id
  pub owner : a.lease.worker_id ≡ worker_id
  pub term : a.lease.expires_at ≡ now + q.lease_duration
  pub valid : IsValid q'

pub claim-HandedOut :
    (worker_id : String) (now : ℕ) (lease_id : String) (q q' : Queue) (a : Assignment)
    → IsValid q
    → worker_id ≢ ""
    → claim worker_id now lease_id q ≡ some (q', ok (some a))
    → HandedOut worker_id now lease_id q q' a
claim-HandedOut worker_id now lease_id q q' a v named e =
    let (q₁, expired, b, answer, s, d) = claim-inv worker_id now lease_id q q' _ v named e in
    at q₁ q' b (cc answer) s.term s.valid d
  where
    at :
        (q₁ q₂ : Queue) (b : Option Assignment)
        → b ≡ some a
        → q₁.lease_duration ≡ q.lease_duration
        → IsValid q₁
        → Claimed worker_id now lease_id q₁ q₂ b
        → HandedOut worker_id now lease_id q q₂ a
    at q₁ _ _ is term w (idle none_left) = cc is
    at q₁ _ _ is term w (granted key pending t first found waits) =
        let held = leased_task worker_id (issue worker_id now lease_id q₁.lease_duration t) t in
        subst
          (λ x.
            HandedOut worker_id now lease_id q (grant worker_id now lease_id key pending t q₁) x)
          (some-injective _ _ is)
          (record {
            task = held;
            found = ground (
              arith,
              (w.tasks key t found).keyed,
              lookup-insert key t.id held q₁.tasks,
              eq_iff key t.id,
            );
            spec = refl;
            state = refl;
            lease = refl;
            attempts = refl;
            id = refl;
            owner = refl;
            term = ap (λ d. now + d) term;
            valid =
                Claimed-IsValid worker_id now lease_id w (granted key pending t first found waits);
          })

complete-succeeds :
    (task_id lease_id worker_id : String) (now : ℕ) (r : Result) (q : Queue) (t : Task) (l : Lease)
    → Holds task_id lease_id worker_id now q t l
    → r.error ≡ ""
    → complete task_id lease_id worker_id r now q ≡ (
      record q { tasks = insert task_id (completed_task r t) q.tasks },
      ok CompletionOutcome.completed,
    )
unfolding complete active_lease_locked
complete-succeeds task_id lease_id worker_id now r q t l h good =
    ground (arith, eq_iff l.id lease_id, eq_iff l.worker_id worker_id, eq_iff r.error "")

-- A result without an error, under the lease that a claim just gave and before that lease runs out,
-- completes the task with this result.
pub claim-complete :
    (worker_id : String) (now : ℕ) (lease_id : String) (q q' : Queue) (a : Assignment) (r : Result)
    (later : ℕ)
    → IsValid q
    → worker_id ≢ ""
    → claim worker_id now lease_id q ≡ some (q', ok (some a))
    → later < now + q.lease_duration
    → r.error ≡ ""
    → (q'' : Queue) × (t : Task) × (complete a.task.id lease_id worker_id r later q'
        ≡ (q'', ok CompletionOutcome.completed))
      × (lookup a.task.id q''.tasks ≡ some t)
      × (spec_of t ≡ a.task)
      × (t.state ≡ TaskState.completed)
      × (t.result ≡ some r)
claim-complete worker_id now lease_id q q' a r later v named e in_time good =
    let out = claim-HandedOut worker_id now lease_id q q' a v named e in
    let mine : Holds a.task.id lease_id worker_id later q' out.task a.lease = record {
      found = out.found;
      state = out.state;
      lease = out.lease;
      same = out.id;
      owner = out.owner;
      live = omega (arith, out.term);
    } in
    (
      record q' { tasks = insert a.task.id (completed_task r out.task) q'.tasks },
      completed_task r out.task,
      accepted mine,
      lookup-insert a.task.id a.task.id (completed_task r out.task) q'.tasks
          ∙ rw (eq_refl a.task.id),
      out.spec,
      refl,
      refl,
    )
  where
    accepted :
        {t : Task}
        → Holds a.task.id lease_id worker_id later q' t a.lease
        → complete a.task.id lease_id worker_id r later q' ≡ (
          record q' { tasks = insert a.task.id (completed_task r t) q'.tasks },
          ok CompletionOutcome.completed,
        )
    accepted {t} mine =
        complete-succeeds a.task.id lease_id worker_id later r q' t a.lease mine good

-- The lease that a claim replaced is good for nothing: a result under another lease id is stale and
-- leaves the queue as it is.
pub claim-replaces :
    (worker_id : String) (now : ℕ) (lease_id : String) (q q' : Queue) (a : Assignment)
    (old_lease old_worker : String) (r : Result) (later : ℕ)
    → IsValid q
    → worker_id ≢ ""
    → claim worker_id now lease_id q ≡ some (q', ok (some a))
    → lease_id ≢ old_lease
    → complete a.task.id old_lease old_worker r later q' ≡ (q', err stale_lease)
unfolding complete active_lease_locked
claim-replaces worker_id now lease_id q q' a old_lease old_worker r later v named e other =
    let out = claim-HandedOut worker_id now lease_id q q' a v named e in
    ground (arith, out.found, out.state, out.lease, out.id, eq_iff a.lease.id old_lease)
