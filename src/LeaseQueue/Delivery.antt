-- ===== src/LeaseQueue/Delivery.antt =====
-- internal/leasequeue/queue.go: which results and renewals are accepted, and what they leave.
use inoculum.Shared.{
  ℕ, ◌+◌, ◌≤◌, String, ◌==◌, ◌≡◌, refl, sym, ap, ◌∙◌, some, arith, if◌then◌else◌, lookup,
  lookup-insert, ◌⊎◌, ◌↔◌, ok, Result as Fallible,
}
use inoculum.LeaseQueue.Tasks.{Task, Lease, Result, CompletionOutcome, QueueError, stale_lease}
use inoculum.LeaseQueue.{Queue, renew, complete, expire_task_locked}
use inoculum.LeaseQueue.Leases.{
  Holds, Active, active, missing, finished, given_up, not_leased, replaced, not_owner, ran_out,
}
use inoculum.LeaseQueue.Outcomes.{
  renew_lem, complete_lem, Completed, Renewed, succeeds, gives_up, requeues, extended,
}

module _ (task_id lease_id worker_id : String) (now : ℕ) where
  abbrev pub Mine : Queue → Task → Lease → Type 0
  Mine = Holds task_id lease_id worker_id now

  -- No other branch of activeLeaseLocked is open to a caller that holds the lease.
  Active-Holds :
      {q q' : Queue} {r : Fallible QueueError (Task × Lease)} (t : Task) (l : Lease)
      → Active task_id lease_id worker_id now q q' r
      → Mine q t l
      → r ≡ ok (t, l)
  Active-Holds t l (missing f) h = cc (f, h.found)
  Active-Holds t l (finished u f s) h = ground (arith, h.found, h.state)
  Active-Holds t l (given_up u f s) h = ground (arith, h.found, h.state)
  Active-Holds t l (not_leased u f s) h = ground (arith, h.found, h.state, h.lease)
  Active-Holds t l (replaced u k f s g n) h = ground (arith, h.found, h.lease, h.same)
  Active-Holds t l (not_owner u k f s g i n) h = ground (arith, h.found, h.lease, h.owner)
  Active-Holds t l (ran_out u k f s g i o e) h = ground (arith, h.found, h.lease, h.live)
  Active-Holds t l (active u k g) h = ground (arith, g.found, h.found, g.lease, h.lease)

  Completed-ok :
      (r : Result) {q q' : Queue} {o : Fallible QueueError CompletionOutcome}
      (c : CompletionOutcome)
      → Completed task_id lease_id worker_id now r q q' o
      → o ≡ ok c
      → (t : Task) × (l : Lease) × Mine q t l
  Completed-ok r c (Completed.refused x a) e = cc e
  Completed-ok r c (succeeds t l h good) e = (t, l, h)
  Completed-ok r c (gives_up t l h bad full) e = (t, l, h)
  Completed-ok r c (requeues t l h bad room) e = (t, l, h)

  Completed-Holds :
      (r : Result) {q q' : Queue} {o : Fallible QueueError CompletionOutcome} (t : Task) (l : Lease)
      → Completed task_id lease_id worker_id now r q q' o
      → Mine q t l
      → (c : CompletionOutcome) × (o ≡ ok c)
  Completed-Holds r t l (Completed.refused x a) h = cc (Active-Holds t l a h)
  Completed-Holds r t l (succeeds u k g good) h = (_, refl)
  Completed-Holds r t l (gives_up u k g bad full) h = (_, refl)
  Completed-Holds r t l (requeues u k g bad room) h = (_, refl)

  -- A result is accepted exactly when it comes under the task's current lease, from the worker that
  -- holds it, before the lease runs out.
  pub complete-accepts :
      (r : Result) (q : Queue)
      → ((q' : Queue) × (c : CompletionOutcome) × (complete task_id lease_id worker_id r now q
            ≡ (q', ok c)))
        ↔ ((t : Task) × (l : Lease) × Mine q t l)
  complete-accepts r q =
      let (q₁, o, runs, d) = complete_lem task_id lease_id worker_id now r q in
      (
        λ a. Completed-ok r a.1 d (ap (λ x. x.1) (sym runs ∙ a.2)),
        λ b. let (c, e) = Completed-Holds r b.0 b.1 d b.2 in (q₁, c, runs ∙ ap (λ x. (q₁, x)) e),
      )

  -- Nothing was recorded: the queue is as it was, or the caller's own lease, whose time was over, was
  -- given up.
  abbrev pub NotRecorded : Queue → Queue → QueueError → Type 0
  NotRecorded q q' e =
      (q' ≡ q)
      ⊎ ((t : Task) × (l : Lease) × (e ≡ stale_lease)
          × (t.lease ≡ some l)
          × (l.expires_at ≤ now)
          × (q' ≡ expire_task_locked task_id t q))

  -- `q'` differs from `q` in the expiry of the caller's lease alone, which is one term from now.
  abbrev pub Extends : Queue → Queue → Lease → Type 0
  Extends q q' l' =
      (t : Task) × (l : Lease) × Mine q t l
      × (l' ≡ record l { expires_at = now + q.lease_duration })
      × ((key : String)
          → lookup key q'.tasks
            ≡ (if task_id == key then some (record t { lease = some l' }) else lookup key q.tasks))
      × (q'.queued ≡ q.queued)
      × (q'.order ≡ q.order)

  -- Renew extends the current lease of its holder by one term from now. The lease keeps its id, its
  -- attempt and its issue time, and no other task and neither list changes.
  pub renew-extends :
      (q q' : Queue) (l' : Lease)
      → renew task_id lease_id worker_id now q ≡ (q', ok l')
      → (t : Task) × (l : Lease) × Mine q t l
        × (l' ≡ record l { expires_at = now + q.lease_duration })
        × ((key : String)
            → lookup key q'.tasks ≡ (
                if task_id == key then some (record t { lease = some l' }) else lookup key q.tasks))
        × (q'.queued ≡ q.queued)
        × (q'.order ≡ q.order)
  renew-extends q q' l' runs =
      let (q₁, o, answers, d) = renew_lem task_id lease_id worker_id now q in
      branches q₁ o (sym answers ∙ runs) d
    where
      branches :
          (q₁ : Queue) (o : Fallible QueueError Lease)
          → ◌≡◌ {A = Queue × Fallible QueueError Lease} (q₁, o) (q', ok l')
          → Renewed task_id lease_id worker_id now q q₁ o
          → (t : Task) × (l : Lease) × Mine q t l
            × (l' ≡ record l { expires_at = now + q.lease_duration })
            × ((key : String)
                → lookup key q'.tasks ≡ (
                    if task_id == key
                    then some (record t { lease = some l' })
                    else lookup key q.tasks))
            × (q'.queued ≡ q.queued)
            × (q'.order ≡ q.order)
      branches q₁ o e (Renewed.refused x a) = cc (ap (λ x. x.1) e)
      branches q₁ o e (extended t l h) =
          let lease_is : record l { expires_at = now + q.lease_duration } ≡ l' =
            cc (ap (λ x. x.1) e) in
          let queue_is = ap (λ x. x.0) e in
          (
            t,
            l,
            h,
            sym lease_is,
            λ key.
                ap (λ (x : Queue). lookup key x.tasks) (sym queue_is)
                ∙ lookup-insert task_id key _ q.tasks
                ∙ ap
                    (λ x.
                      if task_id == key
                      then some (record t { lease = some x })
                      else lookup key q.tasks)
                    lease_is,
            ap (λ (x : Queue). x.queued) (sym queue_is),
            ap (λ (x : Queue). x.order) (sym queue_is),
          )
