-- ===== src/LeaseQueue/Claims.antt =====
-- internal/leasequeue/queue.go: Claim. The loop's test for a stale entry never fires in a valid
-- queue, so a claim takes the head of the queue as the sweep left it.
use inoculum.Shared.{
  ℕ, String, ◌≡◌, ◌≢◌, refl, sym, ap, ◌∙◌, true, Option, none, some, List, [], ◌∷◌, arith, count,
  lookup, insert, eq_iff, eq_refl, ok, subst,
}
use inoculum.LeaseQueue.Tasks.{TaskState, Task, Assignment, is_queued}
use inoculum.LeaseQueue.{Queue, claim_next, claim, issue, leased_task, spec_of}
use inoculum.LeaseQueue.Invariant.{IsValid, Fits, StateFits, dequeue-IsValid}
use inoculum.LeaseQueue.Expiry.{Expires, expire_locked_lem}
use inoculum.LeaseQueue.Lifecycle.{Advances, Advances-refl, write-Advances, one, leases}

-- What Claim does with the head of the queue.
abbrev pub grant : String → ℕ → String → String → List String → Task → Queue → Queue
grant worker_id now lease_id key pending t q = record q {
  queued = pending;
  tasks =
      insert key (leased_task worker_id (issue worker_id now lease_id q.lease_duration t) t)
        q.tasks;
}

abbrev pub assignment : String → ℕ → String → Task → Queue → Assignment
assignment worker_id now lease_id t q = record {
  task = spec_of t;
  lease = issue worker_id now lease_id q.lease_duration t;
}

-- The head of a valid queue is a waiting task.
head-waiting :
    (q : Queue) (key : String) (pending : List String)
    → IsValid q
    → q.queued ≡ key ∷ pending
    → (t : Task) × (lookup key q.tasks ≡ some t) × (is_queued t.state ≡ true)
head-waiting q key pending v e = waits (lookup key q.tasks) refl
  where
    waits :
        (o : Option Task)
        → lookup key q.tasks ≡ o
        → (t : Task) × (lookup key q.tasks ≡ some t) × (is_queued t.state ≡ true)
    waits none h = ground (arith, v.waiting key, ap (count key) e, eq_refl key)
    waits (some t) h = (t, h, ground (arith, v.waiting key, ap (count key) e, eq_refl key))

leased_task-Fits :
    {limit : ℕ} {key : String} {t : Task} (worker_id lease_id : String) (now duration : ℕ)
    → Fits limit key t
    → t.state ≡ TaskState.queued
    → Fits limit key (leased_task worker_id (issue worker_id now lease_id duration t) t)
leased_task-Fits {limit} {key} {t} worker_id lease_id now duration f e =
    let waits = subst (λ s. StateFits s limit t) e f.state in
    record {
      keyed = f.keyed;
      named = f.named;
      state = (
        issue worker_id now lease_id duration t,
        refl,
        refl,
        refl,
        refl,
        waits.1,
        omega arith,
        omega (arith, waits.2),
      );
    }

is_queued-eq : (s : TaskState) → is_queued s ≡ true → s ≡ TaskState.queued
is_queued-eq s h = ground arith

module _ (worker_id : String) (now : ℕ) (lease_id : String) where
  -- The loop of Claim in a valid queue: nothing to do, or a lease on the head.
  pub claim_next-none :
      (q : Queue) → q.queued ≡ [] → claim_next worker_id now lease_id q.queued q ≡ (q, none)
  unfolding claim_next
  claim_next-none q e =
      ap (λ xs. claim_next worker_id now lease_id xs q) e
      ∙ ap (λ xs. (record q { queued = xs }, none)) (sym e)

  pub claim_next-some :
      (q : Queue) (key : String) (pending : List String)
      → IsValid q
      → q.queued ≡ key ∷ pending
      → (t : Task) × (lookup key q.tasks ≡ some t)
        × (t.state ≡ TaskState.queued)
        × (claim_next worker_id now lease_id q.queued q ≡ (
          grant worker_id now lease_id key pending t q,
          some (assignment worker_id now lease_id t q),
        ))
  unfolding claim_next
  claim_next-some q key pending v e =
      let (t, found, waits) = head-waiting q key pending v e in
      (
        t,
        found,
        is_queued-eq t.state waits,
        ap (λ xs. claim_next worker_id now lease_id xs q) e ∙ rw (found, claim_next) (rw waits),
      )

  -- The queue and the answer after a claim whose sweep left `q`.
  pub data Claimed (q : Queue) : Queue → Option Assignment → Type 0 where
    idle : q.queued ≡ [] → Claimed q q none
    granted :
        (key : String) (pending : List String) (t : Task)
        → q.queued ≡ key ∷ pending
        → lookup key q.tasks ≡ some t
        → t.state ≡ TaskState.queued
        → Claimed q
            (grant worker_id now lease_id key pending t q)
            (some (assignment worker_id now lease_id t q))

  claim_next-Claimed :
      (q : Queue)
      → IsValid q
      → (q' : Queue) × (a : Option Assignment) × (claim_next worker_id now lease_id q.queued q
          ≡ (q', a))
        × Claimed q q' a
  claim_next-Claimed q v = split q.queued refl
    where
      split :
          (xs : List String)
          → q.queued ≡ xs
          → (q' : Queue) × (a : Option Assignment) × (claim_next worker_id now lease_id q.queued q
              ≡ (q', a))
            × Claimed q q' a
      split [] e = (q, none, claim_next-none q e, idle e)
      split (key ∷ pending) e =
          let (t, found, waits, runs) = claim_next-some q key pending v e in
          (_, _, runs, granted key pending t e found waits)

  -- In a valid queue a claim by a named worker answers: after the sweep it leases the head of the
  -- queue, or there is no waiting task and it changes nothing more.
  pub claim_lem :
      (q : Queue)
      → IsValid q
      → worker_id ≢ ""
      → (q₁ : Queue) × (q₂ : Queue) × (expired : List String) × (a : Option Assignment) × (claim
            worker_id now lease_id q
          ≡ some (q₂, ok a))
        × Expires now q q₁ expired
        × Claimed q₁ q₂ a
  unfolding claim
  claim_lem q v named =
      let (q₁, expired, sweeps, swept) = expire_locked_lem now q v in
      let (q₂, a, runs, claimed) = claim_next-Claimed q₁ swept.valid in
      (q₁, q₂, expired, a, rw (sweeps, runs) (ground (arith, eq_iff worker_id "")), swept, claimed)

  pub Claimed-IsValid :
      {q q' : Queue} {a : Option Assignment} → IsValid q → Claimed q q' a → IsValid q'
  Claimed-IsValid v (idle e) = v
  Claimed-IsValid {q} v (granted key pending t e found waits) =
      dequeue-IsValid q key t _ v found
        (leased_task-Fits worker_id lease_id now q.lease_duration (v.tasks key t found) waits)
        pending e (ap is_queued waits) refl

  pub Claimed-Advances :
      {q q' : Queue} {a : Option Assignment}
      → Claimed q q' a
      → Advances q.max_attempts q.tasks q'.tasks
  Claimed-Advances {q} (idle e) = Advances-refl q.max_attempts q.tasks
  Claimed-Advances {q} (granted key pending t e found waits) =
      write-Advances q.max_attempts q.tasks key t _ found
        (one (leases (issue worker_id now lease_id q.lease_duration t) waits refl))

  pub Claimed-policy :
      {q q' : Queue} {a : Option Assignment}
      → Claimed q q' a
      → (q'.max_attempts ≡ q.max_attempts) × (q'.lease_duration ≡ q.lease_duration)
  Claimed-policy (idle e) = (refl, refl)
  Claimed-policy (granted key pending t e found waits) = (refl, refl)
