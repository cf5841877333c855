-- ===== src/LeaseQueue/Leases.antt =====
-- internal/leasequeue/queue.go: activeLeaseLocked, Renew and Complete, branch by branch.
use inoculum.Shared.{
  ℕ, ◌≤◌, ◌<◌, String, ◌==◌, ◌≡◌, ◌≢◌, refl, Option, none, some, arith, lookup, eq_iff, inl, inr,
  Bool-cases, Option-cases, ◌⊎◌, ok, err, Result as Fallible, ltb,
}
use inoculum.LeaseQueue.Tasks.{
  TaskState, Task, Lease, QueueError, task_not_found, stale_lease, wrong_worker, already_completed,
  task_failed,
}
use inoculum.LeaseQueue.{Queue, active_lease_locked, expire_task_locked}

module _ (task_id lease_id worker_id : String) (now : ℕ) where
  -- The caller's lease `l` on `t` is the current one, is the caller's, and has time left.
  pub record Holds (q : Queue) (t : Task) (l : Lease) : Type 0 where
    pub found : lookup task_id q.tasks ≡ some t
    pub state : t.state ≡ TaskState.leased
    pub lease : t.lease ≡ some l
    pub same : l.id ≡ lease_id
    pub owner : l.worker_id ≡ worker_id
    pub live : now < l.expires_at

  -- The branches of activeLeaseLocked, with the queue and the answer that each gives.
  pub data Active (q : Queue) : Queue → Fallible QueueError (Task × Lease) → Type 0 where
    missing : lookup task_id q.tasks ≡ none → Active q q (err task_not_found)
    finished :
        (t : Task)
        → lookup task_id q.tasks ≡ some t
        → t.state ≡ TaskState.completed
        → Active q q (err already_completed)
    given_up :
        (t : Task)
        → lookup task_id q.tasks ≡ some t
        → t.state ≡ TaskState.failed
        → Active q q (err task_failed)
    not_leased :
        (t : Task)
        → lookup task_id q.tasks ≡ some t
        → (t.state ≡ TaskState.queued) ⊎ ((t.state ≡ TaskState.leased) × (t.lease ≡ none))
        → Active q q (err stale_lease)
    replaced :
        (t : Task) (l : Lease)
        → lookup task_id q.tasks ≡ some t
        → t.state ≡ TaskState.leased
        → t.lease ≡ some l
        → l.id ≢ lease_id
        → Active q q (err stale_lease)
    not_owner :
        (t : Task) (l : Lease)
        → lookup task_id q.tasks ≡ some t
        → t.state ≡ TaskState.leased
        → t.lease ≡ some l
        → l.id ≡ lease_id
        → l.worker_id ≢ worker_id
        → Active q q (err wrong_worker)
    ran_out :
        (t : Task) (l : Lease)
        → lookup task_id q.tasks ≡ some t
        → t.state ≡ TaskState.leased
        → t.lease ≡ some l
        → l.id ≡ lease_id
        → l.worker_id ≡ worker_id
        → l.expires_at ≤ now
        → Active q (expire_task_locked task_id t q) (err stale_lease)
    active : (t : Task) (l : Lease) → Holds q t l → Active q q (ok (t, l))

  abbrev Answers : Queue → Type 0
  Answers q =
      (q' : Queue) × (r : Fallible QueueError (Task × Lease)) × (active_lease_locked task_id
          lease_id worker_id now q
        ≡ (q', r))
      × Active q q' r

  -- activeLeaseLocked takes one of these branches, and which one is decided by the task.
  pub active_lease_locked_lem : (q : Queue) → Answers q
  unfolding active_lease_locked
  active_lease_locked_lem q = at (lookup task_id q.tasks) refl
    where
      with_lease :
          (t : Task) (l : Lease)
          → lookup task_id q.tasks ≡ some t
          → t.state ≡ TaskState.leased
          → t.lease ≡ some l
          → Answers q
      with_lease t l f s h = elim (Bool-cases (l.id == lease_id)) [
        | inr other ↦
            (_, _, ground arith, replaced t l f s h (ground (arith, eq_iff l.id lease_id)))
        | inl same ↦ elim (Bool-cases (l.worker_id == worker_id)) [
          | inr other ↦ (
            _,
            _,
            ground arith,
            not_owner t l f s h ((eq_iff l.id lease_id).0 same)
                (ground (arith, eq_iff l.worker_id worker_id)),
          )
          | inl own ↦ elim (Bool-cases (ltb now l.expires_at)) [
            | inl live ↦ (
              _,
              _,
              ground arith,
              active t l (record {
                found = f;
                state = s;
                lease = h;
                same = (eq_iff l.id lease_id).0 same;
                owner = (eq_iff l.worker_id worker_id).0 own;
                live = ground arith;
              }),
            )
            | inr over ↦ (
              _,
              _,
              ground arith,
              ran_out t l f s h ((eq_iff l.id lease_id).0 same)
                  ((eq_iff l.worker_id worker_id).0 own) (ground arith),
            )
          ]
        ]
      ]

      by_state :
          (t : Task) (s : TaskState) → lookup task_id q.tasks ≡ some t → t.state ≡ s → Answers q
      by_state t TaskState.queued f s = (_, _, ground arith, not_leased t f (inl s))
      by_state t TaskState.completed f s = (_, _, ground arith, finished t f s)
      by_state t TaskState.failed f s = (_, _, ground arith, given_up t f s)
      by_state t TaskState.leased f s = elim (Option-cases t.lease) [
        | inl h ↦ (_, _, ground arith, not_leased t f (inr (s, h)))
        | inr (l, h) ↦ with_lease t l f s h
      ]

      at : (o : Option Task) → lookup task_id q.tasks ≡ o → Answers q
      at none f = (_, _, ground arith, missing f)
      at (some t) f = by_state t t.state f refl
