-- ===== src/LeaseQueue/Ownership.antt =====
-- internal/leasequeue/queue.go: who gets a task, in which order, and whose results count.
use inoculum.Shared.{
  ℕ, ◌<◌, String, ◌≡◌, ◌≢◌, Option, some, List, arith, lookup, lookup-insert, ok, subst, eq_iff,
  Result as Fallible,
}
use inoculum.LeaseQueue.Tasks.{Task, Lease, Assignment, TaskState, QueueError}
use inoculum.LeaseQueue.{Queue, claim, leased_task, issue}
use inoculum.LeaseQueue.Invariant.{IsValid}
use inoculum.LeaseQueue.Expiry.{Expires}
use inoculum.LeaseQueue.Claims.{claim_lem, Claimed, idle, granted}

-- The answers of a claim, taken apart by what the claim returned.
pub claim-inv :
    (worker_id : String) (now : ℕ) (lease_id : String) (q q' : Queue)
    (r : Fallible QueueError (Option Assignment))
    → IsValid q
    → worker_id ≢ ""
    → claim worker_id now lease_id q ≡ some (q', r)
    → (q₁ : Queue) × (expired : List String) × (a : Option Assignment) × (r ≡ ok a)
      × Expires now q q₁ expired
      × Claimed worker_id now lease_id q₁ q' a
claim-inv worker_id now lease_id q q' r v named e =
    let (q₁, q₂, expired, a, runs, swept, d) = claim_lem worker_id now lease_id q v named in
    let same : q₂ ≡ q' = cc (runs, e) in
    (q₁, expired, a, cc (runs, e), swept, subst (λ x. Claimed worker_id now lease_id q₁ x a) same d)

-- A claim never takes a task whose lease has time left: it and its lease stay as they are.
pub claim-keeps_live :
    (worker_id : String) (now : ℕ) (lease_id key : String) (t : Task) (l : Lease) (q q' : Queue)
    (r : Fallible QueueError (Option Assignment))
    → IsValid q
    → worker_id ≢ ""
    → lookup key q.tasks ≡ some t
    → t.state ≡ TaskState.leased
    → t.lease ≡ some l
    → now < l.expires_at
    → claim worker_id now lease_id q ≡ some (q', r)
    → lookup key q'.tasks ≡ some t
claim-keeps_live worker_id now lease_id key t l q q' r v named found held lease live e =
    let (q₁, expired, a, _, s, d) = claim-inv worker_id now lease_id q q' r v named e in
    let kept : lookup key q₁.tasks ≡ some t = ground (arith, s.tasks key) in after q₁ q' a kept d
  where
    after :
        (q₁ q₂ : Queue) (a : Option Assignment)
        → lookup key q₁.tasks ≡ some t
        → Claimed worker_id now lease_id q₁ q₂ a
        → lookup key q₂.tasks ≡ some t
    after q₁ _ _ kept (idle none_left) = kept
    after q₁ _ _ kept (granted k pending u first other waits) = ground (
      arith,
      lookup-insert k key
          (leased_task worker_id (issue worker_id now lease_id q₁.lease_duration u) u) q₁.tasks,
      eq_iff k key,
    )
