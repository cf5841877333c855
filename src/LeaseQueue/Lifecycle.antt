-- ===== src/LeaseQueue/Lifecycle.antt =====
-- internal/leasequeue/queue.go and SPEC.md, "Task lifecycle": the moves that a task may make,
-- as a relation that names no operation of the queue.
use inoculum.Shared.{
  insert, lookup-insert, eq_iff, Bool-cases, ◌==◌, ℕ, ◌≤◌, ◌<◌, String, ◌≡◌, refl, ap, ◌∙◌, none,
  some, arith, GoMap, lookup, true, false, inl, inr,
}
use inoculum.LeaseQueue.Tasks.{TaskState, Task, Lease, Result, is_terminal}
use inoculum.LeaseQueue.{spec_of, leased_task, failed_task, requeued_task}

abbrev pub completed_task : Result → Task → Task
completed_task r t = record t { state = TaskState.completed; result = some r; lease = none }

pub data Move (limit : ℕ) (t u : Task) : Type 0 where
  -- a waiting task is leased, which is one more attempt
  leases :
      (l : Lease) → t.state ≡ TaskState.queued → u ≡ leased_task l.worker_id l t → Move limit t u
  -- a leased task's lease is renewed: only its expiry changes
  renews :
      (l : Lease) (e : ℕ)
      → t.state ≡ TaskState.leased
      → t.lease ≡ some l
      → u ≡ record t { lease = some (record l { expires_at = e }) }
      → Move limit t u
  completes :
      (r : Result)
      → t.state ≡ TaskState.leased
      → r.error ≡ ""
      → u ≡ completed_task r t
      → Move limit t u
  -- a leased task is given up, for good once its attempts are used up
  fails :
      (r : Result)
      → t.state ≡ TaskState.leased
      → limit ≤ t.attempts
      → u ≡ failed_task r t
      → Move limit t u
  retries : t.state ≡ TaskState.leased → t.attempts < limit → u ≡ requeued_task t → Move limit t u

-- Any number of moves.
pub data Lifecycle (limit : ℕ) (t : Task) : Task → Type 0 where
  stays : Lifecycle limit t t
  moves : {u v : Task} → Lifecycle limit t u → Move limit u v → Lifecycle limit t v

pub one : {limit : ℕ} {t u : Task} → Move limit t u → Lifecycle limit t u
one m = moves stays m

pub Lifecycle-trans :
    {limit : ℕ} {t u v : Task} → Lifecycle limit t u → Lifecycle limit u v → Lifecycle limit t v
Lifecycle-trans h stays = h
Lifecycle-trans h (moves k m) = moves (Lifecycle-trans h k) m

-- Every task of `m` is still in `m'`, and got there by moves of the lifecycle.
abbrev pub Advances : ℕ → GoMap Task → GoMap Task → Type 0
Advances limit m m' =
    (key : String) (t : Task)
    → lookup key m ≡ some t
    → (u : Task) × (lookup key m' ≡ some u) × Lifecycle limit t u

pub Advances-refl : (limit : ℕ) (m : GoMap Task) → Advances limit m m
Advances-refl limit m key t h = (t, h, stays)

pub Advances-trans :
    (limit : ℕ) (m m' m'' : GoMap Task)
    → Advances limit m m'
    → Advances limit m' m''
    → Advances limit m m''
Advances-trans limit m m' m'' f g key t h =
    let (u, found, before) = f key t h in
    let (v, found', after) = g key u found in (v, found', Lifecycle-trans before after)

-- What no move changes, and what only grows.
Move-spec : {limit : ℕ} {t u : Task} → Move limit t u → spec_of u ≡ spec_of t
Move-spec (leases l s e) = ap spec_of e
Move-spec (renews l x s h e) = ap spec_of e
Move-spec (completes r s b e) = ap spec_of e
Move-spec (fails r s b e) = ap spec_of e
Move-spec (retries s b e) = ap spec_of e

pub Lifecycle-spec : {limit : ℕ} {t u : Task} → Lifecycle limit t u → spec_of u ≡ spec_of t
Lifecycle-spec stays = refl
Lifecycle-spec (moves h m) = Move-spec m ∙ Lifecycle-spec h

Move-terminal : {limit : ℕ} {t u : Task} → Move limit t u → is_terminal t.state ≡ false
Move-terminal (leases l s e) = ap is_terminal s
Move-terminal (renews l x s h e) = ap is_terminal s
Move-terminal (completes r s b e) = ap is_terminal s
Move-terminal (fails r s b e) = ap is_terminal s
Move-terminal (retries s b e) = ap is_terminal s

-- A completed or failed task stays as it is, its result included.
pub Lifecycle-terminal :
    {limit : ℕ} {t u : Task} → Lifecycle limit t u → is_terminal t.state ≡ true → u ≡ t
Lifecycle-terminal stays h = refl
Lifecycle-terminal (moves k m) h =
    let same = Lifecycle-terminal k h in
    ground (arith, Move-terminal m, ap (λ (x : Task). x.state) same)

Move-attempts : {limit : ℕ} {t u : Task} → Move limit t u → t.attempts ≤ u.attempts
Move-attempts (leases l s e) = ground arith
Move-attempts (renews l x s h e) = ground arith
Move-attempts (completes r s b e) = ground arith
Move-attempts (fails r s b e) = ground arith
Move-attempts (retries s b e) = ground arith

pub Lifecycle-attempts : {limit : ℕ} {t u : Task} → Lifecycle limit t u → t.attempts ≤ u.attempts
Lifecycle-attempts stays = omega arith
Lifecycle-attempts (moves h m) = omega (arith, Lifecycle-attempts h, Move-attempts m)

pub write-Advances :
    (limit : ℕ) (m : GoMap Task) (key : String) (t u : Task)
    → lookup key m ≡ some t
    → Lifecycle limit t u
    → Advances limit m (insert key u m)
write-Advances limit m key t u found life j x h = elim (Bool-cases (key == j)) [
  | inl same ↦ (u, rw (lookup-insert key j u m, same), ground (arith, eq_iff key j, life))
  | inr other ↦ (x, rw (lookup-insert key j u m, other) h, stays)
]

-- A new key moves no task.
pub add-Advances :
    (limit : ℕ) (m : GoMap Task) (key : String) (t : Task)
    → lookup key m ≡ none
    → Advances limit m (insert key t m)
add-Advances limit m key t absent j x h =
    (x, ground (arith, lookup-insert key j t m, eq_iff key j), stays)
