-- ===== src/LeaseQueue/Views.antt =====
-- internal/leasequeue/queue.go: Get, JobTasks, Snapshot, Observe and Stats, which read the tasks.
use inoculum.Shared.{
  ap₂, ℕ, ◌+◌, String, ◌==◌, ◌≡◌, refl, ap, ◌∙◌, Bool, true, some, List, [], ◌∷◌, map, arith,
  if◌then◌else◌, lookup, subst, All, GoMap, length,
}
use inoculum.LeaseQueue.Tasks.{Task, Stats}
use inoculum.LeaseQueue.{
  Queue, collect, get, job_tasks, snapshot, observe, stats, count_entries, bump,
}
use inoculum.LeaseQueue.Invariant.{IsValid}
use inoculum.LeaseQueue.Expiry.{Expires, expire_locked_lem, Covers, Covers-head, after_expiry}

abbrev pub keep {ℓ} : {A : Type ℓ} → (A → Bool) → List A → List A
keep wanted [] = []
keep wanted (x ∷ xs) = if wanted x then x ∷ keep wanted xs else keep wanted xs

-- `ts` is what the map holds at `ids`, one task for each id, in that order.
pub record Lists (m : GoMap Task) (ids : List String) (ts : List Task) : Type 0 where
  pub names : map (λ t. t.id) ts ≡ ids
  pub holds : All (λ t. lookup t.id m ≡ some t) ts

collect_lem :
    (ids : List String) (q : Queue)
    → IsValid q
    → Covers ids q
    → (ts : List Task) × ((wanted : Task → Bool)
        → collect wanted ids q.tasks ≡ some (keep wanted ts))
      × Lists q.tasks ids ts
unfolding collect
collect_lem [] q v c = ([], λ wanted. refl, record { names = refl; holds = tt })
collect_lem (id ∷ ids) q v c =
    let (t, found) = Covers-head id ids q c in
    let (ts, runs, lists) = collect_lem ids q v (λ key h. c key (omega arith)) in
    let keyed = (v.tasks id t found).keyed in
    (
      t ∷ ts,
      λ wanted. rw (found, runs wanted),
      record { names = ap₂ ◌∷◌ keyed lists.names; holds = (rw keyed found, lists.holds) },
    )

order-Covers : (q : Queue) → IsValid q → Covers q.order q
order-Covers q v key h = ground (arith, v.listed key)

keep_all {ℓ} : {A : Type ℓ} (xs : List A) → keep (λ _. true) xs ≡ xs
keep_all [] = refl
keep_all (x ∷ xs) = rw (keep_all xs)

-- Observe reads every task once, in the order in which they were added, and changes nothing.
pub observe_lem :
    (q : Queue) → IsValid q → (ts : List Task) × (observe q ≡ some ts) × Lists q.tasks q.order ts
unfolding observe
observe_lem q v =
    let (ts, runs, lists) = collect_lem q.order q v (order-Covers q v) in
    (ts, runs (λ _. true) ∙ ap some (keep_all ts), lists)

-- Snapshot is Observe after a sweep.
pub snapshot_lem :
    (now : ℕ) (q : Queue)
    → IsValid q
    → (q' : Queue) × (expired : List String) × (ts : List Task) × (snapshot now q ≡ some (q', ts))
      × (observe q' ≡ some ts)
      × Lists q'.tasks q.order ts
      × Expires now q q' expired
unfolding snapshot observe
snapshot_lem now q v =
    let (q', expired, sweeps, s) = expire_locked_lem now q v in
    let (ts, runs, lists) = observe_lem q' s.valid in
    (
      q',
      expired,
      ts,
      rw (sweeps, runs),
      runs,
      subst (λ ids. Lists q'.tasks ids ts) s.order lists,
      s,
    )

-- JobTasks keeps the tasks of one job from what Snapshot returns, with the same sweep.
pub job_tasks_lem :
    (job_id : String) (now : ℕ) (q : Queue)
    → IsValid q
    → (q' : Queue) × (expired : List String) × (ts : List Task) × (snapshot now q ≡ some (q', ts))
      × (job_tasks job_id now q ≡ some (q', keep (λ t. t.job_id == job_id) ts))
      × Expires now q q' expired
unfolding snapshot job_tasks
job_tasks_lem job_id now q v =
    let (q', expired, sweeps, s) = expire_locked_lem now q v in
    let (ts, runs, lists) = collect_lem q'.order q' s.valid (order-Covers q' s.valid) in
    (
      q',
      expired,
      ts,
      rw (sweeps, runs (λ _. true)) (rw (keep_all ts)),
      rw (sweeps, runs (λ t. t.job_id == job_id)),
      s,
    )

-- Get returns the task as the sweep leaves it.
pub get_lem :
    (task_id : String) (now : ℕ) (q : Queue)
    → IsValid q
    → (q' : Queue) × (expired : List String) × (get task_id now q
        ≡ some (q', after_expiry q.max_attempts now (lookup task_id q.tasks)))
      × Expires now q q' expired
unfolding get
get_lem task_id now q v =
    let (q', expired, sweeps, s) = expire_locked_lem now q v in
    (q', expired, rw (sweeps, s.tasks task_id), s)

count_entries-sum :
    (m : GoMap Task) (s : Stats)
    → let r = count_entries m s in
      (r.queued + r.leased + r.completed + r.failed
        ≡ s.queued + s.leased + s.completed + s.failed + length m)
      × (r.total ≡ s.total)
unfolding count_entries bump
count_entries-sum [] s = (omega arith, refl)
count_entries-sum ((_, t) ∷ m) s = ground (arith, count_entries-sum m (bump t.state s))

-- Every task is counted in exactly one of the four states.
pub stats_lem :
    (now : ℕ) (q : Queue)
    → IsValid q
    → (q' : Queue) × (expired : List String) × (s : Stats) × (stats now q ≡ some (q', s))
      × (s.queued + s.leased + s.completed + s.failed ≡ s.total)
      × (s.total ≡ length q'.tasks)
      × Expires now q q' expired
unfolding stats
stats_lem now q v =
    let (q', expired, sweeps, s) = expire_locked_lem now q v in
    let none_yet : Stats = record {
      queued = 0;
      leased = 0;
      completed = 0;
      failed = 0;
      total = length q'.tasks;
    } in
    let (sum, total) = count_entries-sum q'.tasks none_yet in
    (q', expired, count_entries q'.tasks none_yet, rw sweeps, omega (arith, sum, total), total, s)
