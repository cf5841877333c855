-- ===== src/LeaseQueue.antt =====
-- internal/leasequeue/queue.go: the coordinator's pull-based FIFO task queue.
-- Each exported method of the source holds the queue's mutex from its first use of the state to its
-- return, so a method is one function from the queue to the queue and its results. Its reading of
-- the clock and the lease id that `newLeaseID` would return are arguments. A map key stands for the
-- pointer that the map holds there, so a write through a `*Task` is a write at its key, and `none`
-- is the panic of a method that reads through a nil pointer.
pub mod Tasks
pub mod Invariant
pub mod Expiry
pub mod Lifecycle
pub mod Claims
pub mod Leases
pub mod Outcomes
pub mod Preservation
pub mod Views
pub mod History
pub mod Ownership
pub mod Delivery
pub mod Handover
pub mod Attempts
pub mod Examples
use Tasks.{
  TaskState, queued, leased, CompletionOutcome, QueueError, task_exists, task_not_found,
  invalid_worker, stale_lease, wrong_worker, already_completed, task_failed, task_id_required,
  TaskSpec, Result, Lease, Task, Assignment, Stats, is_queued, is_leased,
}
use inoculum.Shared.{
  ℕ, ◌+◌, String, ◌==◌, Bool, true, false, ◌&&◌, not, Option, none, some, List, [], ◌∷◌, ◌++◌, leb,
  ltb, if◌then◌else◌, ◌>>=◌, Result as Fallible, ok, err, GoMap, lookup, insert, length,
}
use inoculum.Shared.Int.{ℤ, pos, leb_ℤ, pos_part}

-- The two fields of the source's Config that are not functions: those are arguments.
pub record Config : Type 0 where
  pub lease_duration : ℤ
  pub max_attempts : ℤ

pub data ConfigError : Type 0 where
  lease_duration_not_positive max_attempts_not_positive : ConfigError

pub record Queue : Type 0 where
  pub lease_duration : ℕ
  pub max_attempts : ℕ
  pub queued : List String
  pub order : List String
  pub tasks : GoMap Task

unfoldable pub new : Config → Fallible ConfigError Queue
new config =
    if leb_ℤ config.lease_duration (pos 0)
    then err ConfigError.lease_duration_not_positive
    else if leb_ℤ config.max_attempts (pos 0)
    then err ConfigError.max_attempts_not_positive
    else ok (record {
      lease_duration = pos_part config.lease_duration;
      max_attempts = pos_part config.max_attempts;
      queued = [];
      order = [];
      tasks = [];
    })

abbrev pub fresh_task : TaskSpec → Task
fresh_task spec = record {
  id = spec.id;
  job_id = spec.job_id;
  key = spec.key;
  type = spec.type;
  input = spec.input;
  state = TaskState.queued;
  attempts = 0;
  worker_id = "";
  lease = none;
  result = none;
}

pub enqueue : TaskSpec → Queue → Queue × Fallible QueueError (Unit {0})
enqueue spec q =
    if spec.id == "" then (q, err task_id_required) else elim (lookup spec.id q.tasks) [
      | some _ ↦ (q, err task_exists)
      | none ↦ (
        record q {
          tasks = insert spec.id (fresh_task spec) q.tasks;
          queued = q.queued ++ spec.id ∷ [];
          order = q.order ++ spec.id ∷ [];
        },
        ok tt,
      )
    ]

-- !now.Before(lease.ExpiresAt)
abbrev pub run_out : ℕ → Lease → Bool
run_out now lease = not (ltb now lease.expires_at)

abbrev pub exhausted_message : String
exhausted_message = "lease expired and retry policy was exhausted"

-- The two ways out of a lease without a success, which Complete and expireTaskLocked write alike.
abbrev pub failed_task : Result → Task → Task
failed_task r task = record task { lease = none; state = TaskState.failed; result = some r }

abbrev pub requeued_task : Task → Task
requeued_task task = record task { lease = none; state = TaskState.queued; result = none }

-- expireTaskLocked, of the task whose pointer the map holds at `key`
pub expire_task_locked : String → Task → Queue → Queue
expire_task_locked key task q =
    if leb q.max_attempts task.attempts
    then record q {
      tasks =
          insert key
            (failed_task (record { output = ""; duration = pos 0; error = exhausted_message }) task)
            q.tasks;
    }
    else record q {
      tasks = insert key (requeued_task task) q.tasks;
      queued = q.queued ++ task.id ∷ [];
    }

-- The test of expireLocked: the task is leased, its lease is there, and its time is over.
abbrev pub is_expired : ℕ → Task → Bool
is_expired now task = elim task.lease [
  | none ↦ false
  | some lease ↦ is_leased task.state && run_out now lease
]

-- The loop of expireLocked over the ids that are left of `q.order`.
pub expire_each : ℕ → List String → Queue → Option (Queue × List String)
expire_each now [] q = some (q, [])
expire_each now (id ∷ ids) q = do
  task ← lookup id q.tasks
  (q', expired) ←
      expire_each now ids (if is_expired now task then expire_task_locked id task q else q)
  some (q', if is_expired now task then task.id ∷ expired else expired)

pub expire_locked : ℕ → Queue → Option (Queue × List String)
expire_locked now q = expire_each now q.order q

-- The lease that Claim issues, the task under it, and the part of a task that a worker is given.
abbrev pub issue : String → ℕ → String → ℕ → Task → Lease
issue worker_id now lease_id duration task = record {
  id = lease_id;
  task_id = task.id;
  worker_id = worker_id;
  issued_at = now;
  expires_at = now + duration;
  attempt = task.attempts + 1;
}

abbrev pub leased_task : String → Lease → Task → Task
leased_task worker_id lease task = record task {
  attempts = task.attempts + 1;
  state = TaskState.leased;
  worker_id = worker_id;
  lease = some lease;
}

abbrev pub spec_of : Task → TaskSpec
spec_of task = record {
  id = task.id;
  job_id = task.job_id;
  key = task.key;
  type = task.type;
  input = task.input;
}

-- The loop of Claim: `pending` is what is left of `q.queued`.
pub claim_next : String → ℕ → String → List String → Queue → Queue × Option Assignment
claim_next worker_id now lease_id [] q = (record q { queued = [] }, none)
claim_next worker_id now lease_id (task_id ∷ pending) q =
    let skip = claim_next worker_id now lease_id pending q in
    elim (lookup task_id q.tasks) [
      | none ↦ skip
      | some task ↦
          let lease = issue worker_id now lease_id q.lease_duration task in
          if is_queued task.state
          then (
            record q {
              queued = pending;
              tasks = insert task_id (leased_task worker_id lease task) q.tasks;
            },
            some (record { task = spec_of task; lease = lease }),
          )
          else skip
    ]

pub claim : String → ℕ → String → Queue → Option (Queue × Fallible QueueError (Option Assignment))
claim worker_id now lease_id q = if worker_id == "" then some (q, err invalid_worker) else do
  (q', _) ← expire_locked now q
  let (q'', assignment) = claim_next worker_id now lease_id q'.queued q'
  some (q'', ok assignment)

-- activeLeaseLocked: the task with its lease, or the error. Its last test gives the lease up.
pub active_lease_locked :
    String → String → String → ℕ → Queue → Queue × Fallible QueueError (Task × Lease)
active_lease_locked task_id lease_id worker_id now q = elim (lookup task_id q.tasks) [
  | none ↦ (q, err task_not_found)
  | some task ↦ elim task.state [
    | TaskState.completed ↦ (q, err already_completed)
    | TaskState.failed ↦ (q, err task_failed)
    | TaskState.queued ↦ (q, err stale_lease)
    | TaskState.leased ↦ elim task.lease [
      | none ↦ (q, err stale_lease)
      | some lease ↦
          if not (lease.id == lease_id)
          then (q, err stale_lease)
          else if not (lease.worker_id == worker_id)
          then (q, err wrong_worker)
          else if run_out now lease
          then (expire_task_locked task_id task q, err stale_lease)
          else (q, ok (task, lease))
    ]
  ]
]

pub renew : String → String → String → ℕ → Queue → Queue × Fallible QueueError Lease
renew task_id lease_id worker_id now q =
    let (q', active) = active_lease_locked task_id lease_id worker_id now q in
    elim active [
      | err e ↦ (q', err e)
      | ok (task, lease) ↦
          (let extended : Lease = record lease { expires_at = now + q'.lease_duration } in
            (
              record q' { tasks = insert task_id (record task { lease = some extended }) q'.tasks },
              ok extended,
            ))
    ]

pub complete :
    String → String → String → Result → ℕ → Queue → Queue × Fallible QueueError CompletionOutcome
complete task_id lease_id worker_id result now q =
    let (q', active) = active_lease_locked task_id lease_id worker_id now q in
    elim active [
      | err e ↦ (q', err e)
      | ok (task, _) ↦
          if result.error == ""
          then (
            record q' {
              tasks =
                  insert task_id
                    (record task {
                      state = TaskState.completed;
                      result = some result;
                      lease = none;
                    })
                    q'.tasks;
            },
            ok CompletionOutcome.completed,
          )
          else if leb q'.max_attempts task.attempts
          then (
            record q' { tasks = insert task_id (failed_task result task) q'.tasks },
            ok CompletionOutcome.failed,
          )
          else (
            record q' {
              tasks = insert task_id (requeued_task task) q'.tasks;
              queued = q'.queued ++ task.id ∷ [];
            },
            ok CompletionOutcome.requeued,
          )
    ]

pub requeue_expired : ℕ → Queue → Option (Queue × List String)
requeue_expired now q = expire_locked now q

pub get : String → ℕ → Queue → Option (Queue × Option Task)
get task_id now q = do (q', _) ← expire_locked now q; some (q', lookup task_id q'.tasks)

-- The tasks at the ids of `order`, of which `wanted` keeps some. Their copies are the values.
pub collect : (Task → Bool) → List String → GoMap Task → Option (List Task)
collect wanted [] tasks = some []
collect wanted (id ∷ ids) tasks = do
  task ← lookup id tasks
  rest ← collect wanted ids tasks
  some (if wanted task then task ∷ rest else rest)

pub job_tasks : String → ℕ → Queue → Option (Queue × List Task)
job_tasks job_id now q = do
  (q', _) ← expire_locked now q
  tasks ← collect (λ task. task.job_id == job_id) q'.order q'.tasks
  some (q', tasks)

unfoldable pub snapshot : ℕ → Queue → Option (Queue × List Task)
snapshot now q = do
  (q', _) ← expire_locked now q
  tasks ← collect (λ _. true) q'.order q'.tasks
  some (q', tasks)

pub observe : Queue → Option (List Task)
observe q = collect (λ _. true) q.order q.tasks

unfoldable pub bump : TaskState → Stats → Stats
bump TaskState.queued s = record s { queued = s.queued + 1 }
bump TaskState.leased s = record s { leased = s.leased + 1 }
bump TaskState.completed s = record s { completed = s.completed + 1 }
bump TaskState.failed s = record s { failed = s.failed + 1 }

pub count_entries : GoMap Task → Stats → Stats
count_entries [] s = s
count_entries ((_, task) ∷ rest) s = count_entries rest (bump task.state s)

pub stats : ℕ → Queue → Option (Queue × Stats)
stats now q = do
  (q', _) ← expire_locked now q
  some (
    q',
    count_entries q'.tasks
        (record { queued = 0; leased = 0; completed = 0; failed = 0; total = length q'.tasks }),
  )
