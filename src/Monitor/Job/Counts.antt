-- ===== src/Monitor/Job/Counts.antt =====
-- internal/monitor/job.go: what the counts of a job and of its workers are.
use mathlib.Core.List.{append-nil, append_assoc}
use inoculum.Shared.{
  ℕ, ◌+◌, ◌≡◌, ◌≢◌, refl, sym, ap, subst, ◌∙◌, String, ◌==◌, Bool, true, false, ◌&&◌, Option, none,
  some, List, [], ◌∷◌, ◌++◌, map, arith, flag, length, if◌then◌else◌, GoMap, lookup, insert,
  lookup-insert, eq_iff, Distinct, insert-Distinct, values-All, All, number, Bool-cases, inl, inr,
}
use inoculum.Shared.Sorting.{All-sort_by}
use inoculum.Types.Wire.{PullJobTask, PullJobResponse}
use inoculum.Monitor.Model.{JobProgress, WorkerContribution}
use inoculum.Monitor.Job.{
  count_state, count_work, no_work, worker_of, contribute, count_tasks, started, job_from_response,
  progress_of,
}

abbrev pub in_state : String → PullJobTask → Bool
in_state state task = task.state == state

abbrev pub in_state_by : String → String → PullJobTask → Bool
in_state_by worker_id state task = (task.worker_id == worker_id) && (task.state == state)

-- The four states are four texts.
count_state_lem :
    (state : String) (job : JobProgress)
    → let r = count_state state job in
      (r.queued ≡ job.queued + flag (state == "queued"))
      × (r.running ≡ job.running + flag (state == "leased"))
      × (r.completed ≡ job.completed + flag (state == "completed"))
      × (r.failed ≡ job.failed + flag (state == "failed"))
count_state_lem state job = ground (
  arith,
  eq_iff state "queued",
  eq_iff state "leased",
  eq_iff state "completed",
  eq_iff state "failed",
  eq_iff "queued" "leased",
  eq_iff "queued" "completed",
  eq_iff "queued" "failed",
  eq_iff "leased" "completed",
  eq_iff "leased" "failed",
  eq_iff "completed" "failed",
)

count_state-total : (state : String) (job : JobProgress) → (count_state state job).total ≡ job.total
count_state-total state job = ground arith

count_work_lem :
    (state : String) (worker : WorkerContribution)
    → let r = count_work state worker in
      (r.worker_id ≡ worker.worker_id)
      × (r.active ≡ worker.active + flag (state == "leased"))
      × (r.completed ≡ worker.completed + flag (state == "completed"))
      × (r.failed ≡ worker.failed + flag (state == "failed"))
count_work_lem state worker = ground (
  arith,
  eq_iff state "leased",
  eq_iff state "completed",
  eq_iff state "failed",
  eq_iff "leased" "completed",
  eq_iff "leased" "failed",
  eq_iff "completed" "failed",
)

-- The job's counts have grown by the tasks in each state, and the tasks stand behind those before.
record Counted (tasks : List PullJobTask) (job job' : JobProgress) : Type 0 where
  queued : job'.queued ≡ job.queued + number (in_state "queued") tasks
  running : job'.running ≡ job.running + number (in_state "leased") tasks
  completed : job'.completed ≡ job.completed + number (in_state "completed") tasks
  failed : job'.failed ≡ job.failed + number (in_state "failed") tasks
  total : job'.total ≡ job.total
  listed : job'.tasks ≡ job.tasks ++ map progress_of tasks

count_tasks-Counted :
    (tasks : List PullJobTask) (job : JobProgress) (workers : GoMap WorkerContribution)
    → Counted tasks job (count_tasks tasks job workers).0
unfolding count_tasks
count_tasks-Counted [] job workers = record {
  queued = omega arith;
  running = omega arith;
  completed = omega arith;
  failed = omega arith;
  total = refl;
  listed = sym (append-nil job.tasks);
}
count_tasks-Counted (task ∷ tasks) job workers =
    let one = count_state_lem task.state job in
    let c =
      count_tasks-Counted tasks
        (record (count_state task.state job) { tasks = job.tasks ++ progress_of task ∷ [] })
        (contribute task workers) in
    record {
      queued = omega (arith, one.0, c.queued);
      running = omega (arith, one.1, c.running);
      completed = omega (arith, one.2, c.completed);
      failed = omega (arith, one.3, c.failed);
      total = c.total ∙ count_state-total task.state job;
      listed = c.listed ∙ append_assoc job.tasks (progress_of task ∷ []) (map progress_of tasks);
    }

-- What a worker's entry holds, once the tasks have been counted.
record Worked (tasks : List PullJobTask) (id : String) (w w' : WorkerContribution) : Type 0 where
  named : w'.worker_id ≡ w.worker_id
  active : w'.active ≡ w.active + number (in_state_by id "leased") tasks
  completed : w'.completed ≡ w.completed + number (in_state_by id "completed") tasks
  failed : w'.failed ≡ w.failed + number (in_state_by id "failed") tasks

-- The entry at one id, after a write at another.
abbrev added : PullJobTask → GoMap WorkerContribution → WorkerContribution
added task workers = count_work task.state (worker_of task.worker_id workers)

abbrev entry_or : String → Option WorkerContribution → WorkerContribution
entry_or id o = elim o [ none ↦ no_work id | some w ↦ w ]

stores :
    (id key : String) (w : WorkerContribution) (workers : GoMap WorkerContribution)
    → worker_of id (insert key w workers)
      ≡ entry_or id (if key == id then some w else lookup id workers)
stores id key w workers = ap (entry_or id) (lookup-insert key id w workers)

contribute_lem :
    (id : String) (task : PullJobTask) (workers : GoMap WorkerContribution)
    → id ≢ ""
    → worker_of id (contribute task workers) ≡ (
        if task.worker_id == id
        then count_work task.state (worker_of id workers)
        else worker_of id workers)
contribute_lem id task workers named = elim (Bool-cases (task.worker_id == id)) [
  | inl same ↦
      let e = (eq_iff task.worker_id id).0 same in
      let present : (task.worker_id == "") ≡ false =
        ground (arith, eq_iff task.worker_id "", eq_iff task.worker_id id) in
      let stored = stores id task.worker_id (added task workers) workers in
      rw (present, same)
        ((stored
            ∙ ap (λ b. entry_or id (if b then some (added task workers) else lookup id workers))
                same)
          ∙ ap (λ k. count_work task.state (worker_of k workers)) e)
  | inr other ↦ elim (Bool-cases (task.worker_id == "")) [
    | inl absent ↦ rw (absent, other) refl
    | inr present ↦
        let stored = stores id task.worker_id (added task workers) workers in
        rw (present, other)
          (stored
            ∙ ap (λ b. entry_or id (if b then some (added task workers) else lookup id workers))
                other)
  ]
]

one_work :
    (mine : Bool) (state : String) (w : WorkerContribution)
    → let r = if mine then count_work state w else w in
      (r.worker_id ≡ w.worker_id)
      × (r.active ≡ w.active + flag (mine && (state == "leased")))
      × (r.completed ≡ w.completed + flag (mine && (state == "completed")))
      × (r.failed ≡ w.failed + flag (mine && (state == "failed")))
one_work true state w = count_work_lem state w
one_work false state w = ground arith

count_tasks-Worked :
    (id : String) (tasks : List PullJobTask) (job : JobProgress)
    (workers : GoMap WorkerContribution)
    → id ≢ ""
    → Worked tasks id (worker_of id workers) (worker_of id (count_tasks tasks job workers).1)
unfolding count_tasks
count_tasks-Worked id [] job workers named = record {
  named = refl;
  active = omega arith;
  completed = omega arith;
  failed = omega arith;
}
count_tasks-Worked id (task ∷ tasks) job workers named =
    let job' = record (count_state task.state job) { tasks = job.tasks ++ progress_of task ∷ [] } in
    let c = count_tasks-Worked id tasks job' (contribute task workers) named in
    let step = contribute_lem id task workers named in
    let one = one_work (task.worker_id == id) task.state (worker_of id workers) in
    record {
      named = c.named ∙ ap (λ w. w.worker_id) step ∙ one.0;
      active = omega (arith, c.active, ap (λ w. w.active) step, one.1);
      completed = omega (arith, c.completed, ap (λ w. w.completed) step, one.2);
      failed = omega (arith, c.failed, ap (λ w. w.failed) step, one.3);
    }

contribute_keeps :
    (task : PullJobTask) (workers : GoMap WorkerContribution)
    → Distinct workers × (lookup "" workers ≡ none)
    → Distinct (contribute task workers) × (lookup "" (contribute task workers) ≡ none)
contribute_keeps task workers (d, none_there) = elim (Bool-cases (task.worker_id == "")) [
  | inl absent ↦ rw absent (d, none_there)
  | inr present ↦ rw present (
    insert-Distinct task.worker_id (added task workers) workers d,
    lookup-insert task.worker_id "" (added task workers) workers
        ∙ ap (λ b. if b then some (added task workers) else lookup "" workers) present
        ∙ none_there,
  )
]

count_tasks_keeps :
    (tasks : List PullJobTask) (job : JobProgress) (workers : GoMap WorkerContribution)
    → Distinct workers × (lookup "" workers ≡ none)
    → Distinct (count_tasks tasks job workers).1
      × (lookup "" (count_tasks tasks job workers).1 ≡ none)
unfolding count_tasks
count_tasks_keeps [] job workers k = k
count_tasks_keeps (task ∷ tasks) job workers k =
    count_tasks_keeps tasks
      (record (count_state task.state job) { tasks = job.tasks ++ progress_of task ∷ [] })
      (contribute task workers) (contribute_keeps task workers k)

-- What a contribution says: the tasks of this worker in each of the three states.
abbrev pub IsContribution : List PullJobTask → WorkerContribution → Type 0
IsContribution tasks w =
    (w.worker_id ≢ "")
    × (w.active ≡ number (in_state_by w.worker_id "leased") tasks)
    × (w.completed ≡ number (in_state_by w.worker_id "completed") tasks)
    × (w.failed ≡ number (in_state_by w.worker_id "failed") tasks)

contribution :
    (response : PullJobResponse) (started_at : Option ℕ) (observed_at : ℕ) (id : String)
    (w : WorkerContribution)
    → let workers = (count_tasks response.tasks (started response started_at observed_at) []).1 in
      lookup "" workers ≡ none → lookup id workers ≡ some w → IsContribution response.tasks w
unfolding lookup
contribution response started_at observed_at id w nameless found =
    let tasks = response.tasks in
    let named : id ≢ "" = λ e. cc (nameless, found, e) in
    let k = count_tasks-Worked id tasks (started response started_at observed_at) [] named in
    let at = ap (entry_or id) found in
    let same = sym (ap (λ w. w.worker_id) at) ∙ k.named in
    subst
      (λ id.
        (id ≢ "")
        × (w.active ≡ number (in_state_by id "leased") tasks)
        × (w.completed ≡ number (in_state_by id "completed") tasks)
        × (w.failed ≡ number (in_state_by id "failed") tasks))
      (sym same)
      (
        named,
        omega (arith, k.active, ap (λ w. w.active) at),
        omega (arith, k.completed, ap (λ w. w.completed) at),
        omega (arith, k.failed, ap (λ w. w.failed) at),
      )

-- JobFromResponse counts, for the job and for each worker that it lists, the tasks in each state,
-- and lists every task of the response once, in its order. No worker is listed without a name.
pub job_from_response_lem :
    (response : PullJobResponse) (started_at : Option ℕ) (observed_at : ℕ)
    → let job = job_from_response response started_at observed_at in
      (job.queued ≡ number (in_state "queued") response.tasks)
      × (job.running ≡ number (in_state "leased") response.tasks)
      × (job.completed ≡ number (in_state "completed") response.tasks)
      × (job.failed ≡ number (in_state "failed") response.tasks)
      × (job.total ≡ length response.tasks)
      × (job.tasks ≡ map progress_of response.tasks)
      × All (IsContribution response.tasks) job.workers
unfolding job_from_response lookup
job_from_response_lem response started_at observed_at =
    let tasks = response.tasks in
    let c = count_tasks-Counted tasks (started response started_at observed_at) [] in
    let kept = count_tasks_keeps tasks (started response started_at observed_at) [] (tt, refl) in
    (
      omega (arith, c.queued),
      omega (arith, c.running),
      omega (arith, c.completed),
      omega (arith, c.failed),
      c.total,
      c.listed,
      All-sort_by (λ w. w.worker_id) _ _
          (values-All _ _ kept.0
            (λ id w found. contribution response started_at observed_at id w kept.1 found)),
    )
