-- ===== src/Coordinator/Status/Counting.antt =====
-- internal/coordinator/status.go: the counts that a status reports.
use inoculum.Shared.{
  ℕ, ◌+◌, ◌≡◌, refl, String, ◌==◌, Bool, true, false, ◌&&◌, ◌||◌, Option, none, some, List, [], ◌∷◌,
  arith, flag, length, if◌then◌else◌, GoMap, lookup, insert, lookup-insert, number, eq_iff,
}
use inoculum.LeaseQueue.Tasks.{TaskState, Task, Lease, Stats, is_leased, is_queued}
use inoculum.LeaseQueue.{bump}
use inoculum.Coordinator.Jobs.{is_failed}
use inoculum.Coordinator.Jobs.States.{is_completed}
use inoculum.Coordinator.Status.{count_states, count_task_states, tally, note_lease, at, increment}

-- countTaskStates counts each state, and every task in exactly one of them.
count_states_lem :
    (tasks : List Task) (s : Stats)
    → let r = count_states tasks s in
      (r.queued ≡ s.queued + number (λ t. is_queued t.state) tasks)
      × (r.leased ≡ s.leased + number (λ t. is_leased t.state) tasks)
      × (r.completed ≡ s.completed + number (λ t. is_completed t.state) tasks)
      × (r.failed ≡ s.failed + number (λ t. is_failed t.state) tasks)
      × (r.total ≡ s.total)
unfolding count_states bump
count_states_lem [] s = ground arith
count_states_lem (t ∷ tasks) s = ground (arith, count_states_lem tasks (bump t.state s))

one_state :
    (x : TaskState)
    → flag (is_queued x) + flag (is_leased x) + flag (is_completed x) + flag (is_failed x) ≡ 1
one_state TaskState.queued = refl
one_state TaskState.leased = refl
one_state TaskState.completed = refl
one_state TaskState.failed = refl

pub states_sum :
    (tasks : List Task)
    → number (λ t. is_queued t.state) tasks
        + number (λ t. is_leased t.state) tasks
        + number (λ t. is_completed t.state) tasks
        + number (λ t. is_failed t.state) tasks
      ≡ length tasks
states_sum [] = omega arith
states_sum (t ∷ tasks) = omega (arith, one_state t.state, states_sum tasks)

pub count_task_states_lem :
    (tasks : List Task)
    → let r = count_task_states tasks in
      (r.queued ≡ number (λ t. is_queued t.state) tasks)
      × (r.leased ≡ number (λ t. is_leased t.state) tasks)
      × (r.completed ≡ number (λ t. is_completed t.state) tasks)
      × (r.failed ≡ number (λ t. is_failed t.state) tasks)
      × (r.total ≡ length tasks)
      × (r.queued + r.leased + r.completed + r.failed ≡ r.total)
unfolding count_task_states
count_task_states_lem tasks =
    let loop =
      count_states_lem tasks
        (record { queued = 0; leased = 0; completed = 0; failed = 0; total = length tasks }) in
    ground (arith, loop, states_sum tasks)

-- The task is leased, and its lease is this worker's.
abbrev pub holds : String → Task → Bool
holds worker_id t = elim t.lease [
  | none ↦ false
  | some lease ↦ is_leased t.state && (lease.worker_id == worker_id)
]

at-increment : (k j : String) (m : GoMap ℕ) → at j (increment k m) ≡ flag (k == j) + at j m
at-increment k j m = ground (arith, lookup-insert k j (at k m + 1) m, eq_iff k j)

at-note_lease :
    (w : String) (t : Task) (active : GoMap ℕ)
    → at w (note_lease t active) ≡ flag (holds w t) + at w active
at-note_lease w t active = lease t.lease
  where
    lease :
        (o : Option Lease)
        → at w (elim o [
          | none ↦ active
          | some l ↦ if is_leased t.state then increment l.worker_id active else active
        ])
          ≡ flag (elim o [ none ↦ false | some l ↦ is_leased t.state && (l.worker_id == w) ])
            + at w active
    lease none = omega arith
    lease (some l) = ground (arith, at-increment l.worker_id w active)

-- activeLeases holds, for each worker, how many of the tasks it has under lease.
pub tally-active :
    (w : String) (tasks : List Task) (jobs : GoMap (Unit {0})) (active : GoMap ℕ)
    → at w (tally tasks jobs active).1 ≡ number (holds w) tasks + at w active
unfolding tally
tally-active w [] jobs active = omega arith
tally-active w (t ∷ tasks) jobs active = omega (
  arith,
  tally-active w tasks (insert t.job_id tt jobs) (note_lease t active),
  at-note_lease w t active,
)

-- Whether a job's id is there, in the map of jobs and among the tasks.
abbrev pub is_held {ℓ} : {V : Type ℓ} → Option V → Bool
is_held none = false
is_held (some _) = true

abbrev pub is_among : String → List Task → Bool
is_among job_id [] = false
is_among job_id (t ∷ tasks) = (t.job_id == job_id) || is_among job_id tasks

pub tally-jobs :
    (j : String) (tasks : List Task) (jobs : GoMap (Unit {0})) (active : GoMap ℕ)
    → is_held (lookup j (tally tasks jobs active).0) ≡ is_among j tasks || is_held (lookup j jobs)
unfolding tally
tally-jobs j [] jobs active = refl
tally-jobs j (t ∷ tasks) jobs active = ground (
  arith,
  tally-jobs j tasks (insert t.job_id tt jobs) (note_lease t active),
  lookup-insert t.job_id j tt jobs,
  eq_iff t.job_id j,
)
