-- ===== src/Coordinator/Jobs/States.antt =====
-- internal/coordinator/pull.go: what the state of a job says about its tasks.
use inoculum.Shared.{
  ◌≡◌, ◌↔◌, refl, ap, String, Bool, true, false, ◌&&◌, ◌||◌, not, List, [], ◌∷◌, map, all, arith,
  eqb,
}
use inoculum.Types.Wire.{PullJobState}
use inoculum.LeaseQueue.Tasks.{TaskState, Task, is_terminal}
use inoculum.Coordinator.Jobs.{
  Progress, observe_task, observe_tasks, job_state, job_response, job_task, no_progress, is_failed,
  state_text,
}

abbrev pub is_completed : TaskState → Bool
is_completed TaskState.completed = true
is_completed _ = false

abbrev pub all_in : (TaskState → Bool) → List Task → Bool
all_in p tasks = all (λ t. p t.state) tasks

abbrev pub never_started : List Task → Bool
never_started tasks = all (λ t. eqb t.attempts 0) tasks

-- The loop's three variables, as tests on the whole list.
observe_tasks_lem :
    (tasks : List Task) (p : Progress)
    → observe_tasks p tasks ≡ record {
      all_terminal = p.all_terminal && all_in is_terminal tasks;
      any_failed = p.any_failed || not (all_in (λ x. not (is_failed x)) tasks);
      started = p.started || not (never_started tasks);
    }
unfolding observe_tasks
observe_tasks_lem [] p = ground arith
observe_tasks_lem (t ∷ tasks) p = ground (arith, observe_tasks_lem tasks (observe_task p t))

-- A terminal task that has not failed is completed.
completed_split :
    (tasks : List Task)
    → all_in is_completed tasks ≡ all_in is_terminal tasks && all_in (λ x. not (is_failed x)) tasks
completed_split [] = refl
completed_split (t ∷ tasks) = state _ _ _ t.state (completed_split tasks)
  where
    state :
        (a b c : Bool) (x : TaskState)
        → a ≡ b && c
        → (is_completed x && a) ≡ ((is_terminal x && b) && (not (is_failed x) && c))
    state a b c TaskState.queued e = refl
    state a b c TaskState.leased e = refl
    state a b c TaskState.completed e = e
    state a b c TaskState.failed e = ground arith

-- The four states of a job, from the three variables.
job_state_cases :
    (terminal unfailed fresh completed : Bool)
    → completed ≡ terminal && unfailed
    → let state =
        job_state
          (record { all_terminal = terminal; any_failed = not unfailed; started = not fresh }) in
      ((state ≡ PullJobState.completed) ↔ (completed ≡ true))
      × ((state ≡ PullJobState.failed) ↔ ((terminal ≡ true) × (completed ≡ false)))
      × ((state ≡ PullJobState.running) ↔ ((terminal ≡ false) × (fresh ≡ false)))
      × ((state ≡ PullJobState.queued) ↔ ((terminal ≡ false) × (fresh ≡ true)))
unfolding job_state
job_state_cases terminal unfailed fresh completed e = ground arith

map-map :
    {A B C : Type 0} (g : B → C) (f : A → B) (xs : List A)
    → map g (map f xs) ≡ map (λ x. g (f x)) xs
map-map g f [] = refl
map-map g f (x ∷ xs) = ap (λ ys. g (f x) ∷ ys) (map-map g f xs)

pub job_response_lem :
    (job_id : String) (tasks : List Task)
    → let state = (job_response job_id tasks).state in
      ((state ≡ PullJobState.completed) ↔ (all_in is_completed tasks ≡ true))
      × ((state ≡ PullJobState.failed)
          ↔ ((all_in is_terminal tasks ≡ true) × (all_in is_completed tasks ≡ false)))
      × ((state ≡ PullJobState.running)
          ↔ ((all_in is_terminal tasks ≡ false) × (never_started tasks ≡ false)))
      × ((state ≡ PullJobState.queued)
          ↔ ((all_in is_terminal tasks ≡ false) × (never_started tasks ≡ true)))
      × (map (λ t. t.task_id) (job_response job_id tasks).tasks ≡ map (λ t. t.id) tasks)
      × (map (λ t. t.state) (job_response job_id tasks).tasks ≡ map (λ t. state_text t.state) tasks)
unfolding job_response
job_response_lem job_id tasks =
    let (done, failed, running, waiting) =
      job_state_cases (all_in is_terminal tasks) (all_in (λ x. not (is_failed x)) tasks)
        (never_started tasks) (all_in is_completed tasks) (completed_split tasks) in
    rw (observe_tasks_lem tasks no_progress)
      (done, failed, running, waiting, map-map _ job_task tasks, map-map _ job_task tasks)
