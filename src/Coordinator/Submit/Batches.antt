-- ===== src/Coordinator/Submit/Batches.antt =====
-- internal/coordinator/pull.go: what a submitted batch becomes in the queue.
use mathlib.Core.List.{append-nil, append_assoc}
use inoculum.Shared.{
  ℕ, ◌+◌, ◌^◌, ◌≤◌, ◌<◌, ◌≡◌, ◌≢◌, refl, sym, ap, ◌∙◌, String, ◌==◌, Option, none, some, List, [],
  ◌∷◌, ◌++◌, map, arith, length, if◌then◌else◌, ok, insert, lookup, lookup-insert, eq_iff,
}
use inoculum.Text.Naming.{numbered_inj, append-nonempty}
use inoculum.Workload.{Task}
use inoculum.LeaseQueue.Tasks.{TaskSpec, Task as QueueTask}
use inoculum.LeaseQueue.{Queue, fresh_task}
use inoculum.LeaseQueue.Preservation.{enqueue_new}
use inoculum.Coordinator.Submit.{task_id_at, spec_at, enqueue_tasks, followed_by, with_id}

-- The specifications of the tasks from index `i` on.
abbrev pub specs_from : String → String → ℕ → List Task → List TaskSpec
specs_from job_id type i [] = []
specs_from job_id type i (t ∷ ts) = spec_at job_id type i t ∷ specs_from job_id type (i + 1) ts

abbrev pub ids : List TaskSpec → List String
ids specs = map (λ spec. spec.id) specs

abbrev pub spec_named : String → List TaskSpec → Option TaskSpec
spec_named key [] = none
spec_named key (spec ∷ specs) = if spec.id == key then some spec else spec_named key specs

-- What the map holds at a key, once the specifications have been added as new tasks.
abbrev pub with_new : Option TaskSpec → Option QueueTask → Option QueueTask
with_new none old = old
with_new (some spec) old = some (fresh_task spec)

-- `q'` is `q` with a fresh task for each specification, behind all others and in this order.
pub record Enqueued (specs : List TaskSpec) (q q' : Queue) : Type 0 where
  pub queued : q'.queued ≡ q.queued ++ ids specs
  pub order : q'.order ≡ q.order ++ ids specs
  pub tasks :
      (key : String) → lookup key q'.tasks ≡ with_new (spec_named key specs) (lookup key q.tasks)

abbrev pub IsFree : String → Queue → Type 0
IsFree job_id q = (i : ℕ) → i < 2 ^ 64 → lookup (task_id_at job_id i) q.tasks ≡ none

-- The ids of a job are different, so none of them is that of a later task.
spec_named-later :
    (job_id type : String) (i j : ℕ) (ts : List Task)
    → i < j
    → j + length ts ≤ 2 ^ 64
    → spec_named (task_id_at job_id i) (specs_from job_id type j ts) ≡ none
spec_named-later job_id type i j [] before fits = refl
spec_named-later job_id type i j (t ∷ ts) before fits =
    let differ : task_id_at job_id j ≢ task_id_at job_id i = λ e. omega (
      arith,
      before,
      numbered_inj job_id "-task-" j i (omega (arith, fits)) (omega (arith, before, fits)) e,
    ) in
    ground (
      arith,
      eq_iff (task_id_at job_id j) (task_id_at job_id i),
      differ,
      spec_named-later job_id type i (j + 1) ts (omega (arith, before)) (omega (arith, fits)),
    )

still_free :
    (job_id : String) (i : ℕ) (new : QueueTask) (q : Queue)
    → ((j : ℕ) → i ≤ j → j < 2 ^ 64 → lookup (task_id_at job_id j) q.tasks ≡ none)
    → (j : ℕ) → i + 1 ≤ j
    → j < 2 ^ 64
    → lookup (task_id_at job_id j) (insert (task_id_at job_id i) new q.tasks) ≡ none
still_free job_id i new q free j after fits =
    let differ : task_id_at job_id i ≢ task_id_at job_id j = λ e.
      omega (arith, after, numbered_inj job_id "-task-" i j (omega (arith, after, fits)) fits e) in
    let old = free j (omega (arith, after)) fits in
    ground (
      arith,
      lookup-insert (task_id_at job_id i) (task_id_at job_id j) new q.tasks,
      eq_iff (task_id_at job_id i) (task_id_at job_id j),
    )

pub enqueue_tasks_lem :
    (job_id type : String) (i : ℕ) (ts : List Task) (q : Queue)
    → ((j : ℕ) → i ≤ j → j < 2 ^ 64 → lookup (task_id_at job_id j) q.tasks ≡ none)
    → i + length ts ≤ 2 ^ 64
    → let specs = specs_from job_id type i ts in
      (q' : Queue) × (enqueue_tasks job_id type i ts q ≡ (q', ok (ids specs))) × Enqueued specs q q'
unfolding enqueue_tasks followed_by with_id
enqueue_tasks_lem job_id type i [] q free fits = (
  q,
  refl,
  record {
    queued = sym (append-nil q.queued);
    order = sym (append-nil q.order);
    tasks = λ key. refl;
  },
)
enqueue_tasks_lem job_id type i (t ∷ ts) q free fits =
    let id = task_id_at job_id i in
    let spec = spec_at job_id type i t in
    let q₁ = record q {
      tasks = insert id (fresh_task spec) q.tasks;
      queued = q.queued ++ id ∷ [];
      order = q.order ++ id ∷ [];
    } in
    let specs = specs_from job_id type (i + 1) ts in
    let new = free i (omega arith) (omega (arith, fits)) in
    let adds = enqueue_new spec q (append-nonempty job_id "-task-" _ (omega arith)) new in
    let (q', runs, d) =
      enqueue_tasks_lem job_id type (i + 1) ts q₁ (still_free job_id i (fresh_task spec) q free)
        (omega (arith, fits)) in
    (
      q',
      ap (λ r. followed_by id r (enqueue_tasks job_id type (i + 1) ts)) adds ∙ ap (with_id id) runs,
      record {
        queued = d.queued ∙ append_assoc q.queued (id ∷ []) (ids specs);
        order = d.order ∙ append_assoc q.order (id ∷ []) (ids specs);
        tasks = λ key. ground (
          arith,
          d.tasks key,
          lookup-insert id key (fresh_task spec) q.tasks,
          eq_iff id key,
          spec_named-later job_id type i (i + 1) ts (omega arith) (omega (arith, fits)),
        );
      },
    )
