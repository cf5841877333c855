-- ===== src/Coordinator/Submit/Queueing.antt =====
-- internal/coordinator/pull.go: handlePullSubmit, from an accepted request to the queued job.
use inoculum.Shared.{
  ◌≤◌, ◌<◌, ◌≡◌, ◌⊎◌, refl, sym, ◌==◌, Bool, true, false, if◌then◌else◌, ◌&&◌, not, List, map,
  arith, length, length-map, ltb, ok, err, Result as Fallible, inl, inr, subst,
}
use inoculum.Types.Wire.{PullSubmitRequest}
use inoculum.Workload.{
  Task, max_tasks, validate_tasks, validate_simple_inputs, validate_task_type, http_probe_type,
  WorkloadError,
}
use inoculum.Workload.Bounds.{validate_tasks_iff, validate_simple_inputs_iff}
use inoculum.Coordinator.Http.{Message}
use inoculum.Coordinator.Server.{Server}
use inoculum.Coordinator.Submit.{keyed, unkeyed, unless_unsuitable, batch}

module _ {A : Type 0} (u : A) where
  passed :
      (r : Fallible WorkloadError (Unit {0})) (k : Fallible Message A)
      → unless_unsuitable r k ≡ ok u
      → (r ≡ ok tt) × (k ≡ ok u)
  passed (err e) k h = ground arith
  passed (ok _) k h = (refl, h)

  not_refused :
      (b : Bool) (m : Message) (k : Fallible Message A) → (if b then err m else k) ≡ ok u → k ≡ ok u
  not_refused true m k h = ground arith
  not_refused false m k h = h

  one_of :
      (b : Bool) (k l : Fallible Message A) → (if b then k else l) ≡ ok u → (k ≡ ok u) ⊎ (l ≡ ok u)
  one_of true k l h = inl h
  one_of false k l h = inr h

-- An accepted batch has between 1 and 1000 tasks, all keyed or all unkeyed.
pub batch_lem :
    (req : PullSubmitRequest) (tasks : List Task)
    → batch req ≡ ok tasks
    → (0 < length tasks)
      × (length tasks ≤ max_tasks)
      × ((tasks ≡ map keyed req.tasks) ⊎ (tasks ≡ map unkeyed req.inputs))
unfolding batch
batch_lem req tasks e =
    let typed = (passed tasks (validate_task_type req.task_type) _ e).1 in
    let all = map keyed req.tasks in
    let single =
      not_refused tasks (ltb 0 (length req.inputs) && ltb 0 (length req.tasks)) _ _ typed in
    elim (one_of tasks (ltb 0 (length req.tasks)) _ _ single) [
      | inl keyed_tasks ↦
          let probes = not_refused tasks (not (req.task_type == http_probe_type)) _ _ keyed_tasks in
          let (valid, is) = passed tasks (validate_tasks all) (ok all) probes in
          let (some_tasks, few_tasks, _, _) = (validate_tasks_iff all).0 valid in
          let same : all ≡ tasks = cc is in
          (
            subst (λ ts. 0 < length ts) same some_tasks,
            subst (λ ts. length ts ≤ max_tasks) same few_tasks,
            inl (sym same),
          )
      | inr simple ↦
          let (valid, is) =
            passed tasks (validate_simple_inputs req.inputs) (ok (map unkeyed req.inputs)) simple in
          let (some_inputs, few_inputs, _) = (validate_simple_inputs_iff req.inputs).0 valid in
          let same : map unkeyed req.inputs ≡ tasks = cc is in
          let size = length-map unkeyed req.inputs in
          (
            subst (λ ts. 0 < length ts) same (omega (arith, some_inputs, size)),
            subst (λ ts. length ts ≤ max_tasks) same (omega (arith, few_inputs, size)),
            inr (sym same),
          )
    ]
