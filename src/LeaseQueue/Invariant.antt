-- ===== src/LeaseQueue/Invariant.antt =====
-- internal/leasequeue/queue.go: the invariant of the queue, and the parts of a state that the
-- operations write, by which they keep it.
use inoculum.Shared.{
  subst, inl, inr, eq_refl, ap, leb, Bool-cases, ℕ, ◌≤◌, ◌<◌, String, ◌==◌, ◌≡◌, ◌≢◌, refl, Bool,
  true, false, Option, none, some, List, [], ◌∷◌, ◌++◌, arith, if◌then◌else◌, flag, count,
  count-append, lookup, insert, lookup-insert, eq_iff,
}
use inoculum.LeaseQueue.Tasks.{TaskState, Task, Lease, Result, is_queued}
use inoculum.LeaseQueue.{failed_task, requeued_task, exhausted_message, Queue, expire_task_locked}

-- What a task's state says of its other fields.
abbrev pub StateFits : TaskState → ℕ → Task → Type 0
StateFits TaskState.queued limit t = (t.lease ≡ none) × (t.result ≡ none) × (t.attempts < limit)
StateFits TaskState.leased limit t =
    (l : Lease) × (t.lease ≡ some l)
    × (l.task_id ≡ t.id)
    × (l.worker_id ≡ t.worker_id)
    × (l.attempt ≡ t.attempts)
    × (t.result ≡ none)
    × (0 < t.attempts)
    × (t.attempts ≤ limit)
StateFits TaskState.completed limit t =
    (r : Result) × (t.result ≡ some r)
    × (t.lease ≡ none)
    × (r.error ≡ "")
    × (0 < t.attempts)
    × (t.attempts ≤ limit)
StateFits TaskState.failed limit t =
    (r : Result) × (t.result ≡ some r) × (t.lease ≡ none) × (r.error ≢ "") × (t.attempts ≡ limit)

-- A task under its key, in a queue of this attempt limit.
pub record Fits (limit : ℕ) (key : String) (t : Task) : Type 0 where
  pub keyed : t.id ≡ key
  pub named : key ≢ ""
  pub state : StateFits t.state limit t

abbrev pub is_waiting : Option Task → Bool
is_waiting none = false
is_waiting (some t) = is_queued t.state

abbrev pub is_there : Option Task → Bool
is_there none = false
is_there (some t) = true

-- `queued` holds each waiting task once and nothing else, `order` each task once and nothing else.
pub record IsValid (q : Queue) : Type 0 where
  pub term : 0 < q.lease_duration
  pub limit : 0 < q.max_attempts
  pub tasks : (key : String) (t : Task) → lookup key q.tasks ≡ some t → Fits q.max_attempts key t
  pub waiting : (key : String) → count key q.queued ≡ flag (is_waiting (lookup key q.tasks))
  pub listed : (key : String) → count key q.order ≡ flag (is_there (lookup key q.tasks))

-- A write at a key that leaves the two lists in step with the map.
pub write-IsValid :
    (q : Queue) (key : String) (t : Task) (queued order : List String)
    → IsValid q
    → Fits q.max_attempts key t
    → ((j : String)
        → count j queued ≡ (if key == j then flag (is_queued t.state) else count j q.queued))
    → ((j : String) → count j order ≡ (if key == j then 1 else count j q.order))
    → IsValid (record q { queued = queued; order = order; tasks = insert key t q.tasks })
write-IsValid q key t queued order v fits in_queue in_order = record {
  term = v.term;
  limit = v.limit;
  tasks = λ j u h. ground (arith, lookup-insert key j t q.tasks, eq_iff key j, v.tasks j u, fits);
  waiting = λ j. ground (arith, lookup-insert key j t q.tasks, in_queue j, v.waiting j);
  listed = λ j. ground (arith, lookup-insert key j t q.tasks, in_order j, v.listed j);
}

module _ (q : Queue) (key : String) (old new : Task) (v : IsValid q)
    (found : lookup key q.tasks ≡ some old) (fits : Fits q.max_attempts key new) where
  -- A task that was not waiting takes another value that is not waiting.
  pub update-IsValid :
      is_queued old.state ≡ false
      → is_queued new.state ≡ false
      → IsValid (record q { tasks = insert key new q.tasks })
  update-IsValid was is =
      write-IsValid q key new q.queued q.order v fits
        (λ j. ground (arith, v.waiting key, eq_iff key j))
        (λ j. ground (arith, v.listed key, eq_iff key j))

  -- A task that was not waiting goes to the end of the queue.
  pub requeue-IsValid :
      is_queued old.state ≡ false
      → is_queued new.state ≡ true
      → IsValid (record q { tasks = insert key new q.tasks; queued = q.queued ++ old.id ∷ [] })
  requeue-IsValid was is =
      write-IsValid q key new (q.queued ++ old.id ∷ []) q.order v fits
        (λ j. ground (
          arith,
          v.waiting key,
          (v.tasks key old found).keyed,
          count-append j q.queued (old.id ∷ []),
          eq_iff key j,
        ))
        (λ j. ground (arith, v.listed key, eq_iff key j))

  -- The task at the head of the queue leaves it.
  pub dequeue-IsValid :
      (pending : List String)
      → q.queued ≡ key ∷ pending
      → is_queued old.state ≡ true
      → is_queued new.state ≡ false
      → IsValid (record q { queued = pending; tasks = insert key new q.tasks })
  dequeue-IsValid pending e was is =
      write-IsValid q key new pending q.order v fits
        (λ j.
          ground
            (arith, v.waiting key, ap (count key) e, ap (count j) e, eq_refl key, eq_iff key j))
        (λ j. ground (arith, v.listed key, eq_iff key j))

-- A new task stands at the end of both lists.
pub add-IsValid :
    (q : Queue) (key : String) (t : Task)
    → IsValid q
    → lookup key q.tasks ≡ none
    → Fits q.max_attempts key t
    → is_queued t.state ≡ true
    → IsValid (record q {
      tasks = insert key t q.tasks;
      queued = q.queued ++ key ∷ [];
      order = q.order ++ key ∷ [];
    })
add-IsValid q key t v absent fits is =
    write-IsValid q key t (q.queued ++ key ∷ []) (q.order ++ key ∷ []) v fits
      (λ j. ground (arith, v.waiting key, count-append j q.queued (key ∷ []), eq_iff key j))
      (λ j. ground (arith, v.listed key, count-append j q.order (key ∷ []), eq_iff key j))

exhausted-ne-empty : exhausted_message ≢ ""
exhausted-ne-empty = ground (arith, eq_iff exhausted_message "")

-- What is known of a leased task.
pub leased-Fits :
    {limit : ℕ} {key : String} {t : Task}
    → Fits limit key t
    → t.state ≡ TaskState.leased
    → StateFits TaskState.leased limit t
leased-Fits {limit} {key} {t} f e = subst (λ s. StateFits s limit t) e f.state

-- The two values that a leased task may leave its lease with, other than success.
pub failed-Fits :
    {limit : ℕ} {key : String} {t : Task} (r : Result)
    → Fits limit key t
    → t.state ≡ TaskState.leased
    → limit ≤ t.attempts
    → r.error ≢ ""
    → Fits limit key (failed_task r t)
failed-Fits r f e full bad = record {
  keyed = f.keyed;
  named = f.named;
  state = (r, refl, refl, bad, omega (arith, (leased-Fits f e).7));
}

pub requeued-Fits :
    {limit : ℕ} {key : String} {t : Task}
    → Fits limit key t
    → t.attempts < limit
    → Fits limit key (requeued_task t)
requeued-Fits f room = record { keyed = f.keyed; named = f.named; state = (refl, refl, room) }

-- expireTaskLocked keeps the invariant at a leased task.
pub expire_task_locked-IsValid :
    (q : Queue) (key : String) (t : Task)
    → IsValid q
    → lookup key q.tasks ≡ some t
    → t.state ≡ TaskState.leased
    → IsValid (expire_task_locked key t q)
unfolding expire_task_locked
expire_task_locked-IsValid q key t v found held =
    elim (Bool-cases (leb q.max_attempts t.attempts)) [
      | inl full ↦ rw full (
          update-IsValid q key t _ v found
            (failed-Fits _ (v.tasks key t found) held (ground arith) (exhausted-ne-empty))
            (ground arith) refl)
      | inr room ↦ rw room (
          requeue-IsValid q key t _ v found (requeued-Fits (v.tasks key t found) (ground arith))
            (ground arith) refl)
    ]

-- Whatever its state, a task has been leased at most as often as the policy allows.
pub Fits-attempts : {limit : ℕ} {key : String} {t : Task} → Fits limit key t → t.attempts ≤ limit
Fits-attempts {limit} {key} {t} f = by_state t.state f.state
  where
    by_state : (s : TaskState) → StateFits s limit t → t.attempts ≤ limit
    by_state TaskState.queued h = omega (arith, h.2)
    by_state TaskState.leased h = h.7
    by_state TaskState.completed h = h.5
    by_state TaskState.failed h = omega (arith, h.4)
