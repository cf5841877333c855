-- ===== src/LeaseQueue/Expiry.antt =====
-- internal/leasequeue/queue.go: expireLocked, the sweep that every method but Enqueue, Renew,
-- Complete and Observe begins with.
use mathlib.Core.List.{append-nil, append_assoc}
use inoculum.Shared.{
  subst, ◌&&◌, ℕ, ◌+◌, ◌≤◌, String, ◌==◌, ◌≡◌, refl, sym, ap, ◌∙◌, Bool, true, false, Option, none,
  some, List, [], ◌∷◌, ◌++◌, arith, if◌then◌else◌, flag, count, lookup, lookup-insert, eq_iff,
  eq_refl, leb, inl, inr, Bool-cases, Option-cases,
}
use inoculum.Shared.Int.{pos}
use inoculum.LeaseQueue.Tasks.{TaskState, Task, Result}
use inoculum.LeaseQueue.{
  Queue, is_expired, expire_task_locked, expire_each, expire_locked, failed_task, requeued_task,
  exhausted_message,
}
use inoculum.LeaseQueue.Invariant.{IsValid, expire_task_locked-IsValid, is_there}

-- What a sweep at `now` makes of one task.
abbrev pub expiry_result : Result
expiry_result = record { output = ""; duration = pos 0; error = exhausted_message }

abbrev pub expire_value : ℕ → ℕ → Task → Task
expire_value limit now t =
    if is_expired now t
    then (if leb limit t.attempts then failed_task expiry_result t else requeued_task t)
    else t

abbrev pub after_expiry : ℕ → ℕ → Option Task → Option Task
after_expiry limit now none = none
after_expiry limit now (some t) = some (expire_value limit now t)

abbrev pub overdue : ℕ → Option Task → Bool
overdue now none = false
overdue now (some t) = is_expired now t

-- The loop over `ids` took `q` to `q'` and reported `expired`.
pub record Swept (now : ℕ) (ids : List String) (q q' : Queue) (expired : List String) : Type 0 where
  pub valid : IsValid q'
  pub term : q'.lease_duration ≡ q.lease_duration
  pub limit : q'.max_attempts ≡ q.max_attempts
  pub order : q'.order ≡ q.order
  pub tasks :
      (key : String)
      → lookup key q'.tasks ≡ (
          if leb 1 (count key ids)
          then after_expiry q.max_attempts now (lookup key q.tasks)
          else lookup key q.tasks)
  pub reported :
      (key : String)
      → count key expired
        ≡ (if leb 1 (count key ids) then flag (overdue now (lookup key q.tasks)) else 0)
  pub returned : List String
  pub behind : q'.queued ≡ q.queued ++ returned

expired-leased : (now : ℕ) (t : Task) → is_expired now t ≡ true → t.state ≡ TaskState.leased
expired-leased now t h = ground arith

-- One round of the loop, as a function.
abbrev round : ℕ → String → Task → Queue → Queue
round now id t q = if is_expired now t then expire_task_locked id t q else q

round-IsValid :
    (now : ℕ) (id : String) (t : Task) (q : Queue)
    → IsValid q
    → lookup id q.tasks ≡ some t
    → IsValid (round now id t q)
round-IsValid now id t q v found = elim (Bool-cases (is_expired now t)) [
  | inl e ↦ rw e (expire_task_locked-IsValid q id t v found (expired-leased now t e))
  | inr e ↦ rw e v
]

round-tasks :
    (now : ℕ) (id : String) (t : Task) (q : Queue) (key : String)
    → lookup id q.tasks ≡ some t
    → lookup key (round now id t q).tasks ≡ (
        if id == key
        then after_expiry q.max_attempts now (lookup key q.tasks)
        else lookup key q.tasks)
unfolding expire_task_locked
round-tasks now id t q key found = ground (
  arith,
  eq_iff id key,
  lookup-insert id key (failed_task expiry_result t) q.tasks,
  lookup-insert id key (requeued_task t) q.tasks,
)

round-frame :
    (now : ℕ) (id : String) (t : Task) (q : Queue)
    → ((round now id t q).lease_duration ≡ q.lease_duration)
      × ((round now id t q).max_attempts ≡ q.max_attempts)
      × ((round now id t q).order ≡ q.order)
unfolding expire_task_locked
round-frame now id t q = ground arith

round-behind :
    (now : ℕ) (id : String) (t : Task) (q : Queue)
    → (returned : List String) × ((round now id t q).queued ≡ q.queued ++ returned)
unfolding expire_task_locked
round-behind now id t q = elim (Bool-cases (is_expired now t)) [
  | inr e ↦ ([], rw e (sym (append-nil q.queued)))
  | inl e ↦ elim (Bool-cases (leb q.max_attempts t.attempts)) [
    | inl full ↦ ([], rw (e, full) (sym (append-nil q.queued)))
    | inr room ↦ (t.id ∷ [], rw (e, room))
  ]
]

-- A task that a sweep has passed is not overdue, and a second pass leaves it.
after_expiry_idem :
    (limit now : ℕ) (o : Option Task)
    → (after_expiry limit now (after_expiry limit now o) ≡ after_expiry limit now o)
      × (overdue now (after_expiry limit now o) ≡ false)
after_expiry_idem limit now none = (refl, refl)
after_expiry_idem limit now (some t) = ground arith

abbrev pub Covers : List String → Queue → Type 0
Covers ids q = (key : String) → 1 ≤ count key ids → is_there (lookup key q.tasks) ≡ true

round-Covers :
    (now : ℕ) (id : String) (ids : List String) (t : Task) (q : Queue)
    → Covers (id ∷ ids) q
    → lookup id q.tasks ≡ some t
    → Covers ids (round now id t q)
round-Covers now id ids t q c found key h = ground (arith, round-tasks now id t q key found, c key)

pub Covers-head :
    (id : String) (ids : List String) (q : Queue)
    → Covers (id ∷ ids) q
    → (t : Task) × (lookup id q.tasks ≡ some t)
Covers-head id ids q c = elim (Option-cases (lookup id q.tasks)) [
  | inl e ↦ ground (arith, c id, eq_refl id)
  | inr h ↦ h
]

Swept-nil : (now : ℕ) (q : Queue) → IsValid q → Swept now [] q q []
Swept-nil now q v = record {
  valid = v;
  term = refl;
  limit = refl;
  order = refl;
  tasks = λ key. refl;
  reported = λ key. refl;
  returned = [];
  behind = sym (append-nil q.queued);
}

-- The rounds before and the round at `id` are one pass, where `f` is idempotent.
pass_once :
    {A : Type 0} (f : A → A) (hit : Bool) (n : ℕ) (o r x : A)
    → f (f o) ≡ f o
    → r ≡ (if hit then f o else o)
    → x ≡ (if leb 1 n then f r else r)
    → x ≡ (if leb 1 (flag hit + n) then f o else o)
pass_once f true n o r x idem e h = elim (Bool-cases (leb 1 n)) [
  | inl more ↦ ground (arith, ap f e)
  | inr done ↦ ground arith
]
pass_once f false n o r x idem e h = ground (arith, ap f e)

-- A task is reported in the round that gives its lease up, and in no later one.
report_once :
    (hit was is : Bool) (n m : ℕ)
    → is ≡ (if hit then false else was)
    → m ≡ (if leb 1 n then flag is else 0)
    → flag (hit && was) + m ≡ (if leb 1 (flag hit + n) then flag was else 0)
report_once true was is n m e h = ground arith
report_once false was is n m e h = ground arith

count-if :
    (key id : String) (b : Bool) (xs : List String)
    → count key (if b then id ∷ xs else xs) ≡ flag ((id == key) && b) + count key xs
count-if key id b xs = ground arith

-- The report of the round at `id`, and what the later rounds see of the map.
round-reported :
    (now : ℕ) (id : String) (t : Task) (q : Queue) (key : String) (xs : List String)
    → lookup id q.tasks ≡ some t
    → t.id ≡ id
    → count key (if is_expired now t then t.id ∷ xs else xs)
      ≡ flag ((id == key) && overdue now (lookup key q.tasks)) + count key xs
round-reported now id t q key xs found keyed =
    count-if key t.id (is_expired now t) xs
    ∙ rw keyed (elim (Bool-cases (id == key)) [
      | inl same ↦ rw (← (eq_iff id key).0 same, found)
      | inr other ↦ rw other
    ])

round-overdue :
    (now : ℕ) (id : String) (t : Task) (q : Queue) (key : String)
    → lookup id q.tasks ≡ some t
    → overdue now (lookup key (round now id t q).tasks)
      ≡ (if id == key then false else overdue now (lookup key q.tasks))
round-overdue now id t q key found =
    rw (round-tasks now id t q key found) (elim (Bool-cases (id == key)) [
      | inl same ↦ rw same (after_expiry_idem q.max_attempts now (lookup key q.tasks)).1
      | inr other ↦ rw other
    ])

Swept-cons :
    (now : ℕ) (id : String) (ids : List String) (t : Task) (q q' : Queue) (expired : List String)
    → IsValid q
    → lookup id q.tasks ≡ some t
    → Swept now ids (round now id t q) q' expired
    → Swept now (id ∷ ids) q q' (if is_expired now t then t.id ∷ expired else expired)
Swept-cons now id ids t q q' expired v found s =
    let frame = round-frame now id t q in
    let (first, moved) = round-behind now id t q in
    record {
      valid = s.valid;
      term = s.term ∙ frame.0;
      limit = s.limit ∙ frame.1;
      order = s.order ∙ frame.2;
      tasks = λ key.
          pass_once (after_expiry q.max_attempts now) (id == key) (count key ids)
            (lookup key q.tasks) (lookup key (round now id t q).tasks) (lookup key q'.tasks)
            (after_expiry_idem q.max_attempts now (lookup key q.tasks)).0
            (round-tasks now id t q key found)
            (subst
              (λ m. lookup key q'.tasks ≡ (
                if leb 1 (count key ids)
                then after_expiry m now (lookup key (round now id t q).tasks)
                else lookup key (round now id t q).tasks))
              frame.1 (s.tasks key));
      reported = λ key.
          round-reported now id t q key expired found (v.tasks id t found).keyed
          ∙ report_once (id == key) (overdue now (lookup key q.tasks))
              (overdue now (lookup key (round now id t q).tasks)) (count key ids)
              (count key expired) (round-overdue now id t q key found) (s.reported key);
      returned = first ++ s.returned;
      behind =
          s.behind ∙ ap (λ xs. xs ++ s.returned) moved ∙ append_assoc q.queued first s.returned;
    }

expire_each_lem :
    (now : ℕ) (ids : List String) (q : Queue)
    → IsValid q
    → Covers ids q
    → (q' : Queue) × (expired : List String) × (expire_each now ids q ≡ some (q', expired))
      × Swept now ids q q' expired
unfolding expire_each
expire_each_lem now [] q v c = (q, [], refl, Swept-nil now q v)
expire_each_lem now (id ∷ ids) q v c =
    let (t, found) = Covers-head id ids q c in
    let (q', expired, runs, swept) =
      expire_each_lem now ids (round now id t q) (round-IsValid now id t q v found)
        (round-Covers now id ids t q c found) in
    (q', _, rw (found, runs), Swept-cons now id ids t q q' expired v found swept)

-- The sweep at `now` took `q` to `q'` and reported `expired`.
pub record Expires (now : ℕ) (q q' : Queue) (expired : List String) : Type 0 where
  pub valid : IsValid q'
  pub term : q'.lease_duration ≡ q.lease_duration
  pub limit : q'.max_attempts ≡ q.max_attempts
  pub order : q'.order ≡ q.order
  pub tasks :
      (key : String) → lookup key q'.tasks ≡ after_expiry q.max_attempts now (lookup key q.tasks)
  pub reported : (key : String) → count key expired ≡ flag (overdue now (lookup key q.tasks))
  pub returned : List String
  pub behind : q'.queued ≡ q.queued ++ returned

Swept-Expires :
    (now : ℕ) (q q' : Queue) (expired : List String)
    → IsValid q
    → Swept now q.order q q' expired
    → Expires now q q' expired
Swept-Expires now q q' expired v s = record {
  valid = s.valid;
  term = s.term;
  limit = s.limit;
  order = s.order;
  tasks = λ key. ground (arith, s.tasks key, v.listed key);
  reported = λ key. ground (arith, s.reported key, v.listed key);
  returned = s.returned;
  behind = s.behind;
}

-- In a valid queue the sweep reads through no nil pointer. It changes exactly the tasks whose lease
-- has run out: each fails if its attempts are used up, and goes behind the waiting tasks if not.
-- It reports each of them once and no other, and the queue stays valid.
pub expire_locked_lem :
    (now : ℕ) (q : Queue)
    → IsValid q
    → (q' : Queue) × (expired : List String) × (expire_locked now q ≡ some (q', expired))
      × Expires now q q' expired
unfolding expire_locked
expire_locked_lem now q v =
    let (q', expired, runs, swept) =
      expire_each_lem now q.order q v (λ key h. ground (arith, v.listed key)) in
    (q', expired, runs, Swept-Expires now q q' expired v swept)
