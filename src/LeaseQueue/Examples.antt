-- ===== src/LeaseQueue/Examples.antt =====
-- internal/leasequeue/queue_test.go: the queue of its tests, run on concrete calls, and the theorems
-- at these runs.
use inoculum.Shared.{
  subst, ◌≤◌, String, ◌≡◌, ◌≢◌, refl, none, some, List, [], ◌∷◌, arith, lookup, insert, ok, err,
  eq_iff, ◌↔◌,
}
use inoculum.Shared.Int.{pos}
use inoculum.LeaseQueue.Tasks.{
  Task, TaskSpec, Lease, Result, Assignment, TaskState, CompletionOutcome, stale_lease,
  wrong_worker,
}
use inoculum.LeaseQueue.{
  Queue, Config, new, enqueue, claim, claim_next, renew, complete, active_lease_locked,
  expire_locked, expire_each, expire_task_locked, requeue_expired, issue, leased_task, fresh_task,
  spec_of,
}
use inoculum.LeaseQueue.Invariant.{IsValid}
use inoculum.LeaseQueue.Expiry.{Expires, expire_locked_lem}
use inoculum.LeaseQueue.Claims.{grant}
use inoculum.LeaseQueue.Lifecycle.{completed_task}
use inoculum.LeaseQueue.Preservation.{new-IsValid, enqueue_keeps}
use inoculum.LeaseQueue.History.{
  step, Call, enqueues, claims, completes, requeues_expired, run, run-new, run-final,
  run-keeps_task,
}
use inoculum.LeaseQueue.Attempts.{handed_out, handed_out-le}
use inoculum.LeaseQueue.Ownership.{claim-keeps_live}
use inoculum.LeaseQueue.Delivery.{complete-accepts, Mine}
use inoculum.LeaseQueue.Handover.{claim-HandedOut, claim-complete, claim-replaces}

abbrev policy : Config
policy = record { lease_duration = pos 10; max_attempts = pos 2 }

abbrev spec : String → TaskSpec
spec id = record { id = id; job_id = "job-1"; key = ""; type = "diagnostic_sleep"; input = "1ms" }

abbrev no_tasks : Queue
no_tasks = record { lease_duration = 10; max_attempts = 2; queued = []; order = []; tasks = [] }

-- Two tasks wait.
abbrev two_tasks : Queue
two_tasks = record no_tasks {
  queued = "task-1" ∷ "task-2" ∷ [];
  order = "task-1" ∷ "task-2" ∷ [];
  tasks = ("task-1", fresh_task (spec "task-1")) ∷ ("task-2", fresh_task (spec "task-2")) ∷ [];
}

-- At time 100 worker a has claimed the first of them.
abbrev lease_1 : Lease
lease_1 = issue "a" 100 "lease-1" 10 (fresh_task (spec "task-1"))

abbrev running : Task
running = leased_task "a" lease_1 (fresh_task (spec "task-1"))

abbrev one_leased : Queue
one_leased = record two_tasks {
  queued = "task-2" ∷ [];
  tasks = ("task-1", running) ∷ ("task-2", fresh_task (spec "task-2")) ∷ [];
}

abbrev handed : Assignment
handed = record { task = spec "task-1"; lease = lease_1 }

abbrev good : Result
good = record { output = "done"; duration = pos 5; error = "" }

abbrev bad : Result
bad = record { output = ""; duration = pos 5; error = "boom" }

new_runs : new policy ≡ ok no_tasks
unfolding new
new_runs = refl

no_tasks-IsValid : IsValid no_tasks
no_tasks-IsValid = new-IsValid policy no_tasks new_runs

two_tasks-IsValid : IsValid two_tasks
unfolding enqueue lookup insert
two_tasks-IsValid =
    (enqueue_keeps (spec "task-2") _ (enqueue_keeps (spec "task-1") no_tasks no_tasks-IsValid).0).0

claim_runs : claim "a" 100 "lease-1" two_tasks ≡ some (one_leased, ok (some handed))
unfolding claim claim_next expire_locked expire_each lookup insert
claim_runs = refl

a_is_named : ◌≢◌ {A = String} "a" ""
a_is_named = ground (arith, eq_iff "a" "")

one_leased-IsValid : IsValid one_leased
one_leased-IsValid =
    (claim-HandedOut "a" 100 "lease-1" two_tasks one_leased handed two_tasks-IsValid a_is_named
      claim_runs).valid

-- The lease holds up to its expiry, and not at it.
renew_in_time :
    (renew "task-1" "lease-1" "a" 109 one_leased).1 ≡ ok (record lease_1 { expires_at = 119 })
unfolding renew active_lease_locked lookup
renew_in_time = refl

renew_too_late : (renew "task-1" "lease-1" "a" 110 one_leased).1 ≡ err stale_lease
unfolding renew active_lease_locked lookup
renew_too_late = refl

other_worker : (complete "task-1" "lease-1" "b" good 101 one_leased).1 ≡ err wrong_worker
unfolding complete active_lease_locked lookup
other_worker = refl

-- A failure puts the task behind the one that waits.
failure_requeues :
    (complete "task-1" "lease-1" "a" bad 101 one_leased).0.queued ≡ "task-2" ∷ "task-1" ∷ []
unfolding complete active_lease_locked lookup
failure_requeues = refl

sweep_requeues :
    requeue_expired 110 one_leased
    ≡ some (
      record two_tasks {
        queued = "task-2" ∷ "task-1" ∷ [];
        tasks =
            ("task-1", record running { state = TaskState.queued; lease = none })
            ∷ ("task-2", fresh_task (spec "task-2"))
            ∷ [];
      },
      "task-1" ∷ [],
    )
unfolding requeue_expired expire_locked expire_each expire_task_locked lookup insert
sweep_requeues = refl

abbrev script : List Call
script =
    enqueues (spec "task-1")
    ∷ claims "a" 100 "lease-1"
    ∷ requeues_expired 110
    ∷ claims "b" 111 "lease-2"
    ∷ completes "task-1" "lease-2" "b" good 112
    ∷ []

run-new_example : (q : Queue) × (run no_tasks script ≡ some q) × IsValid q
run-new_example = run-new policy no_tasks script new_runs

handed_out-le_example : handed_out "task-1" no_tasks script ≤ 2
handed_out-le_example = handed_out-le policy no_tasks script "task-1" new_runs

expire_locked_lem_example :
    (q : Queue) × (expired : List String) × (expire_locked 110 one_leased ≡ some (q, expired))
    × Expires 110 one_leased q expired
expire_locked_lem_example = expire_locked_lem 110 one_leased one_leased-IsValid

-- The first task has completed.
abbrev finished : Task
finished = completed_task good running

abbrev one_done : Queue
one_done = record one_leased {
  tasks = ("task-1", finished) ∷ ("task-2", fresh_task (spec "task-2")) ∷ [];
}

abbrev tail_calls : List Call
tail_calls = completes "task-1" "lease-1" "a" bad 106 ∷ requeues_expired 200 ∷ []

tail_runs : run one_leased (completes "task-1" "lease-1" "a" good 105 ∷ []) ≡ some one_done
unfolding run step complete active_lease_locked lookup insert
tail_runs = refl

done_runs : run one_done tail_calls ≡ some one_done
unfolding run step complete active_lease_locked lookup insert requeue_expired expire_locked
    expire_each
done_runs = refl

abbrev script_done : List Call
script_done =
    enqueues (spec "task-1")
    ∷ enqueues (spec "task-2")
    ∷ claims "a" 100 "lease-1"
    ∷ completes "task-1" "lease-1" "a" good 105
    ∷ []

script_done_runs : run no_tasks script_done ≡ some one_done
unfolding run step enqueue claim claim_next expire_locked expire_each complete active_lease_locked
    lookup insert
script_done_runs = refl

one_done-IsValid : IsValid one_done
one_done-IsValid = follows (run-keeps)
  where
    run-keeps : (q : Queue) × (run no_tasks script_done ≡ some q) × IsValid q
    run-keeps = run-new policy no_tasks script_done new_runs

    follows : (q : Queue) × (run no_tasks script_done ≡ some q) × IsValid q → IsValid one_done
    follows (q, runs, v) = subst IsValid (cc (runs, script_done_runs)) v

found_running : lookup "task-1" one_leased.tasks ≡ some running
unfolding lookup
found_running = refl

found_finished : lookup "task-1" one_done.tasks ≡ some finished
unfolding lookup
found_finished = refl

run-final_example : lookup "task-1" one_done.tasks ≡ some finished
run-final_example =
    run-final tail_calls "task-1" finished one_done-IsValid done_runs found_finished refl

run-keeps_task_example :
    (u : Task) × (lookup "task-1" one_done.tasks ≡ some u)
    × (spec_of u ≡ spec_of running)
    × (1 ≤ u.attempts)
    × (u.attempts ≤ 2)
run-keeps_task_example =
    run-keeps_task (completes "task-1" "lease-1" "a" good 105 ∷ []) "task-1" running
      one_leased-IsValid tail_runs found_running

complete-accepts_example :
    ((q : Queue) × (c : CompletionOutcome) × (complete "task-1" "lease-1" "a" good 105 one_leased
        ≡ (q, ok c)))
    ↔ ((t : Task) × (l : Lease) × Mine "task-1" "lease-1" "a" 105 one_leased t l)
complete-accepts_example = complete-accepts "task-1" "lease-1" "a" 105 good one_leased

claim-complete_example :
    (q : Queue) × (t : Task) × (complete "task-1" "lease-1" "a" good 105 one_leased
      ≡ (q, ok CompletionOutcome.completed))
    × (lookup "task-1" q.tasks ≡ some t)
    × (spec_of t ≡ spec "task-1")
    × (t.state ≡ TaskState.completed)
    × (t.result ≡ some good)
claim-complete_example =
    claim-complete "a" 100 "lease-1" two_tasks one_leased handed good 105 two_tasks-IsValid
      a_is_named claim_runs (omega arith) refl

claim-replaces_example :
    complete "task-1" "lease-0" "b" good 101 one_leased ≡ (one_leased, err stale_lease)
claim-replaces_example =
    claim-replaces "a" 100 "lease-1" two_tasks one_leased handed "lease-0" "b" good 101
      two_tasks-IsValid a_is_named claim_runs (ground (arith, eq_iff "lease-1" "lease-0"))

-- Worker b gets the other task while the first is leased.
abbrev both_leased : Queue
both_leased = grant "b" 105 "lease-2" "task-2" [] (fresh_task (spec "task-2")) one_leased

abbrev handed_2 : Assignment
handed_2 = record {
  task = spec "task-2";
  lease = issue "b" 105 "lease-2" 10 (fresh_task (spec "task-2"));
}

second_claim : claim "b" 105 "lease-2" one_leased ≡ some (both_leased, ok (some handed_2))
unfolding claim claim_next expire_locked expire_each lookup insert
second_claim = refl

claim-keeps_live_example : lookup "task-1" both_leased.tasks ≡ some running
claim-keeps_live_example =
    claim-keeps_live "b" 105 "lease-2" "task-1" running lease_1 one_leased both_leased
      (ok (some handed_2)) one_leased-IsValid (ground (arith, eq_iff "b" "")) found_running refl
      refl (omega arith) second_claim

abbrev renewed : Queue
renewed = record one_leased {
  tasks =
      ("task-1", record running { lease = some (record lease_1 { expires_at = 119 }) })
      ∷ ("task-2", fresh_task (spec "task-2"))
      ∷ [];
}

renew_runs :
    renew "task-1" "lease-1" "a" 109 one_leased
    ≡ (renewed, ok (record lease_1 { expires_at = 119 }))
unfolding renew active_lease_locked lookup insert
renew_runs = refl
