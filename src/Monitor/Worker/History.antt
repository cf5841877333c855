-- ===== src/Monitor/Worker/History.antt =====
-- internal/monitor/worker.go: the tracker after any calls, in any order.
use inoculum.Shared.{
  ℕ, ◌+◌, ◌≤◌, ◌≡◌, refl, String, ◌==◌, Bool, true, false, Option, List, [], ◌∷◌, map, arith, flag,
  count, if◌then◌else◌, eq_iff,
}
use inoculum.Monitor.Model.{TaskProgress, WorkerSnapshot}
use inoculum.Monitor.Worker.{
  connected, unavailable, stopping, put_task, task_started, drop_task, task_finished,
  new_worker_tracker,
}

pub data Call : Type 0 where
  connects : ℕ → Call
  fails : ℕ → Option String → ℕ → Option ℕ → Call
  stops : Call
  starts : TaskProgress → Call
  finishes : String → Bool → Bool → Call

unfoldable pub step : Call → WorkerSnapshot → WorkerSnapshot
step (connects now) s = connected now s
step (fails now error attempt retry_at) s = unavailable now error attempt retry_at s
step stops s = stopping s
step (starts task) s = task_started task s
step (finishes id completed failed) s = task_finished id completed failed s

unfoldable pub run : List Call → WorkerSnapshot → WorkerSnapshot
run [] s = s
run (call ∷ calls) s = run calls (step call s)

abbrev pub ids : List TaskProgress → List String
ids ts = map (λ t. t.task_id) ts

-- Whether a task is under way: it has started, and has not finished since.
abbrev pub under_way : String → List Call → Bool → Bool
under_way id [] now = now
under_way id (starts task ∷ calls) now =
    under_way id calls (if task.task_id == id then true else now)
under_way id (finishes other c f ∷ calls) now =
    under_way id calls (if other == id then false else now)
under_way id (connects t ∷ calls) now = under_way id calls now
under_way id (fails t e n r ∷ calls) now = under_way id calls now
under_way id (stops ∷ calls) now = under_way id calls now

-- How many calls of TaskFinished reported a success, or a failure.
abbrev pub successes : List Call → ℕ
successes [] = 0
successes (finishes id c f ∷ calls) = flag c + successes calls
successes (starts t ∷ calls) = successes calls
successes (connects t ∷ calls) = successes calls
successes (fails t e n r ∷ calls) = successes calls
successes (stops ∷ calls) = successes calls

abbrev pub failures : List Call → ℕ
failures [] = 0
failures (finishes id c f ∷ calls) = flag f + failures calls
failures (starts t ∷ calls) = failures calls
failures (connects t ∷ calls) = failures calls
failures (fails t e n r ∷ calls) = failures calls
failures (stops ∷ calls) = failures calls

count-put_task :
    (id : String) (task : TaskProgress) (ts : List TaskProgress)
    → count id (ids ts) ≤ 1
    → count id (ids (put_task task ts)) ≡ (if task.task_id == id then 1 else count id (ids ts))
unfolding put_task
count-put_task id task [] h = ground arith
count-put_task id task (t ∷ ts) h = ground (
  arith,
  count-put_task id task ts,
  eq_iff t.task_id task.task_id,
  eq_iff t.task_id id,
  eq_iff task.task_id id,
)

count-drop_task :
    (id other : String) (ts : List TaskProgress)
    → count id (ids ts) ≤ 1
    → count id (ids (drop_task other ts)) ≡ (if other == id then 0 else count id (ids ts))
unfolding drop_task
count-drop_task id other [] h = ground arith
count-drop_task id other (t ∷ ts) h = ground (
  arith,
  count-drop_task id other ts,
  eq_iff t.task_id other,
  eq_iff t.task_id id,
  eq_iff other id,
)

active_after :
    (id : String) (calls : List Call) (s : WorkerSnapshot) (b : Bool)
    → count id (ids s.active_tasks) ≡ flag b
    → count id (ids (run calls s).active_tasks) ≡ flag (under_way id calls b)
unfolding run step connected unavailable stopping task_started task_finished
active_after id [] s b h = h
active_after id (connects now ∷ calls) s b h = active_after id calls (connected now s) b h
active_after id (fails now e n r ∷ calls) s b h =
    active_after id calls (unavailable now e n r s) b h
active_after id (stops ∷ calls) s b h = active_after id calls (stopping s) b h
active_after id (starts task ∷ calls) s b h =
    active_after id calls (task_started task s) (if task.task_id == id then true else b)
      (ground (arith, count-put_task id task s.active_tasks))
active_after id (finishes other c f ∷ calls) s b h =
    active_after id calls (task_finished other c f s) (if other == id then false else b)
      (ground (arith, count-drop_task id other s.active_tasks))

counted_after :
    (calls : List Call) (s : WorkerSnapshot)
    → ((run calls s).completed ≡ s.completed + successes calls)
      × ((run calls s).failed ≡ s.failed + failures calls)
unfolding run step connected unavailable stopping task_started task_finished
counted_after [] s = (omega arith, omega arith)
counted_after (connects now ∷ calls) s = counted_after calls (connected now s)
counted_after (fails now e n r ∷ calls) s = counted_after calls (unavailable now e n r s)
counted_after (stops ∷ calls) s = counted_after calls (stopping s)
counted_after (starts task ∷ calls) s = counted_after calls (task_started task s)
counted_after (finishes other c f ∷ calls) s =
    ground (arith, counted_after calls (task_finished other c f s))

-- After any calls of its methods, a new tracker shows each task that has started and not finished
-- since, once, and no other task; it has counted every success and every failure that was reported.
pub run-tracked :
    (worker_id coordinator : String) (concurrency : ℕ) (calls : List Call)
    → let s = run calls (new_worker_tracker worker_id coordinator concurrency).snapshot in
      ((id : String) → count id (ids s.active_tasks) ≡ flag (under_way id calls false))
      × (s.completed ≡ successes calls)
      × (s.failed ≡ failures calls)
unfolding new_worker_tracker
run-tracked worker_id coordinator concurrency calls =
    let new = (new_worker_tracker worker_id coordinator concurrency).snapshot in
    let (done, bad) = counted_after calls new in
    (λ id. active_after id calls new false refl, omega (arith, done), omega (arith, bad))
