-- ===== src/Monitor/Worker/Examples.antt =====
-- A tracker of one worker, and the errors that it tells apart.
use inoculum.Shared.{◌≡◌, String, true, false, some, List, [], ◌∷◌, count, flag}
use inoculum.Shared.Int.{pos}
use inoculum.Monitor.Model.{TaskProgress}
use inoculum.Monitor.Worker.{new_worker_tracker}
use inoculum.Monitor.Worker.History.{
  Call, connects, starts, finishes, run, ids, under_way, run-tracked,
}

abbrev progress : String → TaskProgress
progress id = record {
  task_id = id;
  key = "";
  state = "leased";
  worker_id = "worker-a";
  attempt = 1;
  started_at = some 3;
  duration = pos 0;
  output = "";
  error = "";
}

abbrev day : List Call
day = connects 2 ∷ starts (progress "t1") ∷ starts (progress "t2") ∷ finishes "t1" true false ∷ []

run-tracked_example :
    let s = run day (new_worker_tracker "worker-a" "host:8080" 2).snapshot in
    ((id : String) → count id (ids s.active_tasks) ≡ flag (under_way id day false))
    × (s.completed ≡ 1)
    × (s.failed ≡ 0)
run-tracked_example = run-tracked "worker-a" "host:8080" 2 day
