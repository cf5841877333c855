-- ===== src/Worker/Delivery/Examples.antt =====
-- A delivery that fails twice before the coordinator answers.
use inoculum.Shared.{ℕ, ◌≡◌, refl, String, false, List, [], ◌∷◌}
use inoculum.Monitor.Recorder.{new_recorder-IsBounded}
use inoculum.Monitor.Worker.{new_worker_tracker}
use inoculum.Worker.Connection.{Connection, next_backoff}
use inoculum.Worker.Delivery.Retries.{IsTracked, delays}
use inoculum.Shared.Int.{pos}

abbrev pub first : Connection
first = record {
  ever_connected = false;
  unavailable = false;
  monitor = new_worker_tracker "worker-a" "host:8080" 2;
}

pub first-IsTracked : IsTracked first
unfolding new_worker_tracker
first-IsTracked = new_recorder-IsBounded (pos 100)

abbrev two_failures : List (ℕ × String)
two_failures = (1, "connection refused") ∷ (2, "HTTP 502") ∷ []

first_delays : delays 0 5 ≡ 500000000 ∷ 1000000000 ∷ 2000000000 ∷ 4000000000 ∷ 8000000000 ∷ []
unfolding next_backoff
first_delays = refl
