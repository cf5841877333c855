-- ===== src/Worker/Renewal/Intervals.antt =====
-- internal/worker/pull.go: a lease is renewed often enough.
use inoculum.Shared.{ℕ, ◌*◌, ◌≤◌, arith}
use inoculum.Shared.Int.{pos}
use inoculum.Worker.Renewal.{renew_interval}

-- A renewal comes every 500 ms to 5 s, and where at least 1.5 s of the lease are left, two ticks come
-- before it runs out, with a third of it to spare.
pub renew_interval_lem :
    (left : ℕ)
    → 1500000000 ≤ left
    → (500000000 ≤ renew_interval (pos left))
      × (renew_interval (pos left) ≤ 5000000000)
      × (3 * renew_interval (pos left) ≤ left)
unfolding renew_interval
renew_interval_lem left h = ground arith
