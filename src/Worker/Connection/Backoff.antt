-- ===== src/Worker/Connection/Backoff.antt =====
-- internal/worker/pull.go: nextBackoff, from the first delay on.
use native.Mathlib.Nat.{pow-suc}
use inoculum.Shared.{ℕ, zero, suc, ◌*◌, ◌^◌, ◌≤◌, ◌≡◌, arith, ltb, if◌then◌else◌}
use inoculum.Worker.Connection.{next_backoff, default_min_backoff, default_max_backoff}

-- The delay after `k` failures in a row, as the loops reach it, and in closed form.
abbrev pub delay_after : ℕ → ℕ
delay_after zero = default_min_backoff
delay_after (suc k) = next_backoff (delay_after k)

abbrev pub capped : ℕ → ℕ
capped n = if ltb default_max_backoff n then default_max_backoff else n

delay_after-capped : (k : ℕ) → delay_after k ≡ capped (default_min_backoff * 2 ^ k)
unfolding next_backoff
delay_after-capped zero = omega arith
delay_after-capped (suc k) = ground (arith, delay_after-capped k, pow-suc 2 k)

power_pos : (k : ℕ) → 1 ≤ 2 ^ k
power_pos zero = omega arith
power_pos (suc k) = omega (arith, pow-suc 2 k, power_pos k)

doubled :
    (d bound : ℕ)
    → bound ≤ d
    → bound * 2 ≤ default_max_backoff
    → d ≤ default_max_backoff
    → (bound * 2 ≤ next_backoff d) × (next_backoff d ≤ default_max_backoff)
unfolding next_backoff
doubled d bound low room high = ground arith

four_more :
    (d : ℕ)
    → default_min_backoff ≤ d
    → d ≤ default_max_backoff
    → next_backoff (next_backoff (next_backoff (next_backoff d))) ≡ default_max_backoff
four_more d low high =
    let (low₁, high₁) = doubled d default_min_backoff low (omega arith) high in
    let (low₂, high₂) = doubled _ _ low₁ (omega arith) high₁ in
    let (low₃, high₃) = doubled _ _ low₂ (omega arith) high₂ in
    let (low₄, high₄) = doubled _ _ low₃ (omega arith) high₃ in omega (arith, low₄, high₄)

-- The delay doubles from 500 ms on and stays at 8 s from the fourth failure on.
pub delay_after_lem :
    (k : ℕ)
    → (delay_after k ≡ capped (default_min_backoff * 2 ^ k))
      × (default_min_backoff ≤ delay_after k)
      × (delay_after k ≤ default_max_backoff)
      × (delay_after (suc (suc (suc (suc k)))) ≡ default_max_backoff)
delay_after_lem k =
    let power = power_pos k in
    let closed = delay_after-capped k in
    (closed, ground arith, ground arith, four_more (delay_after k) (ground arith) (ground arith))
