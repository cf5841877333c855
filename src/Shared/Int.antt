-- ===== src/Shared/Int.antt =====
-- Go's signed integers over the native numbers. `negsuc n` is -(n + 1).
use Prim.Native.Nat.{ℕ, suc, ◌+◌, ◌-◌}
use mathlib.Core.Bool.{Bool}
use inoculum.Shared.Tests.{eqb, leb, ltb, if◌then◌else◌}

pub data ℤ : Type 0 where
  pos : ℕ → ℤ
  negsuc : ℕ → ℤ

abbrev pub pos_part : ℤ → ℕ
pos_part (pos n) = n
pos_part (negsuc n) = 0

abbrev pub neg_part : ℤ → ℕ
neg_part (pos n) = 0
neg_part (negsuc n) = suc n

-- i < j and i <= j
abbrev pub ltb_ℤ : ℤ → ℤ → Bool
ltb_ℤ i j = ltb (pos_part i + neg_part j) (pos_part j + neg_part i)

abbrev pub leb_ℤ : ℤ → ℤ → Bool
leb_ℤ i j = leb (pos_part i + neg_part j) (pos_part j + neg_part i)

-- i == j
abbrev pub eqb_ℤ : ℤ → ℤ → Bool
eqb_ℤ i j = eqb (pos_part i + neg_part j) (pos_part j + neg_part i)

-- a - b, as an integer
abbrev pub sub_ℕ : ℕ → ℕ → ℤ
sub_ℕ a b = if leb b a then pos (a - b) else negsuc (b - a - 1)
