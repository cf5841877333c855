-- ===== src/Text/Naming.antt =====
-- Texts that are put together from a fixed part and a number.
use Prim.Native.Nat.{ℕ, ◌^◌, ◌<◌}
use Prim.Native.String.{String, ◌++◌, count}
use text.Mathlib.TextLemmas.{append_cancel_left, length-append}
use inoculum.Shared.{◌≡◌, ◌≢◌, ap, arith}
use inoculum.Text.Decimal.{decimal, decimal_inj}

-- One name, two numbers.
pub numbered_inj :
    (prefix middle : String) (m n : ℕ)
    → m < 2 ^ 64
    → n < 2 ^ 64
    → prefix ++ (middle ++ decimal m) ≡ prefix ++ (middle ++ decimal n)
    → m ≡ n
numbered_inj prefix middle m n hm hn e =
    decimal_inj m n hm hn (append_cancel_left middle _ _ (append_cancel_left prefix _ _ e))

pub append-nonempty : (s t u : String) → 0 < count t → s ++ (t ++ u) ≢ ""
append-nonempty s t u h e =
    omega (arith, h, length-append s (t ++ u), length-append t u, ap count e)
