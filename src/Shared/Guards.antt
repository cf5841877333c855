-- ===== src/Shared/Guards.antt =====
-- Early returns of an error: what a result that is not an error says of the tests before it.
use mathlib.Core.Path.{◌≡◌, refl}
use mathlib.Core.Bool.{Bool, true, false}
use native.Mathlib.Omega.{arith}
use inoculum.Shared.Tests.{if◌then◌else◌, Result, ok, err}

pub passed :
    {E A : Type 0} (bad : Bool) (e : E) (rest : Result E A) {a : A}
    → (if bad then err e else rest) ≡ ok a
    → (bad ≡ false) × (rest ≡ ok a)
passed true e rest h = absurd (ground (arith, h))
passed false e rest h = (refl, h)

pub ok_inj : {E A : Type 0} {a b : A} → ◌≡◌ {A = Result E A} (ok a) (ok b) → a ≡ b
ok_inj h = cc
