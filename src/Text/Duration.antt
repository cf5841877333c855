-- ===== src/Text/Duration.antt =====
-- time.Duration.String: "1m30s", "1.5s", "250ms", "0s".
use Prim.Native.String.{◌∷◌, ◌++◌}
use inoculum.Shared.{
  ℕ, zero, suc, ◌/◌, ◌%◌, ◌^◌, ◌≡◌, refl, String, Bool, false, ◌||◌, not, ltb, eqb, if◌then◌else◌,
}
use inoculum.Shared.Int.{ℤ, pos, negsuc}
use inoculum.Text.Decimal.{decimal, digit}

-- The last `prec` digits of `v` after a point, less the zeros at their end, and what is above them.
fraction : ℕ → ℕ → Bool → String → String × ℕ
fraction zero v print out = (if print then "." ++ out else out, v)
fraction (suc prec) v print out =
    let print' = print || not (eqb (v % 10) 0) in
    fraction prec (v / 10) print' (if print' then digit (v % 10) ∷ out else out)

scaled : ℕ → ℕ → String → String
unfolding fraction
scaled prec v unit = let (out, whole) = fraction prec v false unit in decimal whole ++ out

clock_time : ℕ → String
clock_time v =
    let (out, seconds) = fraction 9 v false "s" in
    let minutes = seconds / 60 in
    let hours = minutes / 60 in
    let with_seconds = decimal (seconds % 60) ++ out in
    if eqb minutes 0
    then with_seconds
    else if eqb hours 0
    then decimal (minutes % 60) ++ "m" ++ with_seconds
    else decimal hours ++ "h" ++ decimal (minutes % 60) ++ "m" ++ with_seconds

magnitude : ℕ → String
magnitude v =
    if eqb v 0
    then "0s"
    else if ltb v (10 ^ 3)
    then decimal v ++ "ns"
    else if ltb v (10 ^ 6)
    then scaled 3 v "µs"
    else if ltb v (10 ^ 9)
    then scaled 6 v "ms"
    else clock_time v

pub duration_string : ℤ → String
duration_string (pos n) = magnitude n
duration_string (negsuc n) = "-" ++ magnitude (suc n)

one_hour_print : duration_string (pos 3690500000000) ≡ "1h1m30.5s"
unfolding duration_string magnitude clock_time fraction decimal
one_hour_print = refl

quarter_print : duration_string (pos 250000000) ≡ "250ms"
unfolding duration_string magnitude scaled fraction decimal
quarter_print = refl
