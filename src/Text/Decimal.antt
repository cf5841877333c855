-- ===== src/Text/Decimal.antt =====
-- fmt's %d of a number below 2 ^ 64, and that it can be read back.
use Prim.Native.Char.{Char, char, code}
use Prim.Native.String.{String, [], ◌∷◌}
use inoculum.Shared.{
  ℕ, zero, suc, ◌+◌, ◌-◌, ◌*◌, ◌/◌, ◌%◌, ◌^◌, ◌<◌, ◌≡◌, refl, sym, ap, ◌∙◌, ltb, if◌then◌else◌,
  arith,
}

abbrev pub digit : ℕ → Char
digit zero = char 48 tt
digit (suc zero) = char 49 tt
digit (suc (suc zero)) = char 50 tt
digit (suc (suc (suc zero))) = char 51 tt
digit (suc (suc (suc (suc zero)))) = char 52 tt
digit (suc (suc (suc (suc (suc zero))))) = char 53 tt
digit (suc (suc (suc (suc (suc (suc zero)))))) = char 54 tt
digit (suc (suc (suc (suc (suc (suc (suc zero))))))) = char 55 tt
digit (suc (suc (suc (suc (suc (suc (suc (suc zero)))))))) = char 56 tt
digit _ = char 57 tt

-- The digits of `n` in front of `out`. The fuel bounds their number.
digits : ℕ → ℕ → String → String
digits zero n out = out
digits (suc fuel) n out =
    let rest = digits fuel (n / 10) (digit (n % 10) ∷ out) in
    if ltb n 10 then digit n ∷ out else rest

-- 2 ^ 64 has 20 digits.
unfoldable pub decimal : ℕ → String
unfolding digits
decimal n = digits 20 n []

-- The number that digits print, after those that printed `n`.
read : String → ℕ → ℕ
read [] n = n
read (c ∷ s) n = read s (10 * n + (code c - 48))

code-digit : (d : ℕ) → d < 10 → code (digit d) ≡ 48 + d
code-digit zero h = refl
code-digit (suc zero) h = refl
code-digit (suc (suc zero)) h = refl
code-digit (suc (suc (suc zero))) h = refl
code-digit (suc (suc (suc (suc zero)))) h = refl
code-digit (suc (suc (suc (suc (suc zero))))) h = refl
code-digit (suc (suc (suc (suc (suc (suc zero)))))) h = refl
code-digit (suc (suc (suc (suc (suc (suc (suc zero))))))) h = refl
code-digit (suc (suc (suc (suc (suc (suc (suc (suc zero)))))))) h = refl
code-digit (suc (suc (suc (suc (suc (suc (suc (suc (suc d))))))))) h = omega (arith, h)

read-digit : (d n : ℕ) (s : String) → d < 10 → read (digit d ∷ s) n ≡ read s (10 * n + d)
unfolding read
read-digit d n s h = ap (read s) (omega (arith, code-digit d h))

read-digits : (fuel n : ℕ) (out : String) → n < 10 ^ fuel → read (digits fuel n out) 0 ≡ read out n
unfolding digits
read-digits zero n out h = ap (read out) (omega (arith, h))
read-digits (suc fuel) n out h = ground (
  arith,
  read-digit n 0 out,
  read-digit (n % 10) (n / 10) out,
  read-digits fuel (n / 10) (digit (n % 10) ∷ out),
)

-- Two numbers below 2 ^ 64 with one print are one number.
pub decimal_inj : (m n : ℕ) → m < 2 ^ 64 → n < 2 ^ 64 → decimal m ≡ decimal n → m ≡ n
unfolding decimal read
decimal_inj m n hm hn e =
    sym (read-digits 20 m [] (omega (arith, hm)))
    ∙ ap (λ s. read s 0) e
    ∙ read-digits 20 n [] (omega (arith, hn))

print_twelve : decimal 1200 ≡ "1200"
unfolding decimal digits
print_twelve = refl
