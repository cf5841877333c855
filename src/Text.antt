-- ===== src/Text.antt =====
-- What the program uses of Go's strings. A text is the sequence of the code points that a `range`
-- over it gives; its length is that of its UTF-8 encoding, as `len` counts it.
pub mod Decimal
pub mod Duration
pub mod Naming
pub mod Search
use Prim.Native.Char.{code}
use Prim.Native.String.{[], ◌∷◌, ◌++◌}
use inoculum.Shared.{
  ◌*◌, ℕ, ◌+◌, ◌≤◌, ◌≡◌, refl, String, Bool, true, ◌&&◌, ◌||◌, ltb, leb, eqb, if◌then◌else◌, arith,
}

-- The number of bytes of a code point in UTF-8.
abbrev pub width : ℕ → ℕ
width c = if ltb c 0x80 then 1 else if ltb c 0x800 then 2 else if ltb c 0x10000 then 3 else 4

-- len(s)
unfoldable pub byte_length : String → ℕ
byte_length [] = 0
byte_length (c ∷ s) = width (code c) + byte_length s

-- s + t, which is also what %s and %d put together
abbrev pub append : String → String → String
append s t = s ++ t

-- utf8.RuneCountInString(s), which is len([]rune(s))
pub rune_count : String → ℕ
rune_count [] = 0
rune_count (c ∷ s) = 1 + rune_count s

-- Every code point passes the test.
unfoldable pub every : (ℕ → Bool) → String → Bool
every p [] = true
every p (c ∷ s) = p (code c) && every p s

-- unicode.IsSpace
abbrev pub is_space : ℕ → Bool
is_space c =
    (leb 0x9 c && leb c 0xd)
    || eqb c 0x20
    || eqb c 0x85
    || eqb c 0xa0
    || eqb c 0x1680
    || (leb 0x2000 c && leb c 0x200a)
    || eqb c 0x2028
    || eqb c 0x2029
    || eqb c 0x202f
    || eqb c 0x205f
    || eqb c 0x3000

-- strings.TrimSpace(s) == ""
abbrev pub is_blank : String → Bool
is_blank s = every is_space s

-- unicode.IsControl
abbrev pub is_control : ℕ → Bool
is_control c = ltb c 0x20 || (leb 0x7f c && ltb c 0xa0)

pub rune_count-le : (s : String) → rune_count s ≤ byte_length s
unfolding rune_count byte_length
rune_count-le [] = omega arith
rune_count-le (c ∷ s) = ground (arith, rune_count-le s)

pub byte_length-le : (s : String) → byte_length s ≤ 4 * rune_count s
unfolding rune_count byte_length
byte_length-le [] = omega arith
byte_length-le (c ∷ s) = ground (arith, byte_length-le s)

-- A weaker test passes where a stronger one does.
pub every_mono :
    (p r : ℕ → Bool)
    → ((c : ℕ) → p c ≡ true → r c ≡ true)
    → (s : String) → every p s ≡ true
    → every r s ≡ true
unfolding every
every_mono p r h [] e = refl
every_mono p r h (c ∷ s) e = ground (arith, h (code c), every_mono p r h s)

-- Where every code point is ASCII, bytes and code points are counted alike.
pub byte_length-ascii :
    (s : String) → every (λ c. ltb c 0x80) s ≡ true → byte_length s ≡ rune_count s
unfolding every byte_length rune_count
byte_length-ascii [] h = refl
byte_length-ascii (c ∷ s) h = ground (arith, byte_length-ascii s)
