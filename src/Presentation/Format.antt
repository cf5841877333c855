-- ===== src/Presentation/Format.antt =====
-- internal/presentation/format.go: safe texts, cuts, and the progress bar.
use Prim.Native.Char.{Char, char, code}
use text.Mathlib.TextBridge.{to_list, of_list}
use inoculum.Shared.{
  ℕ, zero, suc, ◌-◌, ◌*◌, ◌/◌, ◌%◌, String, Bool, ◌||◌, List, [], ◌∷◌, ◌++◌, map, ltb, eqb,
  if◌then◌else◌, length, take, drop, ◌==◌,
}
use inoculum.Shared.Int.{ℤ, pos, pos_part, leb_ℤ, ltb_ℤ}
use inoculum.Text.{is_control}
use inoculum.Text.Decimal.{digit}

-- A digit of base 16, in lower case.
abbrev pub hex_letter : ℕ → Char
hex_letter zero = char 97 tt
hex_letter (suc zero) = char 98 tt
hex_letter (suc (suc zero)) = char 99 tt
hex_letter (suc (suc (suc zero))) = char 100 tt
hex_letter (suc (suc (suc (suc zero)))) = char 101 tt
hex_letter _ = char 102 tt

unfoldable pub hex : ℕ → Char
hex d = if ltb d 10 then digit d else hex_letter (d - 10)

-- What strconv.QuoteRune writes between its quotes for a control character, behind the backslash.
unfoldable pub mark : ℕ → List Char
mark c =
    if eqb c 7
    then char 97 tt ∷ []
    else if eqb c 8
    then char 98 tt ∷ []
    else if eqb c 12
    then char 102 tt ∷ []
    else if eqb c 10
    then char 110 tt ∷ []
    else if eqb c 13
    then char 114 tt ∷ []
    else if eqb c 9
    then char 116 tt ∷ []
    else if eqb c 11
    then char 118 tt ∷ []
    else if ltb c 32 || eqb c 127
    then char 120 tt ∷ hex (c / 16) ∷ hex (c % 16) ∷ []
    else char 117 tt ∷ hex 0 ∷ hex 0 ∷ hex (c / 16) ∷ hex (c % 16) ∷ []

abbrev pub escape : ℕ → List Char
escape c = char 92 tt ∷ mark c

unfoldable pub safe_runes : List Char → List Char
safe_runes [] = []
safe_runes (c ∷ cs) =
    let rest = safe_runes cs in if is_control (code c) then escape (code c) ++ rest else c ∷ rest

unfoldable pub safe_text : String → String
safe_text text = of_list (safe_runes (to_list text))

-- strings.Repeat of one rune
abbrev pub repeat : ℕ → Char → List Char
repeat zero c = []
repeat (suc n) c = c ∷ repeat n c

-- How many runes of the bar are full.
unfoldable pub filled : ℤ → ℤ → ℕ → ℕ
filled done total width =
    let total' = if leb_ℤ total (pos 0) then 1 else pos_part total in
    let done' = if ltb total' (pos_part done) then total' else pos_part done in
    done' * width / total'

unfoldable pub progress_bar : ℤ → ℤ → ℤ → Bool → String
progress_bar done total width unicode =
    let full = if unicode then char 0x2588 tt else char 35 tt in
    let empty = if unicode then char 0x2591 tt else char 45 tt in
    let n = filled done total (pos_part width) in
    if ltb_ℤ width (pos 4) then "" else of_list (repeat n full ++ repeat (pos_part width - n) empty)

unfoldable pub truncate : String → ℤ → String
truncate text width =
    let runes = to_list text in
    if leb_ℤ width (pos 0)
    then ""
    else if ltb (pos_part width) (length runes)
    then of_list (take (pos_part width) runes)
    else of_list runes

-- The loop of Wrap. The fuel is the number of runes, and each round takes one at least.
unfoldable pub wrap_runes : ℕ → ℕ → List Char → List (List Char)
wrap_runes width fuel [] = []
wrap_runes width zero (c ∷ cs) = []
wrap_runes width (suc fuel) (c ∷ cs) =
    take width (c ∷ cs) ∷ wrap_runes width fuel (drop width (c ∷ cs))

unfoldable pub wrap : String → ℤ → List String
wrap text width =
    let runes = to_list text in
    if leb_ℤ width (pos 0) || (text == "")
    then []
    else map of_list (wrap_runes (pos_part width) (length runes) runes)
