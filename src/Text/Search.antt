-- ===== src/Text/Search.antt =====
-- strings.Contains(strings.ToLower(s), t), for a `t` in ASCII.
use Prim.Native.Char.{code}
use Prim.Native.String.{[] as empty_text, ◌∷◌ as char_then}
use inoculum.Shared.{
  ℕ, ◌+◌, ◌≡◌, refl, String, Bool, true, false, ◌&&◌, ◌||◌, List, [], ◌∷◌, map, eqb, leb,
  if◌then◌else◌,
}

unfoldable pub codes : String → List ℕ
codes empty_text = []
codes (char_then c s) = code c ∷ codes s

-- unicode.ToLower where it gives an ASCII letter: of A to Z, of the dotted capital I and of the
-- Kelvin sign. What it does to other characters gives no ASCII character.
abbrev pub lower : ℕ → ℕ
lower c =
    if leb b'A' c && leb c b'Z'
    then c + 32
    else if eqb c 0x130
    then b'i'
    else if eqb c 0x212a
    then b'k'
    else c

unfoldable pub begins : List ℕ → List ℕ → Bool
begins [] s = true
begins (d ∷ t) [] = false
begins (d ∷ t) (c ∷ s) = eqb c d && begins t s

unfoldable pub holds_part : List ℕ → List ℕ → Bool
holds_part t [] = begins t []
holds_part t (c ∷ s) = begins t (c ∷ s) || holds_part t s

pub contains_lower : String → String → Bool
contains_lower s t = holds_part (codes t) (map lower (codes s))

refused_found : contains_lower "Post: HTTP 401 Unauthorized" "http 401" ≡ true
unfolding contains_lower holds_part begins codes
refused_found = refl

refused_missing : contains_lower "Post: HTTP 503" "http 401" ≡ false
unfolding contains_lower holds_part begins codes
refused_missing = refl
