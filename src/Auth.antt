-- ===== src/Auth.antt =====
-- internal/auth/auth.go: the bearer token in front of every route. A text is the list of its code
-- points. The audit record and the log line of a failure are not modelled.
pub mod Tokens
use inoculum.Shared.{
  ℕ, ◌+◌, ◌≡◌, refl, Bool, true, false, ◌&&◌, ◌||◌, not, Option, none, some, List, [], ◌∷◌, map,
  leb, eqb, if◌then◌else◌,
}
use inoculum.Text.{is_space}

abbrev pub Runes : Type 0
Runes = List ℕ

-- strings.Fields: the part before the first space, with the fields behind it, and then all of them.
abbrev pub add_part : Runes → List Runes → List Runes
add_part [] parts = parts
add_part (c ∷ cs) parts = (c ∷ cs) ∷ parts

abbrev pub grow : ℕ → Runes × List Runes → Runes × List Runes
grow c (part, parts) = if is_space c then ([], add_part part parts) else (c ∷ part, parts)

pub split : Runes → Runes × List Runes
split [] = ([], [])
split (c ∷ cs) = grow c (split cs)

pub fields : Runes → List Runes
unfolding split
fields cs = let (part, parts) = split cs in add_part part parts

-- ==, on texts and on hashes
abbrev pub same_runes : Runes → Runes → Bool
same_runes [] [] = true
same_runes [] (d ∷ ds) = false
same_runes (c ∷ cs) [] = false
same_runes (c ∷ cs) (d ∷ ds) = eqb c d && same_runes cs ds

-- strings.EqualFold(s, "Bearer"): no letter of that word has a third form.
abbrev pub lower : ℕ → ℕ
lower c = if leb b'A' c && leb c b'Z' then c + 32 else c

abbrev pub bearer : Runes
bearer = b'b' ∷ b'e' ∷ b'a' ∷ b'r' ∷ b'e' ∷ b'r' ∷ []

abbrev pub is_bearer : Runes → Bool
is_bearer cs = same_runes (map lower cs) bearer

abbrev pub token_of : List Runes → Option Runes
token_of (scheme ∷ token ∷ []) =
    if not (is_bearer scheme) || same_runes token [] then none else some token
token_of _ = none

pub bearer_token : Runes → Option Runes
bearer_token header = token_of (fields header)

-- tokensEqual, over SHA-256 of the text's UTF-8 encoding
abbrev pub tokens_equal : (Runes → Runes) → Runes → Runes → Bool
tokens_equal sha256 presented expected = same_runes (sha256 presented) (sha256 expected)

-- The token of the one Authorization header, where there is just one.
abbrev pub presented_token : List Runes → Option Runes
presented_token (header ∷ []) = bearer_token header
presented_token _ = none

abbrev pub is_authorized : (Runes → Runes) → Runes → Option Runes → Bool
is_authorized sha256 expected none = false
is_authorized sha256 expected (some token) = tokens_equal sha256 token expected

-- WithBearerAuth, given the values of the Authorization header. The refusal is the response 401.
unfoldable pub with_bearer_auth :
    {S R : Type 0}
    → (Runes → Runes)
    → Runes
    → (S → Option (S × R))
    → R
    → List Runes
    → S
    → Option (S × R)
with_bearer_auth sha256 expected next refusal headers s =
    if not (is_authorized sha256 expected (presented_token headers))
    then some (s, refusal)
    else next s
