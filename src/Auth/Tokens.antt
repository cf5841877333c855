-- ===== src/Auth/Tokens.antt =====
-- Which requests get past the bearer check.
use inoculum.Shared.{
  ℕ, ◌≡◌, ◌≢◌, refl, ap, ◌∙◌, Bool, true, false, ◌||◌, ◌⊎◌, not, Option, none, some, List, [], ◌∷◌,
  map, all, if◌then◌else◌, Bool-cases, inl, inr, arith,
}
use inoculum.Text.{is_space}
use inoculum.Auth.{
  Runes, grow, split, fields, same_runes, lower, bearer, is_bearer, token_of, bearer_token,
  presented_token, is_authorized, with_bearer_auth,
}

pub same_runes-eq : (cs ds : Runes) → same_runes cs ds ≡ true → cs ≡ ds
same_runes-eq [] [] h = refl
same_runes-eq [] (d ∷ ds) h = absurd (ground arith)
same_runes-eq (c ∷ cs) [] h = absurd (ground arith)
same_runes-eq (c ∷ cs) (d ∷ ds) h = ground (arith, same_runes-eq cs ds)

pub same_runes_refl : (cs : Runes) → same_runes cs cs ≡ true
same_runes_refl [] = refl
same_runes_refl (c ∷ cs) = ground (arith, same_runes_refl cs)

-- The one header is the word Bearer, in any case, and a token with the hash of the expected one.
pub record Presents (sha256 : Runes → Runes) (expected : Runes) (headers : List Runes)
    : Type 0 where
  pub header : Runes
  pub scheme : Runes
  pub token : Runes
  pub one_header : headers ≡ header ∷ []
  pub two_fields : fields header ≡ scheme ∷ token ∷ []
  pub names_scheme : map lower scheme ≡ bearer
  pub not_empty : token ≢ []
  pub same_hash : sha256 token ≡ sha256 expected

picked :
    (bad : Bool) (token : Runes) {wanted : Runes}
    → (if bad then none else some token) ≡ some wanted
    → (bad ≡ false) × (token ≡ wanted)
picked true token h = absurd (ground (arith, h))
picked false token h = (refl, ground (arith, h))

not_empty_lem : (token : Runes) → same_runes token [] ≡ false → token ≢ []
not_empty_lem [] h e = absurd (ground (arith, h))
not_empty_lem (c ∷ cs) h e = absurd (ground (arith, e))

token_of-some :
    (parts : List Runes) {token : Runes}
    → token_of parts ≡ some token
    → (scheme : Runes) × (parts ≡ scheme ∷ token ∷ []) × (map lower scheme ≡ bearer) × (token ≢ [])
token_of-some [] h = absurd (ground (arith, h))
token_of-some (a ∷ []) h = absurd (ground (arith, h))
token_of-some (a ∷ b ∷ c ∷ cs) h = absurd (ground (arith, h))
token_of-some (scheme ∷ token ∷ []) h =
    let (good, same) = picked (not (is_bearer scheme) || same_runes token []) token h in
    let named : is_bearer scheme ≡ true = ground (arith, good) in
    let full : same_runes token [] ≡ false = ground (arith, good) in
    (
      scheme,
      ap (λ t. scheme ∷ t ∷ []) same,
      same_runes-eq (map lower scheme) bearer named,
      λ e. not_empty_lem token full (same ∙ e),
    )

presented_token-some :
    (headers : List Runes) {token : Runes}
    → presented_token headers ≡ some token
    → (header : Runes) × (headers ≡ header ∷ []) × (bearer_token header ≡ some token)
presented_token-some [] h = absurd (ground (arith, h))
presented_token-some (header ∷ []) h = (header, refl, h)
presented_token-some (a ∷ b ∷ cs) h = absurd (ground (arith, h))

authorized-Presents :
    (sha256 : Runes → Runes) (expected : Runes) (headers : List Runes) (o : Option Runes)
    → presented_token headers ≡ o
    → is_authorized sha256 expected o ≡ true
    → Presents sha256 expected headers
unfolding bearer_token
authorized-Presents sha256 expected headers none is h = absurd (ground (arith, h))
authorized-Presents sha256 expected headers (some token) is h =
    let (header, one, has) = presented_token-some headers is in
    let (scheme, parts, named, full) = token_of-some (fields header) has in
    record {
      header = header;
      scheme = scheme;
      token = token;
      one_header = one;
      two_fields = parts;
      names_scheme = named;
      not_empty = full;
      same_hash = same_runes-eq (sha256 token) (sha256 expected) h;
    }

full_lem : (token : Runes) → token ≢ [] → same_runes token [] ≡ false
full_lem [] n = absurd (n refl)
full_lem (c ∷ cs) n = refl

token_of_run :
    (scheme token : Runes)
    → map lower scheme ≡ bearer
    → token ≢ []
    → token_of (scheme ∷ token ∷ []) ≡ some token
token_of_run scheme token named n =
    let is : is_bearer scheme ≡ true = ap (λ cs. same_runes cs bearer) named in
    rw (is, full_lem token n) refl

Presents-authorized :
    (sha256 : Runes → Runes) (expected : Runes) (headers : List Runes)
    → Presents sha256 expected headers
    → is_authorized sha256 expected (presented_token headers) ≡ true
unfolding bearer_token
Presents-authorized sha256 expected headers p =
    let has : presented_token headers ≡ some p.token =
      ap presented_token p.one_header
      ∙ ap token_of p.two_fields
      ∙ token_of_run p.scheme p.token p.names_scheme p.not_empty in
    ap (is_authorized sha256 expected) has
    ∙ ap (λ h. same_runes h (sha256 expected)) p.same_hash
    ∙ same_runes_refl (sha256 expected)

-- A request reaches its handler exactly when it presents the token: it has one Authorization header,
-- of two fields, the scheme Bearer in any case and a token with the hash of the expected token. Any
-- other request gets the refusal, and the state is as before.
pub with_bearer_auth_iff :
    {S R : Type 0} (sha256 : Runes → Runes) (expected : Runes) (next : S → Option (S × R))
    (refusal : R) (headers : List Runes) (s : S)
    → (Presents sha256 expected headers
        × (with_bearer_auth sha256 expected next refusal headers s ≡ next s))
      ⊎ ((¬ Presents sha256 expected headers)
          × (with_bearer_auth sha256 expected next refusal headers s ≡ some (s, refusal)))
unfolding with_bearer_auth
with_bearer_auth_iff sha256 expected next refusal headers s =
    elim (Bool-cases (is_authorized sha256 expected (presented_token headers))) [
      | inl yes_ ↦ inl (authorized-Presents sha256 expected headers _ refl yes_, rw yes_ refl)
      | inr no_ ↦ inr (
        λ p. absurd (ground (arith, no_, Presents-authorized sha256 expected headers p)),
        rw no_ refl,
      )
    ]

all_parts :
    (p : ℕ → Bool) (c : ℕ) (cs : Runes) → all p (c ∷ cs) ≡ true → (p c ≡ true) × (all p cs ≡ true)
all_parts p c cs h = ground (arith, h)

false_of_not : (b : Bool) → not b ≡ true → b ≡ false
false_of_not true h = absurd (ground (arith, h))
false_of_not false h = refl

abbrev pub is_solid : ℕ → Bool
is_solid c = not (is_space c)

if_false : {A : Type 0} (b : Bool) (x y : A) → b ≡ false → (if b then x else y) ≡ y
if_false true x y h = absurd (ground (arith, h))
if_false false x y h = refl

-- The field that a text without spaces is.
split-is_solid : (cs : Runes) → all is_solid cs ≡ true → split cs ≡ (cs, [])
unfolding split
split-is_solid [] h = refl
split-is_solid (c ∷ cs) h =
    let (solid, rest) = all_parts is_solid c cs h in
    ap (grow c) (split-is_solid cs rest)
    ∙ if_false (is_space c) _ _ (false_of_not (is_space c) solid)

-- "Bearer " + token, which is what clients send
abbrev pub bearer_header : Runes → Runes
bearer_header token = b'B' ∷ b'e' ∷ b'a' ∷ b'r' ∷ b'e' ∷ b'r' ∷ b' ' ∷ token

fields-bearer_header :
    (c : ℕ) (cs : Runes)
    → all is_solid (c ∷ cs) ≡ true
    → fields (bearer_header (c ∷ cs))
      ≡ (b'B' ∷ b'e' ∷ b'a' ∷ b'r' ∷ b'e' ∷ b'r' ∷ []) ∷ (c ∷ cs) ∷ []
unfolding fields split
fields-bearer_header c cs h = rw (split-is_solid (c ∷ cs) h) refl

-- The header that the worker and the submit command send is accepted, for every token that is not
-- empty and has no space.
pub with_bearer_auth-bearer_header :
    {S R : Type 0} (sha256 : Runes → Runes) (c : ℕ) (cs : Runes) (next : S → Option (S × R))
    (refusal : R) (s : S)
    → all is_solid (c ∷ cs) ≡ true
    → with_bearer_auth sha256 (c ∷ cs) next refusal (bearer_header (c ∷ cs) ∷ []) s ≡ next s
unfolding with_bearer_auth bearer_token
with_bearer_auth-bearer_header sha256 c cs next refusal s h =
    rw (fields-bearer_header c cs h) (rw (same_runes_refl (sha256 (c ∷ cs))) refl)
