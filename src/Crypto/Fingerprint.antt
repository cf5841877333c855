-- ===== src/Crypto/Fingerprint.antt =====
-- internal/crypto/tls.go: fingerprints. A text is the list of its code points here, a byte string
-- the list of its bytes.
pub mod Forms
use inoculum.Shared.{
  ℕ, ◌+◌, ◌-◌, ◌*◌, ◌/◌, ◌%◌, ◌≡◌, refl, Bool, true, false, ◌&&◌, ◌||◌, not, List, [], ◌∷◌, ◌++◌,
  map, all, length, ltb, leb, eqb, if◌then◌else◌, Result as Fallible, ok, err,
}
use inoculum.Text.{is_space}

abbrev pub Runes : Type 0
Runes = List ℕ

-- strings.TrimSpace
unfoldable pub trim_front : Runes → Runes
trim_front [] = []
trim_front (c ∷ cs) = let rest = trim_front cs in if is_space c then rest else c ∷ cs

abbrev pub put_back : ℕ → Runes → Runes
put_back c [] = if is_space c then [] else c ∷ []
put_back c (d ∷ ds) = c ∷ d ∷ ds

unfoldable pub trim_back : Runes → Runes
trim_back [] = []
trim_back (c ∷ cs) = put_back c (trim_back cs)

unfoldable pub trim_space : Runes → Runes
trim_space cs = trim_back (trim_front cs)

-- strings.ReplaceAll(s, ":", "")
unfoldable pub drop_colons : Runes → Runes
drop_colons [] = []
drop_colons (c ∷ cs) = let rest = drop_colons cs in if eqb c b':' then rest else c ∷ rest

-- strings.ToUpper, of an ASCII letter. No other character has a hexadecimal digit as its upper case.
abbrev pub upper : ℕ → ℕ
upper c = if leb b'a' c && leb c b'z' then c - 32 else c

-- What hex.DecodeString accepts in a text that is in upper case.
abbrev pub is_hex : ℕ → Bool
is_hex c = (leb b'0' c && leb c b'9') || (leb b'A' c && leb c b'F')

-- A value of another length and one with another character have errors that print differently.
pub data FingerprintError : Type 0 where
  malformed : FingerprintError

abbrev pub normalized : Runes → Runes
normalized value = map upper (drop_colons (trim_space value))

unfoldable pub normalize_fingerprint : Runes → Fallible FingerprintError Runes
normalize_fingerprint [] = ok []
normalize_fingerprint (c ∷ cs) =
    let value = normalized (c ∷ cs) in
    if eqb (length value) 64 && all is_hex value then ok value else err malformed

-- Pairs of characters, with a colon between them. A value has an even length here: the code slices
-- out of range at an odd one.
unfoldable pub format_fingerprint : Runes → Runes
format_fingerprint (a ∷ b ∷ c ∷ cs) = a ∷ b ∷ b':' ∷ format_fingerprint (c ∷ cs)
format_fingerprint cs = cs

-- hex.EncodeToString, in upper case
abbrev pub hex_digit : ℕ → ℕ
hex_digit d = if ltb d 10 then b'0' + d else b'A' + (d - 10)

unfoldable pub hex_upper : Runes → Runes
hex_upper [] = []
hex_upper (byte ∷ bytes) = hex_digit (byte / 16) ∷ hex_digit (byte % 16) ∷ hex_upper bytes

-- Fingerprint, over SHA-256 of the certificate
unfoldable pub fingerprint : (Runes → Runes) → Runes → Runes
fingerprint sha256 raw = format_fingerprint (hex_upper (sha256 raw))

two_bytes : format_fingerprint (hex_upper (171 ∷ 5 ∷ [])) ≡ b'A' ∷ b'B' ∷ b':' ∷ b'0' ∷ b'5' ∷ []
unfolding format_fingerprint hex_upper
two_bytes = refl
