-- ===== src/Crypto/Fingerprint/Forms.antt =====
-- Fingerprints in their two forms: 64 hexadecimal digits, and pairs of them between colons.
use inoculum.Shared.{
  ℕ, ◌*◌, ◌/◌, ◌%◌, ◌≡◌, ◌<◌, refl, sym, ap, ◌∙◌, Bool, true, false, ◌&&◌, not, [], ◌∷◌, ◌++◌, map,
  all, All, length, eqb, if◌then◌else◌, arith, ok, err,
}
use inoculum.Text.{is_space}
use inoculum.Crypto.Fingerprint.{
  Runes, trim_front, trim_back, trim_space, drop_colons, upper, is_hex, malformed, normalized,
  normalize_fingerprint, format_fingerprint, hex_digit, hex_upper, fingerprint,
}

-- A normalised fingerprint.
pub record IsNormal (value : Runes) : Type 0 where
  pub full : length value ≡ 64
  pub hex : all is_hex value ≡ true

hex-upper : (c : ℕ) → is_hex c ≡ true → upper c ≡ c
hex-upper c h = ground arith

hex-space : (c : ℕ) → is_hex c ≡ true → is_space c ≡ false
hex-space c h = ground arith

hex-colon : (c : ℕ) → is_hex c ≡ true → eqb c b':' ≡ false
hex-colon c h = ground arith

map-upper : (cs : Runes) → all is_hex cs ≡ true → map upper cs ≡ cs
map-upper [] h = refl
map-upper (c ∷ cs) h = ground (arith, hex-upper c, map-upper cs)

abbrev no_space : ℕ → Bool
no_space c = not (is_space c)

drop_colons-format : (cs : Runes) → all is_hex cs ≡ true → drop_colons (format_fingerprint cs) ≡ cs
unfolding drop_colons format_fingerprint
drop_colons-format [] h = refl
drop_colons-format (a ∷ []) h = ground (arith, hex-colon a)
drop_colons-format (a ∷ b ∷ []) h = ground (arith, hex-colon a, hex-colon b)
drop_colons-format (a ∷ b ∷ c ∷ cs) h =
    let rest = drop_colons-format (c ∷ cs) (ground arith) in
    ground (arith, hex-colon a, hex-colon b, rest)

format-no_space : (cs : Runes) → all is_hex cs ≡ true → all no_space (format_fingerprint cs) ≡ true
unfolding format_fingerprint
format-no_space [] h = refl
format-no_space (a ∷ []) h = ground (arith, hex-space a)
format-no_space (a ∷ b ∷ []) h = ground (arith, hex-space a, hex-space b)
format-no_space (a ∷ b ∷ c ∷ cs) h =
    let rest = format-no_space (c ∷ cs) (ground arith) in
    ground (arith, hex-space a, hex-space b, rest)

trim_front-no_space : (cs : Runes) → all no_space cs ≡ true → trim_front cs ≡ cs
unfolding trim_front
trim_front-no_space [] h = refl
trim_front-no_space (c ∷ cs) h = ground arith

trim_back-no_space : (cs : Runes) → all no_space cs ≡ true → trim_back cs ≡ cs
unfolding trim_back
trim_back-no_space [] h = refl
trim_back-no_space (c ∷ []) h = ground arith
trim_back-no_space (c ∷ d ∷ cs) h = rw (trim_back-no_space (d ∷ cs) (ground arith)) refl

trim_back-newline : (cs : Runes) → all no_space cs ≡ true → trim_back (cs ++ b'\n' ∷ []) ≡ cs
unfolding trim_back
trim_back-newline [] h = refl
trim_back-newline (c ∷ []) h = ground arith
trim_back-newline (c ∷ d ∷ cs) h = rw (trim_back-newline (d ∷ cs) (ground arith)) refl

trim_front-newline :
    (c : ℕ) (cs : Runes)
    → all no_space (c ∷ cs) ≡ true
    → trim_front ((c ∷ cs) ++ b'\n' ∷ []) ≡ (c ∷ cs) ++ b'\n' ∷ []
unfolding trim_front
trim_front-newline c cs h = ground arith

trim_space-no_space : (cs : Runes) → all no_space cs ≡ true → trim_space cs ≡ cs
unfolding trim_space
trim_space-no_space cs h = ap trim_back (trim_front-no_space cs h) ∙ trim_back-no_space cs h

-- A text without spaces behind which a line ends.
trim_space-newline : (cs : Runes) → all no_space cs ≡ true → trim_space (cs ++ b'\n' ∷ []) ≡ cs
unfolding trim_space trim_front trim_back
trim_space-newline [] h = refl
trim_space-newline (c ∷ cs) h =
    ap trim_back (trim_front-newline c cs h) ∙ trim_back-newline (c ∷ cs) h

normalized-format : (cs : Runes) → all is_hex cs ≡ true → normalized (format_fingerprint cs) ≡ cs
normalized-format cs h =
    ap (λ x. map upper (drop_colons x)) (trim_space-no_space _ (format-no_space cs h))
    ∙ ap (map upper) (drop_colons-format cs h)
    ∙ map-upper cs h

normalize-normalized :
    (text value : Runes)
    → normalized text ≡ value
    → IsNormal value
    → normalize_fingerprint text ≡ ok value
unfolding normalize_fingerprint drop_colons trim_space trim_back trim_front
normalize-normalized [] value e n =
    absurd (omega (arith, n.full, ap length e, ap length (trim_empty)))
  where
    trim_empty : normalized [] ≡ []
    trim_empty = refl
normalize-normalized (c ∷ cs) value e n = rw (e, n.full, n.hex) (ground arith)

-- A fingerprint in the form with colons is read as its digits.
pub normalize-format :
    (value : Runes) → IsNormal value → normalize_fingerprint (format_fingerprint value) ≡ ok value
normalize-format value n = normalize-normalized _ value (normalized-format value n.hex) n

-- And so it is from a file, with the end of the line behind it.
pub normalize-trim-format :
    (value : Runes)
    → IsNormal value
    → normalize_fingerprint (trim_space (format_fingerprint value ++ b'\n' ∷ [])) ≡ ok value
normalize-trim-format value n =
    ap normalize_fingerprint (trim_space-newline _ (format-no_space value n.hex))
    ∙ normalize-format value n

accepted :
    (full hex : Bool) (value wanted : Runes)
    → (if full && hex then ok value else err malformed) ≡ ok wanted
    → (full ≡ true) × (hex ≡ true) × (value ≡ wanted)
accepted true true value wanted h = ground (arith, h)
accepted true false value wanted h = absurd (ground (arith, h))
accepted false hex value wanted h = absurd (ground (arith, h))

-- What normalizeFingerprint accepts is normal.
pub normalize-IsNormal :
    (text : Runes) (c : ℕ) (cs : Runes)
    → normalize_fingerprint text ≡ ok (c ∷ cs)
    → IsNormal (c ∷ cs)
unfolding normalize_fingerprint
normalize-IsNormal [] c cs h = absurd (ground (arith, h))
normalize-IsNormal (d ∷ ds) c cs h =
    let value = normalized (d ∷ ds) in
    let (full, hex, same) = accepted (eqb (length value) 64) (all is_hex value) value (c ∷ cs) h in
    let long : length value ≡ 64 = ground (arith, full) in
    record { full = ap length (sym same) ∙ long; hex = ap (all is_hex) (sym same) ∙ hex }

-- A hash of 32 bytes.
pub record IsHash (bytes : Runes) : Type 0 where
  pub full : length bytes ≡ 32
  pub bytes_only : All (λ byte. byte < 256) bytes

hex_digit-hex : (d : ℕ) → d < 16 → is_hex (hex_digit d) ≡ true
hex_digit-hex d h = ground arith

length-hex_upper : (bytes : Runes) → length (hex_upper bytes) ≡ 2 * length bytes
unfolding hex_upper
length-hex_upper [] = omega arith
length-hex_upper (b ∷ bs) = omega (arith, length-hex_upper bs)

hex_upper-hex :
    (bytes : Runes) → All (λ byte. byte < 256) bytes → all is_hex (hex_upper bytes) ≡ true
unfolding hex_upper
hex_upper-hex [] h = refl
hex_upper-hex (b ∷ bs) h =
    let high = hex_digit-hex (b / 16) (omega (arith, h.0)) in
    let low = hex_digit-hex (b % 16) (omega (arith, h.0)) in rw (high, low) (hex_upper-hex bs h.1)

pub hex_upper-IsNormal : (bytes : Runes) → IsHash bytes → IsNormal (hex_upper bytes)
hex_upper-IsNormal bytes h = record {
  full = omega (arith, length-hex_upper bytes, h.full);
  hex = hex_upper-hex bytes h.bytes_only;
}

-- The fingerprint that is shown of a certificate is read as the digits of its hash.
pub normalize-fingerprint :
    (sha256 : Runes → Runes) (raw : Runes)
    → IsHash (sha256 raw)
    → normalize_fingerprint (fingerprint sha256 raw) ≡ ok (hex_upper (sha256 raw))
unfolding fingerprint
normalize-fingerprint sha256 raw h =
    normalize-format (hex_upper (sha256 raw)) (hex_upper-IsNormal (sha256 raw) h)

pub normalize_empty : normalize_fingerprint [] ≡ ok []
unfolding normalize_fingerprint
normalize_empty = refl
