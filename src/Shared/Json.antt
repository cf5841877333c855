-- ===== src/Shared/Json.antt =====
-- What the program sees of a JSON document through encoding/json, with unknown fields disallowed:
-- the size of the document, its first value, and what stands behind that value.
use Prim.Native.Nat.{ℕ}

-- The answer of a second Decode: io.EOF, a further value, or another error.
pub data Rest : Type 0 where
  end_of_file another_value garbage : Rest

-- `malformed` is a first Decode that fails: no JSON, a wrong type, or an unknown field.
pub data Decoded {ℓ} (A : Type ℓ) : Type ℓ where
  malformed : Decoded A
  value : A → Rest → Decoded A

pub record Document {ℓ} (A : Type ℓ) : Type ℓ where
  pub size : ℕ
  pub decoded : Decoded A
