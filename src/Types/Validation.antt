-- ===== src/Types/Validation.antt =====
-- internal/types/validation.go: the bounds on identifiers and results.
pub mod Examples
use Prim.Native.Char.{code}
use Prim.Native.String.{[], ◌∷◌}
use inoculum.Shared.{
  not, sym, ◌∙◌, ℕ, ◌*◌, ◌≤◌, ◌≡◌, ◌≢◌, ◌↔◌, refl, String, ◌==◌, Bool, true, ◌&&◌, ◌||◌, ltb, leb,
  eqb, if◌then◌else◌, arith, Result as Fallible, ok, err, eq_iff, Bool-cases, inl, inr,
}
use inoculum.Text.{byte_length, every, is_control, every_mono, byte_length-ascii, rune_count}
use inoculum.Types.Wire.{Result}

abbrev pub max_worker_id_bytes : ℕ
max_worker_id_bytes = 64

abbrev pub max_task_id_bytes : ℕ
max_task_id_bytes = 256

abbrev pub max_lease_id_bytes : ℕ
max_lease_id_bytes = 128

abbrev pub max_result_output_bytes : ℕ
max_result_output_bytes = 64 * 1024

abbrev pub max_result_error_bytes : ℕ
max_result_error_bytes = 4 * 1024

-- The messages of the package: what is named, and what is wrong with it.
pub data ValidationError : Type 0 where
  is_required : String → ValidationError
  exceeds_limit : String → ℕ → ValidationError
  bad_character : String → ValidationError

-- The letters, digits and three marks that an identifier may have.
abbrev pub is_safe : ℕ → Bool
is_safe c =
    (leb b'a' c && leb c b'z')
    || (leb b'A' c && leb c b'Z')
    || (leb b'0' c && leb c b'9')
    || eqb c b'-'
    || eqb c b'_'
    || eqb c b'.'

-- The loop that ValidateWorkerID and validateSafeIdentifier share.
unfoldable pub check_characters : String → String → Fallible ValidationError (Unit {0})
check_characters name [] = ok tt
check_characters name (c ∷ s) =
    if is_safe (code c) then check_characters name s else err (bad_character name)

unfoldable pub validate_worker_id : String → Fallible ValidationError (Unit {0})
validate_worker_id worker_id =
    if worker_id == ""
    then err (is_required "worker ID")
    else if ltb max_worker_id_bytes (byte_length worker_id)
    then err (exceeds_limit "worker ID" max_worker_id_bytes)
    else check_characters "worker ID" worker_id

pub validate_safe_identifier : String → String → ℕ → Fallible ValidationError (Unit {0})
validate_safe_identifier name value limit =
    if value == ""
    then err (is_required name)
    else if ltb limit (byte_length value)
    then err (exceeds_limit name limit)
    else check_characters name value

pub validate_task_id : String → Fallible ValidationError (Unit {0})
validate_task_id task_id = validate_safe_identifier "task ID" task_id max_task_id_bytes

pub validate_lease_id : String → Fallible ValidationError (Unit {0})
validate_lease_id lease_id = validate_safe_identifier "lease ID" lease_id max_lease_id_bytes

pub validate_result : Result → Fallible ValidationError (Unit {0})
validate_result result =
    if ltb max_task_id_bytes (byte_length result.task_id)
    then err (exceeds_limit "result task ID" max_task_id_bytes)
    else if ltb max_result_output_bytes (byte_length result.output)
    then err (exceeds_limit "result output" max_result_output_bytes)
    else if ltb max_result_error_bytes (byte_length result.error)
    then err (exceeds_limit "result error" max_result_error_bytes)
    else ok tt

check_characters-every :
    (name s : String) → (check_characters name s ≡ ok tt) ↔ (every is_safe s ≡ true)
unfolding check_characters every
check_characters-every name [] = (λ h. refl, λ h. refl)
check_characters-every name (c ∷ s) = elim (Bool-cases (is_safe (code c))) [
  | inl good ↦ rw good (check_characters-every name s)
  | inr bad ↦ rw bad (λ h. cc h, λ h. cc h)
]

-- An identifier within `limit` bytes, of at least one character and safe characters only.
pub record IsIdentifier (limit : ℕ) (s : String) : Type 0 where
  pub present : s ≢ ""
  pub short : byte_length s ≤ limit
  pub safe : every is_safe s ≡ true

-- validateSafeIdentifier accepts exactly the identifiers within its limit.
pub validate_safe_identifier_iff :
    (name value : String) (limit : ℕ)
    → (validate_safe_identifier name value limit ≡ ok tt) ↔ IsIdentifier limit value
unfolding validate_safe_identifier
validate_safe_identifier_iff name value limit = (
  λ h. ground (arith, eq_iff value "", (check_characters-every name value).0),
  λ i. ground (arith, eq_iff value "", i.present, (check_characters-every name value).1 i.safe),
)

-- ValidateWorkerID is the same check, with its own name and limit.
pub validate_worker_id-eq :
    (s : String) → validate_worker_id s ≡ validate_safe_identifier "worker ID" s max_worker_id_bytes
unfolding validate_worker_id validate_safe_identifier
validate_worker_id-eq s = refl

safe-ascii : (c : ℕ) → is_safe c ≡ true → ltb c 0x80 ≡ true
safe-ascii c h = ground arith

safe-printable : (c : ℕ) → is_safe c ≡ true → not (is_control c) ≡ true
safe-printable c h = ground arith

-- An accepted worker ID is not empty, holds no control character, and has as many bytes as
-- characters, at most 64: it is safe in a log line and on a terminal.
pub validate_worker_id-safe :
    (s : String)
    → validate_worker_id s ≡ ok tt
    → (s ≢ "")
      × (every (λ c. not (is_control c)) s ≡ true)
      × (byte_length s ≡ rune_count s)
      × (rune_count s ≤ max_worker_id_bytes)
validate_worker_id-safe s h =
    let i =
      (validate_safe_identifier_iff "worker ID" s max_worker_id_bytes).0
        (sym (validate_worker_id-eq s) ∙ h) in
    let ascii = byte_length-ascii s (every_mono is_safe (λ c. ltb c 0x80) safe-ascii s i.safe) in
    (
      i.present,
      every_mono is_safe (λ c. not (is_control c)) safe-printable s i.safe,
      ascii,
      omega (arith, ascii, i.short),
    )

-- ValidateResult accepts exactly the results whose three texts are within their limits.
pub validate_result_iff :
    (r : Result)
    → (validate_result r ≡ ok tt) ↔ (
        (byte_length r.task_id ≤ max_task_id_bytes)
        × (byte_length r.output ≤ max_result_output_bytes)
        × (byte_length r.error ≤ max_result_error_bytes))
unfolding validate_result
validate_result_iff r = (λ h. ground arith, λ h. ground arith)
