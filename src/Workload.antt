-- ===== src/Workload.antt =====
-- internal/workload/manifest.go: the bounds of a batch, from a manifest file or from a request.
pub mod Bounds
pub mod Loading
pub mod Examples
use Prim.Native.Char.{code}
use Prim.Native.String.{[] as empty_text, ◌∷◌ as char_then}
use inoculum.Shared.{
  ℕ, ◌+◌, ◌*◌, ◌≤◌, ◌<◌, ◌≡◌, ◌≢◌, ◌↔◌, refl, String, ◌==◌, Bool, true, false, ◌&&◌, ◌||◌, not, ltb,
  leb, eqb, if◌then◌else◌, Result as Fallible, ok, err, List, [], ◌∷◌, GoMap, lookup, insert,
  length, Option, none, some,
}
use inoculum.Shared.Int.{ℤ, pos, eqb_ℤ}
use inoculum.Shared.Json.{
  Document, Decoded, malformed, value, Rest, end_of_file, another_value, garbage,
}
use inoculum.Text.{byte_length, is_blank, every}

abbrev pub manifest_version : ℤ
manifest_version = pos 1

abbrev pub http_probe_type : String
http_probe_type = "http_probe"

abbrev pub max_manifest_bytes : ℕ
max_manifest_bytes = 5 * 1024 * 1024

abbrev pub max_tasks : ℕ
max_tasks = 1000

abbrev pub max_key_bytes : ℕ
max_key_bytes = 128

abbrev pub max_input_bytes : ℕ
max_input_bytes = 4096

abbrev pub max_task_type_bytes : ℕ
max_task_type_bytes = 64

pub record Task : Type 0 where
  pub key : String
  pub input : String

pub record Manifest : Type 0 where
  pub version : ℤ
  pub type : String
  pub tasks : List Task

-- The package's messages, with the values that they print.
pub data WorkloadError : Type 0 where
  path_required unreadable multiple_values invalid_json type_required : WorkloadError
  task_type_required task_type_too_long task_type_characters no_tasks no_inputs : WorkloadError
  manifest_too_large : ℕ → WorkloadError
  unsupported_version : ℤ → WorkloadError
  unsupported_type : String → WorkloadError
  too_many_tasks : ℕ → WorkloadError
  too_many_inputs : ℕ → WorkloadError
  empty_key : ℕ → WorkloadError
  key_too_long : String → WorkloadError
  duplicate_key : String → WorkloadError
  empty_input : String → WorkloadError
  input_too_long : String → WorkloadError
  simple_input_too_long : ℕ → WorkloadError

infixl 5 ◌>>◌
abbrev ◌>>◌ {ℓ} :
    {B : Type ℓ}
    → Fallible WorkloadError (Unit {0})
    → Fallible WorkloadError B
    → Fallible WorkloadError B
ok _ >> k = k
err e >> k = err e

abbrev pub is_type_character : ℕ → Bool
is_type_character c = (leb b'a' c && leb c b'z') || eqb c b'_'

unfoldable pub check_type_characters : String → Fallible WorkloadError (Unit {0})
check_type_characters empty_text = ok tt
check_type_characters (char_then c s) =
    if is_type_character (code c) then check_type_characters s else err task_type_characters

unfoldable pub validate_task_type : String → Fallible WorkloadError (Unit {0})
validate_task_type task_type =
    if task_type == ""
    then err task_type_required
    else if ltb max_task_type_bytes (byte_length task_type)
    then err task_type_too_long
    else check_type_characters task_type

-- The loop of ValidateTasks, from `index` on, with the keys that it has seen.
pub check_tasks : ℕ → GoMap (Unit {0}) → List Task → Fallible WorkloadError (Unit {0})
check_tasks index keys [] = ok tt
check_tasks index keys (task ∷ tasks) =
    let rest = check_tasks (index + 1) (insert task.key tt keys) tasks in
    if is_blank task.key
    then err (empty_key index)
    else if ltb max_key_bytes (byte_length task.key)
    then err (key_too_long task.key)
    else elim (lookup task.key keys) [
      | some _ ↦ err (duplicate_key task.key)
      | none ↦
          if eqb (byte_length task.input) 0
          then err (empty_input task.key)
          else if ltb max_input_bytes (byte_length task.input)
          then err (input_too_long task.key)
          else rest
    ]

pub validate_tasks : List Task → Fallible WorkloadError (Unit {0})
validate_tasks tasks =
    if eqb (length tasks) 0
    then err no_tasks
    else if ltb max_tasks (length tasks)
    then err (too_many_tasks (length tasks))
    else check_tasks 0 [] tasks

unfoldable pub check_inputs : ℕ → List String → Fallible WorkloadError (Unit {0})
check_inputs index [] = ok tt
check_inputs index (input ∷ inputs) =
    let rest = check_inputs (index + 1) inputs in
    if ltb max_input_bytes (byte_length input) then err (simple_input_too_long index) else rest

unfoldable pub validate_simple_inputs : List String → Fallible WorkloadError (Unit {0})
validate_simple_inputs inputs =
    if eqb (length inputs) 0
    then err no_inputs
    else if ltb max_tasks (length inputs)
    then err (too_many_inputs (length inputs))
    else check_inputs 0 inputs

pub validate_manifest : Manifest → Fallible WorkloadError (Unit {0})
validate_manifest manifest =
    if not (eqb_ℤ manifest.version manifest_version)
    then err (unsupported_version manifest.version)
    else if manifest.type == ""
    then err type_required
    else validate_task_type manifest.type
      >> (if not (manifest.type == http_probe_type)
          then err (unsupported_type manifest.type)
          else validate_tasks manifest.tasks)

-- ensureEndOfJSON
pub ensure_end_of_json : Rest → Fallible WorkloadError (Unit {0})
ensure_end_of_json end_of_file = ok tt
ensure_end_of_json garbage = err invalid_json
ensure_end_of_json another_value = err multiple_values

-- LoadManifest, given what opening and reading the file gives: `none` if that fails.
pub load_manifest : String → Option (Document Manifest) → Fallible WorkloadError Manifest
load_manifest path file = if is_blank path then err path_required else elim file [
  | none ↦ err unreadable
  | some contents ↦
      if ltb max_manifest_bytes contents.size
      then err (manifest_too_large max_manifest_bytes)
      else elim contents.decoded [
        | malformed ↦ err invalid_json
        | value manifest rest ↦ ensure_end_of_json rest >> validate_manifest manifest >> ok manifest
      ]
]
