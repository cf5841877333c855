-- ===== src/Types/Validation/Examples.antt =====
-- internal/types/validation_test.go: the theorems of the validation at concrete texts.
use inoculum.Shared.{◌≡◌, refl, ok, err}
use inoculum.Shared.Int.{pos}
use inoculum.Text.{byte_length}
use inoculum.Types.Wire.{Result}
use inoculum.Types.Validation.{validate_worker_id, check_characters, bad_character}

accepted : validate_worker_id "mac-worker_1.local" ≡ ok tt
unfolding validate_worker_id check_characters byte_length
accepted = refl

newline_refused : validate_worker_id "worker\nforged" ≡ err (bad_character "worker ID")
unfolding validate_worker_id check_characters byte_length
newline_refused = refl

abbrev result : Result
result = record {
  task_id = "t";
  output = "done";
  duration = pos 5;
  duration_str = "5ns";
  error = "";
}
