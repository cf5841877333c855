-- ===== src/Workload/Examples.antt =====
-- internal/workload/manifest_test.go: the theorems of the validation at concrete batches.
use inoculum.Shared.{◌≤◌, ◌≡◌, ◌↔◌, refl, false, ok, err, [], ◌∷◌, some, lookup, insert}
use inoculum.Shared.Int.{pos}
use inoculum.Shared.Json.{Document, value, Rest, end_of_file, another_value}
use inoculum.Text.{byte_length, every, is_blank}
use inoculum.Workload.{
  Task, Manifest, validate_tasks, check_tasks, load_manifest, duplicate_key, multiple_values,
  max_manifest_bytes, ensure_end_of_json,
}
use inoculum.Workload.Loading.{IsSupported, load_manifest_iff}

abbrev home : Task
home = record { key = "homepage"; input = "https://example.com/" }

abbrev docs : Task
docs = record { key = "docs"; input = "https://example.com/docs" }

duplicates_refused : validate_tasks (home ∷ docs ∷ home ∷ []) ≡ err (duplicate_key "homepage")
unfolding validate_tasks check_tasks byte_length every lookup insert
duplicates_refused = refl

abbrev manifest : Manifest
manifest = record { version = pos 1; type = "http_probe"; tasks = home ∷ docs ∷ [] }

abbrev document : Rest → Document Manifest
document rest = record { size = 150; decoded = value manifest rest }

trailing_value_refused :
    load_manifest "batch.json" (some (document another_value)) ≡ err multiple_values
unfolding load_manifest ensure_end_of_json every
trailing_value_refused = refl

load_manifest_iff_example :
    (load_manifest "batch.json" (some (document end_of_file)) ≡ ok manifest) ↔ (
      (is_blank "batch.json" ≡ false)
      × ((d : Document Manifest) × (some (document end_of_file) ≡ some d)
          × (d.size ≤ max_manifest_bytes)
          × (d.decoded ≡ value manifest end_of_file))
      × IsSupported manifest)
load_manifest_iff_example = load_manifest_iff "batch.json" (some (document end_of_file)) manifest
