-- ===== src/Workload/Loading.antt =====
-- internal/workload/manifest.go: ValidateManifest and LoadManifest, and the task types they accept.
use Prim.Native.Char.{code}
use Prim.Native.String.{[] as empty_text, ◌∷◌ as char_then}
use inoculum.Shared.{
  subst, ◌≤◌, ◌<◌, ◌≡◌, ◌≢◌, ◌↔◌, refl, sym, ap, ◌∙◌, String, true, false, ok, length, Option, none,
  some, All, arith, eq_iff, Bool-cases, inl, inr,
}
use inoculum.Shared.Json.{Document, Decoded, malformed, value, end_of_file, another_value, garbage}
use inoculum.Text.{byte_length, is_blank, every}
use inoculum.Workload.{
  Manifest, validate_tasks, validate_task_type, validate_manifest, load_manifest,
  check_type_characters, max_manifest_bytes, manifest_version, http_probe_type, max_task_type_bytes,
  is_type_character, ensure_end_of_json, max_tasks,
}
use inoculum.Workload.Bounds.{IsFine, DistinctKeys, validate_tasks_iff}

check_type_characters-every :
    (s : String) → (check_type_characters s ≡ ok tt) ↔ (every is_type_character s ≡ true)
unfolding check_type_characters every
check_type_characters-every empty_text = (λ h. refl, λ h. refl)
check_type_characters-every (char_then c s) = elim (Bool-cases (is_type_character (code c))) [
  | inl good ↦ rw good (check_type_characters-every s)
  | inr bad ↦ rw bad (λ h. cc h, λ h. cc h)
]

-- ValidateTaskType accepts exactly the texts of 1 to 64 bytes in lowercase letters and underscores.
pub validate_task_type_iff :
    (s : String)
    → (validate_task_type s ≡ ok tt)
      ↔ ((s ≢ "") × (byte_length s ≤ max_task_type_bytes) × (every is_type_character s ≡ true))
unfolding validate_task_type
validate_task_type_iff s =
    let loop = check_type_characters-every s in
    (λ h. ground (arith, eq_iff s "", loop.0), λ h. ground (arith, eq_iff s "", loop.1 h.2))

pub probe-valid : validate_task_type http_probe_type ≡ ok tt
unfolding validate_task_type check_type_characters byte_length
probe-valid = refl

-- A manifest within the specification: version 1, the one supported type, and bounded tasks.
pub record IsSupported (m : Manifest) : Type 0 where
  pub version : m.version ≡ manifest_version
  pub type : m.type ≡ http_probe_type
  pub some_tasks : 0 < length m.tasks
  pub few_tasks : length m.tasks ≤ max_tasks
  pub fine : All IsFine m.tasks
  pub distinct : DistinctKeys m.tasks

not_empty : http_probe_type ≢ ""
not_empty = ground (arith, eq_iff http_probe_type "")

-- ValidateManifest accepts exactly the supported manifests.
pub validate_manifest_iff : (m : Manifest) → (validate_manifest m ≡ ok tt) ↔ IsSupported m
unfolding validate_manifest
validate_manifest_iff m =
    let tasks = validate_tasks_iff m.tasks in
    (
      λ h.
          let valid : validate_tasks m.tasks ≡ ok tt = ground arith in
          let (some_tasks, few_tasks, fine, distinct) = tasks.0 valid in
          record {
            version = ground arith;
            type = ground (arith, eq_iff m.type http_probe_type);
            some_tasks = some_tasks;
            few_tasks = few_tasks;
            fine = fine;
            distinct = distinct;
          },
      λ s.
          let valid = tasks.1 (s.some_tasks, s.few_tasks, s.fine, s.distinct) in
          let probe = subst (λ x. validate_task_type x ≡ ok tt) (sym s.type) probe-valid in
          ground (arith, eq_iff m.type http_probe_type, eq_iff m.type "", not_empty),
    )

-- LoadManifest returns a manifest exactly when the path is not blank, the file can be read and is
-- within 5 MiB, its one JSON value is that manifest, and the manifest is supported.
pub load_manifest_iff :
    (path : String) (file : Option (Document Manifest)) (m : Manifest)
    → (load_manifest path file ≡ ok m) ↔ (
        (is_blank path ≡ false)
        × ((d : Document Manifest) × (file ≡ some d)
            × (d.size ≤ max_manifest_bytes)
            × (d.decoded ≡ value m end_of_file))
        × IsSupported m)
unfolding load_manifest ensure_end_of_json
load_manifest_iff path none m = (λ h. ground arith, λ h. cc h.1.1)
load_manifest_iff path (some d) m =
    let supported = validate_manifest_iff m in
    (
      λ h.
          let (nonblank, fits, is, valid) = decoded d.decoded refl h in
          (nonblank, (d, refl, fits, is), supported.0 valid),
      λ h. let valid = supported.1 h.2 in ground arith,
    )
  where
    decoded :
        (x : Decoded Manifest)
        → d.decoded ≡ x
        → load_manifest path (some d) ≡ ok m
        → (is_blank path ≡ false)
          × (d.size ≤ max_manifest_bytes)
          × (d.decoded ≡ value m end_of_file)
          × (validate_manifest m ≡ ok tt)
    decoded malformed e h = ground arith
    decoded (value n end_of_file) e h =
        let valid : validate_manifest n ≡ ok tt = ground arith in
        let same : n ≡ m = ground arith in
        (
          ground arith,
          ground arith,
          e ∙ ap (λ x. value x end_of_file) same,
          subst (λ x. validate_manifest x ≡ ok tt) same valid,
        )
    decoded (value n another_value) e h = ground arith
    decoded (value n garbage) e h = ground arith
