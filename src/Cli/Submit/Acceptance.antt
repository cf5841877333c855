-- ===== src/Cli/Submit/Acceptance.antt =====
-- internal/cli/submit.go and internal/coordinator/pull.go: the coordinator takes what the client lets pass.
use inoculum.Shared.{
  ℕ, ◌≤◌, ◌<◌, ◌≡◌, refl, sym, ap, subst, ◌∙◌, String, ◌==◌, Bool, true, false, ◌&&◌, not, ltb,
  Option, none, some, List, [], ◌∷◌, map, length, All, zero, suc, if◌then◌else◌, Result as Fallible,
  ok, err, arith, passed, ok_inj,
}
use inoculum.Shared.Int.{ℤ, pos, negsuc, pos_part, leb_ℤ, ltb_ℤ}
use inoculum.Shared.Json.{Document}
use inoculum.Text.{byte_length}
use inoculum.Types.Wire.{PullSubmitRequest}
use inoculum.Workload.{
  Task, Manifest, WorkloadError, max_tasks, max_input_bytes, validate_task_type, validate_tasks,
  validate_simple_inputs, load_manifest, http_probe_type,
}
use inoculum.Workload.Bounds.{validate_tasks_iff, validate_simple_inputs_iff}
use inoculum.Workload.Loading.{load_manifest_iff, IsSupported, probe-valid}
use inoculum.Coordinator.Http.{Message, text}
use inoculum.Coordinator.Submit.{batch, keyed, unkeyed}
use inoculum.Cli.Output.{Stat, OutputPathError, validate_result_output_path}
use inoculum.Cli.Submit.{
  SubmitOptions, SubmitError, Surroundings, unless_excluded, parse_submit_options, with_manifest,
  unless_bad_type, check_workload, unless_bad_output, check_output, with_token, prepare,
  submit_task, repeated, request_for, submit_request, ◌>>=◌,
}

-- The coordinator takes the request, as a batch of this many tasks.
pub record Taken (request : PullSubmitRequest) (count : ℤ) : Type 0 where
  pub tasks : List Task
  pub taken : batch request ≡ ok tasks
  pub size : pos (length tasks) ≡ count

length-repeated : (n : ℕ) (input : String) → length (repeated n input) ≡ n
length-repeated zero input = refl
length-repeated (suc n) input = ap suc (length-repeated n input)

All-repeated :
    (n : ℕ) (input : String)
    → byte_length input ≤ max_input_bytes
    → All (λ s. byte_length s ≤ max_input_bytes) (repeated n input)
All-repeated zero input h = tt
All-repeated (suc n) input h = (h, All-repeated n input h)

length-map : {A B : Type 0} (f : A → B) (l : List A) → length (map f l) ≡ length l
length-map f [] = refl
length-map f (a ∷ l) = ap suc (length-map f l)

keyed_again : (tasks : List Task) → map keyed (map submit_task tasks) ≡ tasks
keyed_again [] = refl
keyed_again (t ∷ ts) = ap (λ l. t ∷ l) (keyed_again ts)

batch-simple :
    (task_type input : String) (n : ℕ)
    → validate_task_type task_type ≡ ok tt
    → 0 < n
    → n ≤ max_tasks
    → byte_length input ≤ max_input_bytes
    → batch (request_for task_type input n none) ≡ ok (map unkeyed (repeated n input))
unfolding batch
batch-simple task_type input n typed some_tasks few short =
    let size = length-repeated n input in
    let valid : validate_simple_inputs (repeated n input) ≡ ok tt =
      (validate_simple_inputs_iff (repeated n input)).1
        (omega (arith, size), omega (arith, size), All-repeated n input short) in
    rw typed (rw valid (without_keyed (ltb 0 (length (repeated n input)))))
  where
    taken : Fallible Message (List Task)
    taken = ok (map unkeyed (repeated n input))

    without_keyed :
        (some_inputs : Bool)
        → (if some_inputs && false
            then err (text "inputs and keyed tasks cannot be combined")
            else taken)
          ≡ taken
    without_keyed true = refl
    without_keyed false = refl

batch-keyed :
    (ts : List Task)
    → validate_tasks ts ≡ ok tt
    → ltb 0 (length ts) ≡ true
    → batch (record { task_type = http_probe_type; inputs = []; tasks = map submit_task ts })
      ≡ ok ts
unfolding batch
batch-keyed ts valid some_tasks =
    let there : ltb 0 (length (map submit_task ts)) ≡ true =
      ap (ltb 0) (length-map submit_task ts) ∙ some_tasks in
    rw probe-valid (rw there (rw (keyed_again ts) (rw valid refl)))

batch-manifest :
    (input : String) (n : ℕ) (m : Manifest)
    → IsSupported m
    → batch (request_for m.type input n (some m)) ≡ ok m.tasks
batch-manifest input n m supported =
    let valid =
      (validate_tasks_iff m.tasks).1
        (supported.some_tasks, supported.few_tasks, supported.fine, supported.distinct) in
    let some_tasks : ltb 0 (length m.tasks) ≡ true = ground (arith, supported.some_tasks) in
    subst
      (λ type.
        batch (record { task_type = type; inputs = []; tasks = map submit_task m.tasks })
        ≡ ok m.tasks)
      (sym supported.type) (batch-keyed m.tasks valid some_tasks)

-- What an early return leaves where it is not taken.
with_manifest-Taken :
    (o o' : SubmitOptions) (file : Option (Document Manifest))
    (loaded : Fallible WorkloadError Manifest)
    → load_manifest o.manifest_path file ≡ loaded
    → with_manifest o loaded ≡ ok o'
    → Taken (submit_request o') o'.task_count
with_manifest-Taken o o' file (err e) is h = absurd (ground (arith, h))
with_manifest-Taken o o' file (ok m) is h =
    subst (λ x. Taken (submit_request x) x.task_count) (ok_inj h)
      (record {
        tasks = m.tasks;
        taken =
            batch-manifest o.input (length m.tasks) m
              ((load_manifest_iff o.manifest_path file m).0 is).2;
        size = refl;
      })

typed_then :
    (r : Fallible WorkloadError (Unit {0})) (rest : Fallible SubmitError SubmitOptions)
    {o : SubmitOptions}
    → unless_bad_type r rest ≡ ok o
    → (r ≡ ok tt) × (rest ≡ ok o)
typed_then (err e) rest h = absurd (ground (arith, h))
typed_then (ok _) rest h = (refl, h)

simple-Taken :
    (o : SubmitOptions) (count : ℤ)
    → o.manifest ≡ none
    → o.task_count ≡ count
    → leb_ℤ count (pos 0) ≡ false
    → ltb_ℤ (pos max_tasks) count ≡ false
    → validate_task_type o.task_type ≡ ok tt
    → ltb max_input_bytes (byte_length o.input) ≡ false
    → Taken (submit_request o) o.task_count
simple-Taken o (negsuc n) bare is positive few typed short = absurd (ground (arith, positive))
simple-Taken o (pos n) bare is positive few typed short =
    let at =
      batch-simple o.task_type o.input n typed (ground (arith, positive)) (ground (arith, few))
        (ground (arith, short)) in
    record {
      tasks = map unkeyed (repeated n o.input);
      taken =
          subst
            (λ m.
              batch (request_for o.task_type o.input (pos_part o.task_count) m)
              ≡ ok (map unkeyed (repeated n o.input)))
            (sym bare)
            (subst
              (λ c.
                batch (request_for o.task_type o.input (pos_part c) none)
                ≡ ok (map unkeyed (repeated n o.input)))
              (sym is) at);
      size = ap pos (length-map unkeyed (repeated n o.input) ∙ length-repeated n o.input) ∙ sym is;
    }

check_workload-Taken :
    (o o' : SubmitOptions) (file : Option (Document Manifest))
    → o.manifest ≡ none
    → check_workload o file ≡ ok o'
    → Taken (submit_request o') o'.task_count
unfolding check_workload
check_workload-Taken o o' file bare h = by_path (not (o.manifest_path == "")) h
  where
    by_flags : Fallible SubmitError SubmitOptions
    by_flags =
        if leb_ℤ o.task_count (pos 0)
        then err SubmitError.tasks_not_positive
        else if ltb_ℤ (pos max_tasks) o.task_count
        then err SubmitError.too_many_tasks
        else unless_bad_type (validate_task_type o.task_type) (
            if ltb max_input_bytes (byte_length o.input)
            then err SubmitError.input_too_long
            else ok o)

    by_path :
        (from_file : Bool)
        → (if from_file then with_manifest o (load_manifest o.manifest_path file) else by_flags)
          ≡ ok o'
        → Taken (submit_request o') o'.task_count
    by_path true h = with_manifest-Taken o o' file (load_manifest o.manifest_path file) refl h
    by_path false h =
        let (positive, h₁) = passed (leb_ℤ o.task_count (pos 0)) _ _ h in
        let (few, h₂) = passed (ltb_ℤ (pos max_tasks) o.task_count) _ _ h₁ in
        let (typed, h₃) = typed_then (validate_task_type o.task_type) _ h₂ in
        let (short, h₄) = passed (ltb max_input_bytes (byte_length o.input)) _ _ h₃ in
        subst (λ x. Taken (submit_request x) x.task_count) (ok_inj h₄)
          (simple-Taken o o.task_count bare refl positive few typed short)

unless_excluded-ok :
    (name : Option String) (rest : Fallible SubmitError SubmitOptions) {o : SubmitOptions}
    → unless_excluded name rest ≡ ok o
    → rest ≡ ok o
unless_excluded-ok (some name) rest h = absurd (ground (arith, h))
unless_excluded-ok none rest h = h

parse_submit_options-same :
    (visited : String → Bool) (o o' : SubmitOptions)
    → parse_submit_options visited o ≡ ok o'
    → o ≡ o'
unfolding parse_submit_options
parse_submit_options-same visited o o' h =
    let (_, h₁) = passed (visited "manifest" && o.manifest_path == "") _ _ h in
    let h₂ = unless_excluded-ok _ _ h₁ in
    let (_, h₃) = passed (visited "output" && o.output_path == "") _ _ h₂ in
    let (_, h₄) = passed (not (o.output_path == "") && o.manifest_path == "") _ _ h₃ in ok_inj h₄

check_output-same :
    (target parent : Stat) (o o' : SubmitOptions) → check_output target parent o ≡ ok o' → o ≡ o'
check_output-same target parent o o' h =
    by_path (o.output_path == "") (validate_result_output_path o.output_path target parent) h
  where
    by_path :
        (silent : Bool) (checked : Fallible OutputPathError (Unit {0}))
        → (if silent then ok o else unless_bad_output checked (ok o)) ≡ ok o'
        → o ≡ o'
    by_path true checked h = ok_inj h
    by_path false (err e) h = absurd (ground (arith, h))
    by_path false (ok _) h = ok_inj h

with_token-same :
    (o : SubmitOptions) (token : Fallible SubmitError String) (o' : SubmitOptions) (t : String)
    → with_token o token ≡ ok (o', t)
    → o ≡ o'
with_token-same o (err e) o' t h = absurd (ground (arith, h))
with_token-same o (ok token) o' t h = ap (λ p. p.0) (ok_inj h)

bound :
    {A B : Type 0} (m : Fallible SubmitError A) (next : A → Fallible SubmitError B) {b : B}
    → (m >>= next) ≡ ok b
    → (a : A) × (m ≡ ok a) × (next a ≡ ok b)
unfolding ◌>>=◌
bound (err e) next h = absurd (ground (arith, h))
bound (ok a) next h = (a, refl, h)

-- Whatever the flags, the manifest's file and the environment are: if the checks of the submit
-- command let its options pass, the coordinator's checks of the batch take the request that it
-- sends, and the batch has as many tasks as the options say.
pub prepare-Taken :
    (w : Surroundings) (flags : SubmitOptions) (o : SubmitOptions) (token : String)
    → flags.manifest ≡ none
    → prepare w flags ≡ ok (o, token)
    → Taken (submit_request o) o.task_count
unfolding prepare
prepare-Taken w flags o token bare h =
    let (o₁, parsed, h₁) = bound (parse_submit_options w.visited flags) _ h in
    let (o₂, checked, h₂) = bound (check_workload o₁ w.manifest_file) _ h₁ in
    let (o₃, written, h₃) = bound (check_output w.target w.parent o₂) _ h₂ in
    let same =
      check_output-same w.target w.parent o₂ o₃ written ∙ with_token-same o₃ _ o token h₃ in
    let bare₁ =
      ap (λ x. x.manifest) (sym (parse_submit_options-same w.visited flags o₁ parsed)) ∙ bare in
    subst (λ x. Taken (submit_request x) x.task_count) same
      (check_workload-Taken o₁ o₂ w.manifest_file bare₁ checked)
