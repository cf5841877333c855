-- ===== src/Workload/Bounds.antt =====
-- internal/workload/manifest.go: exactly which batches the validation accepts.
use inoculum.Shared.{
  ℕ, ◌+◌, ◌≤◌, ◌<◌, ◌≡◌, ◌≢◌, ◌↔◌, refl, String, false, ok, List, [], ◌∷◌, GoMap, lookup, insert,
  lookup-insert, length, none, All, arith, eq_iff,
}
use inoculum.Text.{byte_length, is_blank}
use inoculum.Workload.{
  Task, check_tasks, validate_tasks, max_key_bytes, max_input_bytes, max_tasks, check_inputs,
  validate_simple_inputs,
}

-- The bounds on one task of a manifest.
pub record IsFine (t : Task) : Type 0 where
  pub named : is_blank t.key ≡ false
  pub key_short : byte_length t.key ≤ max_key_bytes
  pub some_input : 0 < byte_length t.input
  pub input_short : byte_length t.input ≤ max_input_bytes

-- No two tasks have one key.
abbrev pub DistinctKeys : List Task → Type 0
DistinctKeys [] = Unit
DistinctKeys (t ∷ ts) = All (λ u. t.key ≢ u.key) ts × DistinctKeys ts

abbrev IsNew : GoMap (Unit {0}) → Task → Type 0
IsNew keys t = lookup t.key keys ≡ none

IsNew-insert :
    (keys : GoMap (Unit {0})) (t : Task) (ts : List Task)
    → All (IsNew (insert t.key tt keys)) ts ↔ (All (IsNew keys) ts × All (λ u. t.key ≢ u.key) ts)
IsNew-insert keys t [] = (λ h. (tt, tt), λ h. tt)
IsNew-insert keys t (u ∷ us) =
    let rest = IsNew-insert keys t us in
    (
      λ h. ground (arith, lookup-insert t.key u.key tt keys, eq_iff t.key u.key, rest.0 h.1),
      λ h.
          ground
            (arith, lookup-insert t.key u.key tt keys, eq_iff t.key u.key, rest.1 (h.0.1, h.1.1)),
    )

check_tasks-cons :
    (index : ℕ) (keys : GoMap (Unit {0})) (t : Task) (ts : List Task)
    → (check_tasks index keys (t ∷ ts) ≡ ok tt)
      ↔ (IsFine t × IsNew keys t × (check_tasks (index + 1) (insert t.key tt keys) ts ≡ ok tt))
unfolding check_tasks
check_tasks-cons index keys t ts = (λ h. ground arith, λ h. ground (arith, h.0.named))

check_tasks_iff :
    (index : ℕ) (keys : GoMap (Unit {0})) (ts : List Task)
    → (check_tasks index keys ts ≡ ok tt) ↔ (All IsFine ts × DistinctKeys ts × All (IsNew keys) ts)
unfolding check_tasks
check_tasks_iff index keys [] = (λ h. (tt, tt, tt), λ h. refl)
check_tasks_iff index keys (t ∷ ts) =
    let rest = check_tasks_iff (index + 1) (insert t.key tt keys) ts in
    let new = IsNew-insert keys t ts in
    let head = check_tasks-cons index keys t ts in
    (
      λ h.
          let (fine, is_new, passes) = head.0 h in
          let (all_fine, distinct, all_new) = rest.0 passes in
          let (old, differ) = new.0 all_new in
          ((fine, all_fine), (differ, distinct), (is_new, old)),
      λ h. head.1 (h.0.0, h.2.0, rest.1 (h.0.1, h.1.1, new.1 (h.2.1, h.1.0))),
    )

All-IsNew : (ts : List Task) → All (IsNew []) ts
unfolding lookup
All-IsNew [] = tt
All-IsNew (t ∷ ts) = (refl, All-IsNew ts)

-- ValidateTasks accepts exactly the batches of 1 to 1000 tasks that keep the bounds on key and
-- input and have distinct keys.
pub validate_tasks_iff :
    (ts : List Task)
    → (validate_tasks ts ≡ ok tt)
      ↔ ((0 < length ts) × (length ts ≤ max_tasks) × All IsFine ts × DistinctKeys ts)
unfolding validate_tasks
validate_tasks_iff ts =
    let loop = check_tasks_iff 0 [] ts in
    (
      λ h.
          let passes : check_tasks 0 [] ts ≡ ok tt = ground arith in
          let (fine, distinct, _) = loop.0 passes in (ground arith, ground arith, fine, distinct),
      λ h. let passes = loop.1 (h.2, h.3, All-IsNew ts) in ground arith,
    )

check_inputs_iff :
    (index : ℕ) (inputs : List String)
    → (check_inputs index inputs ≡ ok tt) ↔ All (λ s. byte_length s ≤ max_input_bytes) inputs
unfolding check_inputs
check_inputs_iff index [] = (λ h. tt, λ h. refl)
check_inputs_iff index (s ∷ ss) =
    let rest = check_inputs_iff (index + 1) ss in
    (λ h. ground (arith, rest.0), λ h. ground (arith, rest.1 h.1))

-- ValidateSimpleInputs accepts exactly 1 to 1000 inputs within the bound; they may repeat.
pub validate_simple_inputs_iff :
    (inputs : List String)
    → (validate_simple_inputs inputs ≡ ok tt) ↔ (
        (0 < length inputs)
        × (length inputs ≤ max_tasks)
        × All (λ s. byte_length s ≤ max_input_bytes) inputs)
unfolding validate_simple_inputs
validate_simple_inputs_iff inputs =
    let loop = check_inputs_iff 0 inputs in
    (
      λ h.
          let passes : check_inputs 0 inputs ≡ ok tt = ground arith in
          (ground arith, ground arith, loop.0 passes),
      λ h. let passes = loop.1 h.2 in ground arith,
    )
