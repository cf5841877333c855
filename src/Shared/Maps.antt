-- ===== src/Shared/Maps.antt =====
-- Go's `map[string]V` as an association list in which a key stands once.
use Prim.Native.String.{String}
use text.Mathlib.Text.{◌==◌}
use text.Mathlib.TextEquality.{eq_iff}
use mathlib.Core.Path.{◌≡◌, refl}
use mathlib.Core.Logic.{inl, inr}
use mathlib.Core.List.{List, [], ◌∷◌, map}
use mathlib.Core.Option.{Option, none, some}
use native.Mathlib.Omega.{arith}
use inoculum.Shared.Lists.{All}
use text.Mathlib.TextPositions.{eq_refl}
use inoculum.Shared.Tests.{if◌then◌else◌, Bool-cases}

abbrev pub GoMap {ℓ} : Type ℓ → Type ℓ
GoMap V = List (String × V)

module _ {ℓ} {V : Type ℓ} where
  -- value, ok := held[key]
  unfoldable pub lookup : String → GoMap V → Option V
  lookup key [] = none
  lookup key (entry ∷ held) =
      let later = lookup key held in if entry.0 == key then some entry.1 else later

  -- held[key] = value: a key that is there keeps its place
  unfoldable pub insert : String → V → GoMap V → GoMap V
  insert key value [] = (key, value) ∷ []
  insert key value (entry ∷ held) =
      let later = insert key value held in
      if entry.0 == key then (entry.0, value) ∷ held else entry ∷ later

  -- delete(held, key)
  pub delete : String → GoMap V → GoMap V
  delete key [] = []
  delete key (entry ∷ held) =
      let rest = delete key held in if entry.0 == key then rest else entry ∷ rest

  pub lookup-insert :
      (written read : String) (value : V) (held : GoMap V)
      → lookup read (insert written value held)
        ≡ (if written == read then some value else lookup read held)
  unfolding insert lookup
  lookup-insert written read value [] = refl
  lookup-insert written read value (entry ∷ held) =
      let later = lookup-insert written read value held in
      let same = eq_iff entry.0 in
      ground (later, same written, same read, eq_iff written read, arith)

  pub lookup-delete :
      (gone read : String) (held : GoMap V)
      → lookup read (delete gone held) ≡ (if gone == read then none else lookup read held)
  unfolding delete lookup
  lookup-delete gone read [] = ground arith
  lookup-delete gone read (entry ∷ held) =
      let later = lookup-delete gone read held in
      let same = eq_iff entry.0 in ground (later, same gone, same read, eq_iff gone read, arith)

  -- Each key stands once.
  abbrev pub Distinct : GoMap V → Type ℓ
  Distinct [] = Unit
  Distinct (entry ∷ held) = (lookup entry.0 held ≡ none) × Distinct held

  pub insert-Distinct :
      (key : String) (value : V) (held : GoMap V) → Distinct held → Distinct (insert key value held)
  unfolding insert lookup
  insert-Distinct key value [] d = (refl, tt)
  insert-Distinct key value (entry ∷ held) d = elim (Bool-cases (entry.0 == key)) [
    | inl same ↦ rw same d
    | inr other ↦
        let new : lookup entry.0 (insert key value held) ≡ none =
          ground
            (arith, lookup-insert key entry.0 value held, eq_iff key entry.0, eq_iff entry.0 key) in
        rw other (new, insert-Distinct key value held d.1)
  ]

  -- What holds wherever a key is looked up holds of every value.
  pub values-All {κ} :
      (Holds : V → Type κ) (held : GoMap V)
      → Distinct held
      → ((key : String) (value : V) → lookup key held ≡ some value → Holds value)
      → All Holds (map (λ entry. entry.1) held)
  unfolding lookup
  values-All Holds [] d h = tt
  values-All Holds (entry ∷ held) d h = (
    h entry.0 entry.1 (rw (eq_refl entry.0) refl),
    values-All Holds held d.1 (λ key value found. h key value (behind key value found)),
  )
    where
      behind :
          (key : String) (value : V)
          → lookup key held ≡ some value
          → lookup key (entry ∷ held) ≡ some value
      behind key value found = elim (Bool-cases (entry.0 == key)) [
        | inl same ↦ ground (arith, eq_iff entry.0 key, d.0)
        | inr other ↦ rw other found
      ]
