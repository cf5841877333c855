-- ===== src/Shared/Sorting.antt =====
-- sort.Slice by a text: the order that it gives where no two keys are the same.
use Prim.Native.Nat.{suc}
use Prim.Native.String.{String, compare}
use text.Mathlib.Text.{is_lt}
use mathlib.Core.Path.{◌≡◌, refl, ap, ◌∙◌}
use mathlib.Core.Logic.{inl, inr}
use mathlib.Core.List.{List, [], ◌∷◌}
use mathlib.Core.Bool.{Bool}
use native.Mathlib.Omega.{arith}
use inoculum.Shared.Tests.{if◌then◌else◌, Bool-cases}
use inoculum.Shared.Lists.{length, All}

-- a < b
abbrev pub text_less : String → String → Bool
text_less a b = is_lt (compare a b)

module _ {ℓ} {A : Type ℓ} (key : A → String) where
  put : A → List A → List A
  put x [] = x ∷ []
  put x (y ∷ ys) = let rest = put x ys in if text_less (key x) (key y) then x ∷ y ∷ ys else y ∷ rest

  pub sort_by : List A → List A
  sort_by [] = []
  sort_by (x ∷ xs) = put x (sort_by xs)

  length-put : (x : A) (ys : List A) → length (put x ys) ≡ suc (length ys)
  unfolding put
  length-put x [] = refl
  length-put x (y ∷ ys) = ground (arith, length-put x ys)

  pub length-sort_by : (xs : List A) → length (sort_by xs) ≡ length xs
  unfolding sort_by
  length-sort_by [] = refl
  length-sort_by (x ∷ xs) = length-put x (sort_by xs) ∙ ap suc (length-sort_by xs)

  All-put {κ} : (P : A → Type κ) (x : A) (ys : List A) → P x → All P ys → All P (put x ys)
  unfolding put
  All-put P x [] h hs = (h, tt)
  All-put P x (y ∷ ys) h hs = elim (Bool-cases (text_less (key x) (key y))) [
    | inl less ↦ rw less (h, hs)
    | inr more ↦ rw more (hs.0, All-put P x ys h hs.1)
  ]

  -- What holds of each element holds of each element of the sorted list.
  pub All-sort_by {κ} : (P : A → Type κ) (xs : List A) → All P xs → All P (sort_by xs)
  unfolding sort_by
  All-sort_by P [] hs = tt
  All-sort_by P (x ∷ xs) hs = All-put P x (sort_by xs) hs.0 (All-sort_by P xs hs.1)
