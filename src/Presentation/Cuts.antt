-- ===== src/Presentation/Cuts.antt =====
-- internal/presentation/format.go: the length of a progress bar, and the lines of a wrapped text.
use Prim.Native.Char.{Char, char}
use text.Mathlib.TextBridge.{to_list, of_list, to_list-of_list}
use text.Mathlib.TextEquality.{eq_iff}
use native.Mathlib.Nat.{div-le_of_le-mul, mul-le-mul_right}
use inoculum.Shared.{
  ℕ, zero, suc, sym, ◌-◌, ◌*◌, ◌/◌, ◌≤◌, ◌<◌, ◌≡◌, refl, ap, ◌∙◌, String, Bool, false, List, [],
  ◌∷◌, ◌++◌, map, All, arith, ltb, length, take, drop, length-append, length-take, length-drop,
  if◌then◌else◌, Bool-cases, inl, inr, ◌==◌,
}
use inoculum.Shared.Int.{ℤ, pos, pos_part, leb_ℤ, ltb_ℤ}
use inoculum.Presentation.Format.{repeat, filled, progress_bar, wrap_runes, wrap}

length-repeat : (n : ℕ) (c : Char) → length (repeat n c) ≡ n
length-repeat zero c = refl
length-repeat (suc n) c = ap suc (length-repeat n c)

part-le : (done total width : ℕ) → done ≤ total → done * width / total ≤ width
part-le done total width h = div-le_of_le-mul total (mul-le-mul_right width h)

-- What is done is at most the total that the bar divides by.
filled-le : (done total : ℤ) (width : ℕ) → filled done total width ≤ width
unfolding filled
filled-le done total width =
    let total' = if leb_ℤ total (pos 0) then 1 else pos_part total in
    elim (Bool-cases (ltb total' (pos_part done))) [
      | inl over ↦ rw over (part-le total' total' width (omega arith))
      | inr within ↦ rw within (part-le (pos_part done) total' width (ground arith))
    ]

-- A bar of at least four columns has as many runes as it has columns, whatever the numbers of done
-- and of all tasks are, negative ones included.
pub progress_bar_lem :
    (done total : ℤ) (width : ℕ) (unicode : Bool)
    → 4 ≤ width
    → length (to_list (progress_bar done total (pos width) unicode)) ≡ width
unfolding progress_bar
progress_bar_lem done total width unicode wide =
    let fits = filled-le done total width in
    let open_width : ltb_ℤ (pos width) (pos 4) ≡ false = ground arith in
    let n = filled done total width in
    let full = if unicode then char 0x2588 tt else char 35 tt in
    let empty = if unicode then char 0x2591 tt else char 45 tt in
    let a = length-repeat n full in
    let b = length-repeat (width - n) empty in
    let both = length-append (repeat n full) (repeat (width - n) empty) in
    let back = to_list-of_list (repeat n full ++ repeat (width - n) empty) in
    rw open_width (rw back (omega (arith, fits, a, b, both)))

-- The lines, one behind the other.
abbrev pub joined : List (List Char) → List Char
joined [] = []
joined (line ∷ lines) = line ++ joined lines

take-drop : (n : ℕ) (cs : List Char) → take n cs ++ drop n cs ≡ cs
take-drop zero cs = refl
take-drop (suc n) [] = refl
take-drop (suc n) (c ∷ cs) = ap (λ ds. c ∷ ds) (take-drop n cs)

-- A line that Wrap cuts: neither empty nor wider than the width.
abbrev pub IsLine : ℕ → List Char → Type 0
IsLine width line = (0 < length line) × (length line ≤ width)

wrap_runes_lem :
    (width fuel : ℕ) (cs : List Char)
    → 0 < width
    → length cs ≤ fuel
    → (joined (wrap_runes width fuel cs) ≡ cs) × All (IsLine width) (wrap_runes width fuel cs)
unfolding wrap_runes
wrap_runes_lem width fuel [] wide enough = (refl, tt)
wrap_runes_lem width zero (c ∷ cs) wide enough = ground arith
wrap_runes_lem width (suc fuel) (c ∷ cs) wide enough =
    let kept = length-take width (c ∷ cs) in
    let left = length-drop width (c ∷ cs) in
    let (whole, lines) =
      wrap_runes_lem width fuel (drop width (c ∷ cs)) wide (omega (arith, left)) in
    (
      ap (λ ds. take width (c ∷ cs) ++ ds) whole ∙ take-drop width (c ∷ cs),
      ((omega (arith, kept), omega (arith, kept)), lines),
    )

-- The lines that `of_list` makes texts of, read again.
texts_of : (lines : List (List Char)) → map to_list (map of_list lines) ≡ lines
texts_of [] = refl
texts_of (line ∷ lines) = rw (to_list-of_list line) (ap (λ ds. line ∷ ds) (texts_of lines))

-- Wrap cuts a text into lines that are neither empty nor wider than the width, and which are the
-- text when they are put together again.
pub wrap_lem :
    (text : String) (width : ℕ)
    → 0 < width
    → (joined (map to_list (wrap text (pos width))) ≡ to_list text)
      × All (IsLine width) (map to_list (wrap text (pos width)))
unfolding wrap
wrap_lem text width wide =
    let runes = to_list text in
    let lines = wrap_runes_lem width (length runes) runes wide (omega arith) in
    let open_width : leb_ℤ (pos width) (pos 0) ≡ false = ground arith in
    elim (Bool-cases (text == "")) [
      | inl empty ↦
          let blank : text ≡ "" = (eq_iff text "").0 empty in
          rw blank (rw open_width (sym (to_list-of_list []), tt))
      | inr full ↦
          rw (open_width, full) (rw (texts_of (wrap_runes width (length runes) runes)) lines)
    ]
