-- ===== src/Presentation/Frame.antt =====
-- internal/presentation/frame.go: a frame of lines that fit the terminal.
use Prim.Native.Char.{Char}
use text.Mathlib.TextBridge.{to_list, of_list}
use Prim.Native.String.{◌++◌ as concat}
use inoculum.Shared.{
  map, ℕ, ◌-◌, String, List, [], ◌∷◌, ◌++◌, ltb, leb, eqb, if◌then◌else◌, length, take,
}
use inoculum.Shared.Int.{ℤ, pos, pos_part, leb_ℤ}
use inoculum.Presentation.Format.{safe_text}

pub data Tone : Type 0 where
  normal muted healthy waiting failure heading : Tone

pub record Span : Type 0 where
  pub text : String
  pub tone : Tone

pub record Frame : Type 0 where
  pub lines : List (List Span)

-- runes[:remaining] where there are more
abbrev pub cut : ℕ → List Char → List Char
cut remaining runes = if ltb remaining (length runes) then take remaining runes else runes

-- The loop of Add.
unfoldable pub add_spans : ℕ → List Span → List Span
add_spans remaining [] = []
add_spans remaining (span ∷ spans) =
    let runes = cut remaining (to_list (safe_text span.text)) in
    let rest = add_spans (remaining - length runes) spans in
    let line =
      if ltb 0 (length runes)
      then (record { text = of_list runes; tone = span.tone }) ∷ rest
      else rest in
    if eqb remaining 0 then [] else line

unfoldable pub add : ℤ → List Span → Frame → Frame
add width spans f =
    if leb_ℤ width (pos 0)
    then f
    else record { lines = f.lines ++ add_spans (pos_part width) spans ∷ [] }

pub blank : ℤ → Frame → Frame
blank width f = add width ((record { text = ""; tone = Tone.normal }) ∷ []) f

unfoldable pub fit_height : ℤ → List Span → Frame → Frame
fit_height height footer f =
    if leb_ℤ height (pos 0)
    then f
    else if leb (length f.lines) (pos_part height)
    then f
    else if eqb (pos_part height) 1
    then record { lines = footer ∷ [] }
    else record { lines = take (pos_part height - 1) f.lines ++ footer ∷ [] }

-- The texts of a line, one behind the other.
abbrev pub line_text : List Span → String
line_text [] = ""
line_text (span ∷ spans) = concat span.text (line_text spans)

pub plain_lines : Frame → List String
plain_lines f = map line_text f.lines
