-- ===== src/Presentation/Examples.antt =====
-- Texts from outside, and a narrow frame.
use text.Mathlib.TextBridge.{to_list}
use inoculum.Shared.{◌≡◌, true, [], ◌∷◌, all}
use inoculum.Presentation.Format.{safe_text}
use inoculum.Presentation.Frame.{Frame, Span, Tone}
use inoculum.Presentation.Bounds.{is_printable, safe_text_lem}

safe_text_lem_example :
    (all is_printable (to_list (safe_text "a\nb")) ≡ true)
    × (safe_text (safe_text "a\nb") ≡ safe_text "a\nb")
safe_text_lem_example = safe_text_lem "a\nb"

abbrev empty_frame : Frame
empty_frame = record { lines = [] }

abbrev title : Span
title = record { text = "coordinator"; tone = Tone.heading }

abbrev three_lines : Frame
three_lines = record { lines = [] ∷ [] ∷ [] ∷ [] }
