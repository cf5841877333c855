-- ===== src/Presentation/Layout/Fitting.antt =====
-- internal/presentation/layout.go: what is drawn fits the terminal.
use Prim.Native.Char.{Char}
use Prim.Native.String.{[] as empty_text, ◌∷◌ as char_then}
use text.Mathlib.TextBridge.{to_list, of_list, to_list-of_list}
use inoculum.Shared.{
  ℕ, zero, suc, sym, ap, ◌∙◌, eqb, ◌≤◌, ◌<◌, ◌≡◌, refl, String, Bool, true, false, none, some,
  Option, List, [], ◌∷◌, all, arith, ltb, length, take, length-take, if◌then◌else◌, Bool-cases, inl,
  inr,
}
use inoculum.Shared.Int.{ℤ, pos, negsuc, leb_ℤ, pos_part}
use inoculum.Monitor.Model.{CoordinatorSnapshot, WorkerSnapshot, SubmitSnapshot, JobProgress}
use inoculum.Presentation.Format.{truncate}
use inoculum.Presentation.Frame.{Frame, Span, Tone, add, fit_height}
use inoculum.Presentation.Bounds.{
  size, IsPlain, Fits, is_printable, add-Fits, fit_height-Fits, All-snoc, all-take,
}
use inoculum.Presentation.Mode.{Capabilities}
use inoculum.Presentation.Layout.{
  layout_width, draw, empty_frame, footer_of, with_line, with_footer, keys_help, blank_row, row,
}
use inoculum.Presentation.Layout.Coordinator.{coordinator_frame, draw_job}
use inoculum.Presentation.Layout.Worker.{worker_frame}
use inoculum.Presentation.Layout.Submit.{submit_frame}

draw-Fits :
    (width : ℕ) (rows : List (List Span)) (f : Frame)
    → 0 < width
    → Fits width f
    → Fits width (draw width rows f)
unfolding draw
draw-Fits width [] f wide fits = fits
draw-Fits width (spans ∷ rows) f wide fits =
    draw-Fits width rows (add (pos width) spans f) wide (add-Fits width spans f wide fits).0

-- The characters of a text, as a list that computes.
chars : String → List Char
chars empty_text = []
chars (char_then c s) = c ∷ chars s

of_list-chars : (s : String) → of_list (chars s) ≡ s
unfolding chars
of_list-chars empty_text = refl
of_list-chars (char_then c s) = ap (char_then c) (of_list-chars s)

to_list-chars : (s : String) → to_list s ≡ chars s
to_list-chars s = ap to_list (sym (of_list-chars s)) ∙ to_list-of_list (chars s)

printable : (s : String) → all is_printable (chars s) ≡ true → all is_printable (to_list s) ≡ true
printable s h = ap (all is_printable) (to_list-chars s) ∙ h

-- A line that fits the width, without control characters.
LineFits : ℕ → List Span → Type 0
LineFits width line = (size line ≤ width) × IsPlain line

-- A footer without control characters, cut to the width.
footer_of-LineFits :
    (width : ℕ) (text : String)
    → 0 < width
    → all is_printable (chars text) ≡ true
    → LineFits width (footer_of width text)
unfolding truncate LineFits
footer_of-LineFits width text wide plain =
    let open_width : leb_ℤ (pos width) (pos 0) ≡ false = ground arith in
    let runes = to_list text in
    rw open_width (elim (Bool-cases (ltb width (length runes))) [
      | inl long ↦ rw long (
          rw (to_list-of_list (take width runes)) (
            omega (arith, length-take width runes),
            (all-take is_printable width runes (printable text plain), tt),
          ))
      | inr short ↦
          rw short (rw (to_list-of_list runes) (ground (arith, short), (printable text plain, tt)))
    ])

layout_width-positive : (width : ℤ) → 0 < layout_width width
layout_width-positive (pos n) = ground arith
layout_width-positive (negsuc n) = ground arith

-- A frame fits its width, and its height if that is positive.
abbrev pub FitsIn : ℕ → ℤ → Frame → Type 0
FitsIn width height f = Fits width f × (0 < pos_part height → length f.lines ≤ pos_part height)

fit_height-FitsIn :
    (width : ℕ) (height : ℤ) (footer : List Span) (f : Frame)
    → LineFits width footer
    → Fits width f
    → FitsIn width height (fit_height height footer f)
unfolding LineFits fit_height
fit_height-FitsIn width (negsuc n) footer f below fits =
    let shut : leb_ℤ (negsuc n) (pos 0) ≡ true = ground arith in
    rw shut (fits, λ h. absurd (ground (arith, h)))
fit_height-FitsIn width (pos zero) footer f below fits = (fits, λ h. absurd (ground (arith, h)))
fit_height-FitsIn width (pos (suc n)) footer f below fits =
    let (all_fit, short, _) = fit_height-Fits (suc n) width footer f (ground arith) fits below in
    (all_fit, λ _. short)

with_footer-FitsIn :
    (width : ℕ) (height : ℤ) (text : String) (f : Frame)
    → 0 < width
    → all is_printable (chars text) ≡ true
    → Fits width f
    → FitsIn width height (with_footer width height text f)
unfolding LineFits
with_footer-FitsIn width height text f wide plain fits =
    let below = footer_of-LineFits width text wide plain in
    let drawn = draw width (blank_row ∷ []) f in
    fit_height-FitsIn width height (footer_of width text) (with_line (footer_of width text) drawn)
      below
      (All-snoc _ drawn.lines (footer_of width text) (draw-Fits width (blank_row ∷ []) f wide fits)
        below)

draw_job-Fits :
    (width : ℕ) (height : ℤ) (caps : Capabilities) (total : ℕ) (job : Option JobProgress)
    (f : Frame)
    → 0 < width
    → Fits width f
    → Fits width (draw_job width height caps total job f)
draw_job-Fits width height caps total (some job) f wide fits =
    draw-Fits width _ _ wide (draw-Fits width _ f wide fits)
draw_job-Fits width height caps total none f wide fits = by_total (eqb total 0)
  where
    by_total :
        (idle : Bool)
        → Fits width
            (if idle then draw width (blank_row ∷ row Tone.muted "No jobs yet." ∷ []) f else f)
    by_total true = draw-Fits width (blank_row ∷ row Tone.muted "No jobs yet." ∷ []) f wide fits
    by_total false = fits

coordinator_frame-FitsIn :
    (snapshot : CoordinatorSnapshot) (width height : ℤ) (caps : Capabilities)
    → FitsIn (layout_width width) height (coordinator_frame snapshot width height caps)
unfolding coordinator_frame chars
coordinator_frame-FitsIn snapshot width height caps =
    let wide = layout_width-positive width in
    with_footer-FitsIn (layout_width width) height keys_help _ wide refl (
      draw_job-Fits (layout_width width) height caps snapshot.tasks.total snapshot.current_job _
        wide (draw-Fits (layout_width width) _ empty_frame wide tt))

worker_frame-FitsIn :
    (clock : ℕ) (snapshot : WorkerSnapshot) (width height : ℤ) (caps : Capabilities)
    → FitsIn (layout_width width) height (worker_frame clock snapshot width height caps)
unfolding worker_frame chars
worker_frame-FitsIn clock snapshot width height caps =
    let wide = layout_width-positive width in
    with_footer-FitsIn (layout_width width) height keys_help _ wide refl
      (draw-Fits (layout_width width) _ empty_frame wide tt)

submit_frame-FitsIn :
    (snapshot : SubmitSnapshot) (width height : ℤ) (caps : Capabilities)
    → FitsIn (layout_width width) height (submit_frame snapshot width height caps)
unfolding submit_frame chars LineFits
submit_frame-FitsIn snapshot width height caps =
    let w = layout_width width in
    let wide = layout_width-positive width in
    elim (Bool-cases snapshot.submitted) [
      | inl taken ↦ rw taken (
          with_footer-FitsIn w height "Ctrl+C stops waiting; the coordinator job continues." _ wide
            refl (draw-Fits w _ empty_frame wide tt))
      | inr waiting ↦
          rw waiting
            (fit_height-FitsIn w height [] _ (ground arith, tt) (draw-Fits w _ empty_frame wide tt))
    ]

-- Whatever the snapshots hold, the frames of the coordinator, the worker and the submit command fit
-- the terminal: no line is longer than the width, which counts as 20 where it is less, no line has a
-- control character, and there are no more lines than a positive height.
pub frames-FitsIn :
    (c : CoordinatorSnapshot) (w : WorkerSnapshot) (s : SubmitSnapshot) (clock : ℕ)
    → (width height : ℤ) (caps : Capabilities)
    → FitsIn (layout_width width) height (coordinator_frame c width height caps)
      × FitsIn (layout_width width) height (worker_frame clock w width height caps)
      × FitsIn (layout_width width) height (submit_frame s width height caps)
frames-FitsIn c w s clock width height caps = (
  coordinator_frame-FitsIn c width height caps,
  worker_frame-FitsIn clock w width height caps,
  submit_frame-FitsIn s width height caps,
)
