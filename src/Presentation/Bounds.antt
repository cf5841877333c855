-- ===== src/Presentation/Bounds.antt =====
-- internal/presentation/format.go and frame.go: what is drawn is safe, and fits.
use Prim.Native.Char.{Char, char, code}
use text.Mathlib.TextBridge.{to_list, of_list, to_list-of_list}
use inoculum.Shared.{
  ℕ, zero, suc, ◌+◌, ◌-◌, ◌/◌, ◌%◌, ◌≤◌, ◌<◌, ◌≡◌, refl, ap, String, Bool, true, false, ◌||◌, not,
  List, [], ◌∷◌, ◌++◌, all, All, arith, ltb, leb, eqb, length, take, length-take, length-append,
  min, if◌then◌else◌, Bool-cases, inl, inr,
}
use inoculum.Shared.Int.{pos, leb_ℤ}
use inoculum.Text.{is_control}
use inoculum.Text.Decimal.{digit}
use inoculum.Presentation.Format.{hex, hex_letter, mark, escape, safe_runes, safe_text}
use inoculum.Presentation.Frame.{Frame, Span, cut, add_spans, add, fit_height}

abbrev pub is_printable : Char → Bool
is_printable c = not (is_control (code c))

digit-printable : (d : ℕ) → is_printable (digit d) ≡ true
digit-printable zero = refl
digit-printable (suc zero) = refl
digit-printable (suc (suc zero)) = refl
digit-printable (suc (suc (suc zero))) = refl
digit-printable (suc (suc (suc (suc zero)))) = refl
digit-printable (suc (suc (suc (suc (suc zero))))) = refl
digit-printable (suc (suc (suc (suc (suc (suc zero)))))) = refl
digit-printable (suc (suc (suc (suc (suc (suc (suc zero))))))) = refl
digit-printable (suc (suc (suc (suc (suc (suc (suc (suc zero)))))))) = refl
digit-printable (suc (suc (suc (suc (suc (suc (suc (suc (suc d))))))))) = refl

letter-printable : (d : ℕ) → is_printable (hex_letter d) ≡ true
letter-printable zero = refl
letter-printable (suc zero) = refl
letter-printable (suc (suc zero)) = refl
letter-printable (suc (suc (suc zero))) = refl
letter-printable (suc (suc (suc (suc zero)))) = refl
letter-printable (suc (suc (suc (suc (suc d))))) = refl

hex-printable : (d : ℕ) → is_printable (hex d) ≡ true
unfolding hex
hex-printable d = elim (Bool-cases (ltb d 10)) [
  | inl low ↦ rw low (digit-printable d)
  | inr high ↦ rw high (letter-printable (d - 10))
]

module _ {A : Type 0} (p : A → Bool) where
  choose :
      (b : Bool) (xs ys : List A)
      → all p xs ≡ true
      → all p ys ≡ true
      → all p (if b then xs else ys) ≡ true
  choose true xs ys h k = h
  choose false xs ys h k = k

  all-append : (xs ys : List A) → all p xs ≡ true → all p ys ≡ true → all p (xs ++ ys) ≡ true
  all-append [] ys h k = k
  all-append (x ∷ xs) ys h k = ground (arith, all-append xs ys)

  pub all-take : (n : ℕ) (xs : List A) → all p xs ≡ true → all p (take n xs) ≡ true
  all-take zero xs h = refl
  all-take (suc n) [] h = refl
  all-take (suc n) (x ∷ xs) h = ground (arith, all-take n xs)

hex_pair : (a b : ℕ) → all is_printable (hex a ∷ hex b ∷ []) ≡ true
hex_pair a b = rw (hex-printable a, hex-printable b) refl

hex_four : (a b c d : ℕ) → all is_printable (hex a ∷ hex b ∷ hex c ∷ hex d ∷ []) ≡ true
hex_four a b c d = rw (hex-printable a, hex-printable b, hex-printable c, hex-printable d) refl

-- All runes are printable, as a type that does not compute.
IsSafe : List Char → Type 0
IsSafe runes = all is_printable runes ≡ true

IsSafe-choose :
    (b : Bool) (xs ys : List Char) → IsSafe xs → IsSafe ys → IsSafe (if b then xs else ys)
unfolding IsSafe
IsSafe-choose b xs ys h k = choose is_printable b xs ys h k

letter : (c : Char) → is_printable c ≡ true → IsSafe (c ∷ [])
unfolding IsSafe
letter c h = rw h refl

two_digits : (a b : ℕ) → IsSafe (char 120 tt ∷ hex a ∷ hex b ∷ [])
unfolding IsSafe
two_digits a b = hex_pair a b

four_digits : (a b c d : ℕ) → IsSafe (char 117 tt ∷ hex a ∷ hex b ∷ hex c ∷ hex d ∷ [])
unfolding IsSafe
four_digits a b c d = hex_four a b c d

mark-IsSafe : (c : ℕ) → IsSafe (mark c)
unfolding mark
mark-IsSafe c = IsSafe-choose (eqb c 7) _ _ (letter (char 97 tt) refl) (
    IsSafe-choose (eqb c 8) _ _ (letter (char 98 tt) refl) (
      IsSafe-choose (eqb c 12) _ _ (letter (char 102 tt) refl) (
        IsSafe-choose (eqb c 10) _ _ (letter (char 110 tt) refl) (
          IsSafe-choose (eqb c 13) _ _ (letter (char 114 tt) refl) (
            IsSafe-choose (eqb c 9) _ _ (letter (char 116 tt) refl) (
              IsSafe-choose (eqb c 11) _ _ (letter (char 118 tt) refl) (
                IsSafe-choose (ltb c 32 || eqb c 127) _ _ (two_digits (c / 16) (c % 16))
                  (four_digits 0 0 (c / 16) (c % 16)))))))))

escape-printable : (c : ℕ) → all is_printable (escape c) ≡ true
unfolding IsSafe
escape-printable c = mark-IsSafe c

safe_runes-printable : (cs : List Char) → all is_printable (safe_runes cs) ≡ true
unfolding safe_runes
safe_runes-printable [] = refl
safe_runes-printable (c ∷ cs) = elim (Bool-cases (is_control (code c))) [
  | inl control ↦ rw control (
      all-append is_printable (escape (code c)) (safe_runes cs) (escape-printable (code c))
        (safe_runes-printable cs))
  | inr plain ↦ rw plain (rw plain (safe_runes-printable cs))
]

safe_runes-same : (cs : List Char) → all is_printable cs ≡ true → safe_runes cs ≡ cs
unfolding safe_runes
safe_runes-same [] h = refl
safe_runes-same (c ∷ cs) h =
    let plain : is_control (code c) ≡ false = ground arith in
    let later : all is_printable cs ≡ true = ground arith in
    rw plain (ap (λ ds. c ∷ ds) (safe_runes-same cs later))

-- SafeText leaves no control character in a text, and it changes nothing in a text that it has made
-- safe before.
pub safe_text_lem :
    (text : String)
    → (all is_printable (to_list (safe_text text)) ≡ true)
      × (safe_text (safe_text text) ≡ safe_text text)
unfolding safe_text
safe_text_lem text =
    let runes = safe_runes (to_list text) in
    let back = to_list-of_list runes in
    let safe = safe_runes-printable (to_list text) in
    (rw back safe, ap of_list (rw back (safe_runes-same runes safe)))

-- The runes of a line.
abbrev pub size : List Span → ℕ
size [] = 0
size (span ∷ spans) = length (to_list span.text) + size spans

abbrev pub IsPlain : List Span → Type 0
IsPlain = All (λ span. all is_printable (to_list span.text) ≡ true)

cut_lem :
    (n : ℕ) (runes : List Char)
    → all is_printable runes ≡ true
    → (length (cut n runes) ≤ n) × (all is_printable (cut n runes) ≡ true)
cut_lem n runes h = elim (Bool-cases (ltb n (length runes))) [
  | inl long ↦ rw long (omega (arith, length-take n runes), all-take is_printable n runes h)
  | inr short ↦ rw short (ground arith, h)
]

add_spans_lem :
    (n : ℕ) (spans : List Span) → (size (add_spans n spans) ≤ n) × IsPlain (add_spans n spans)
unfolding add_spans
add_spans_lem n [] = (omega arith, tt)
add_spans_lem n (span ∷ spans) = elim (Bool-cases (eqb n 0)) [
  | inl full ↦ rw full (omega arith, tt)
  | inr room ↦
      let runes = cut n (to_list (safe_text span.text)) in
      let (fits, plain) = cut_lem n (to_list (safe_text span.text)) (safe_text_lem span.text).0 in
      let rest = add_spans_lem (n - length runes) spans in
      let back = to_list-of_list runes in
      rw room (elim (Bool-cases (ltb 0 (length runes))) [
        | inl some_runes ↦ rw some_runes (rw back (omega (arith, fits, rest.0), (plain, rest.1)))
        | inr no_runes ↦ rw no_runes (omega (arith, rest.0), rest.1)
      ])
]

-- A frame whose lines all fit the width, without control characters.
abbrev pub Fits : ℕ → Frame → Type 0
Fits width f = All (λ line. (size line ≤ width) × IsPlain line) f.lines

pub All-snoc {ℓ κ} :
    {A : Type ℓ} (P : A → Type κ) (xs : List A) (x : A) → All P xs → P x → All P (xs ++ x ∷ [])
All-snoc P [] x hs h = (h, tt)
All-snoc P (y ∷ ys) x hs h = (hs.0, All-snoc P ys x hs.1 h)

All-take {ℓ κ} : {A : Type ℓ} (P : A → Type κ) (n : ℕ) (xs : List A) → All P xs → All P (take n xs)
All-take P zero xs hs = tt
All-take P (suc n) [] hs = tt
All-take P (suc n) (x ∷ xs) hs = (hs.0, All-take P n xs hs.1)

-- Add puts one line behind the others, cut to the width and without control characters, whatever
-- the texts of its spans are.
pub add-Fits :
    (width : ℕ) (spans : List Span) (f : Frame)
    → 0 < width
    → Fits width f
    → Fits width (add (pos width) spans f)
      × (length (add (pos width) spans f).lines ≡ length f.lines + 1)
unfolding add
add-Fits width spans f wide fits =
    let open_width : leb_ℤ (pos width) (pos 0) ≡ false = ground arith in
    rw open_width (
      All-snoc _ f.lines _ fits (add_spans_lem width spans),
      omega (arith, length-append f.lines (add_spans width spans ∷ [])),
    )

-- FitHeight gives a frame within the height, of lines that still fit; a frame that is within the
-- height already is left as it is.
pub fit_height-Fits :
    (height width : ℕ) (footer : List Span) (f : Frame)
    → 0 < height
    → Fits width f
    → (size footer ≤ width) × IsPlain footer
    → Fits width (fit_height (pos height) footer f)
      × (length (fit_height (pos height) footer f).lines ≤ height)
      × (length (fit_height (pos height) footer f).lines ≡ min height (length f.lines))
unfolding fit_height
fit_height-Fits height width footer f tall fits below =
    let open_height : leb_ℤ (pos height) (pos 0) ≡ false = ground arith in
    elim (Bool-cases (leb (length f.lines) height)) [
      | inl short ↦ rw (open_height, short) (fits, ground arith, ground arith)
      | inr long ↦ elim (Bool-cases (eqb height 1)) [
        | inl one ↦ rw (open_height, long, one) ((below, tt), ground arith, ground arith)
        | inr more ↦
            let kept = take (height - 1) f.lines in
            let n = length-append kept (footer ∷ []) in
            let m = length-take (height - 1) f.lines in
            rw (open_height, long, more)
              (
                All-snoc _ kept footer (All-take _ (height - 1) f.lines fits) below,
                ground (arith, n, m),
                ground (arith, n, m),
              )
      ]
    ]
