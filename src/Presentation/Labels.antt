-- ===== src/Presentation/Labels.antt =====
-- internal/presentation/format.go: short labels of durations, ids and ages.
use text.Mathlib.TextBridge.{to_list, of_list, to_list-of_list}
use Prim.Native.Char.{Char, char}
use Prim.Native.String.{◌++◌ as concat}
use inoculum.Shared.{
  ℕ, ◌+◌, ◌-◌, ◌*◌, ◌/◌, ◌%◌, ◌<◌, ◌≡◌, refl, min, String, Bool, ◌||◌, Option, none, some, false,
  List, [], ◌∷◌, ◌++◌, arith, ltb, leb, eqb, length, take, drop, length-append, length-take,
  length-drop, if◌then◌else◌, Bool-cases, inl, inr,
}
use inoculum.Shared.Int.{ℤ, pos, pos_part, leb_ℤ, ltb_ℤ, sub_ℕ}
use inoculum.Text.Decimal.{decimal}
use inoculum.Text.Duration.{duration_string}
use inoculum.Presentation.Format.{repeat}

abbrev second : ℕ
second = 1000000000

abbrev minute : ℕ
minute = 60 * second

abbrev max_duration : ℕ
max_duration = 9223372036854775807

-- Duration.Round(time.Minute) of a duration that is not negative
round_minute : ℕ → ℕ
round_minute d =
    let rest = d % minute in
    let up = d + (minute - rest) in
    if ltb (rest + rest) minute then d - rest else if leb up max_duration then up else max_duration

pub compact_duration : ℤ → String
compact_duration duration =
    let d = pos_part duration - pos_part duration % second in
    let minutes = decimal (d / minute) in
    let seconds = d % minute / second in
    if ltb d minute
    then concat (decimal (d / second)) "s"
    else if ltb d (60 * minute)
    then (if eqb seconds 0
        then concat minutes "m"
        else concat minutes (concat "m" (concat (decimal seconds) "s")))
    else duration_string (pos (round_minute d))

half_up : round_minute 7230000000000 ≡ 7260000000000
unfolding round_minute
half_up = refl

no_hour : compact_duration (pos 65999000000) ≡ "1m5s"
unfolding compact_duration decimal
no_hour = refl

abbrev pub prefix : Bool → List Char
prefix unicode = if unicode then char 0x2026 tt ∷ [] else char 46 tt ∷ char 46 tt ∷ char 46 tt ∷ []

pub short_id : String → ℤ → Bool → String
short_id id width unicode =
    let runes = to_list id in
    let keep = pos_part width - length (prefix unicode) in
    if leb_ℤ width (pos 0) || leb (length runes) (pos_part width)
    then id
    else if eqb keep 0
    then of_list (take (pos_part width) (prefix unicode))
    else of_list (prefix unicode ++ drop (length runes - keep) runes)

pub pad_between : String → String → ℤ → String
pad_between left right width =
    let room = pos_part width - (length (to_list left) + length (to_list right)) in
    let space = if ltb room 1 then 1 else room in
    concat left (concat (of_list (repeat space (char 32 tt))) right)

-- The time is `none` where it is Go's zero time.
pub seen_ago : ℕ → Option ℕ → String
seen_ago now none = "never"
seen_ago now (some then_seen) =
    let age = sub_ℕ now then_seen in
    if ltb_ℤ age (pos (2 * second)) then "now" else concat (compact_duration age) " ago"

-- With a width of at least one column, the short form of an id has as many runes as the id, or as
-- the width if that is less.
pub short_id-width :
    (id : String) (width : ℕ) (unicode : Bool)
    → 0 < width
    → length (to_list (short_id id (pos width) unicode)) ≡ min width (length (to_list id))
unfolding short_id
short_id-width id width unicode wide =
    let runes = to_list id in
    let open_width : leb_ℤ (pos width) (pos 0) ≡ false = ground arith in
    let keep = width - length (prefix unicode) in
    elim (Bool-cases (leb (length runes) width)) [
      | inl whole ↦ rw (open_width, whole) (ground arith)
      | inr long ↦ elim (Bool-cases (eqb keep 0)) [
        | inl narrow ↦
            let n = length-take width (prefix unicode) in
            rw (open_width, long, narrow)
              (rw (to_list-of_list (take width (prefix unicode))) (ground (arith, n)))
        | inr kept ↦
            let tail = drop (length runes - keep) runes in
            let n = length-append (prefix unicode) tail in
            let m = length-drop (length runes - keep) runes in
            rw (open_width, long, kept)
              (rw (to_list-of_list (prefix unicode ++ tail)) (ground (arith, n, m)))
      ]
    ]
