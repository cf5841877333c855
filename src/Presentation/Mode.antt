-- ===== src/Presentation/Mode.antt =====
-- internal/presentation/mode.go: what the terminal can show.
use inoculum.Shared.{
  ℕ, ◌-◌, ◌≡◌, refl, String, ◌==◌, Bool, true, ◌&&◌, ◌||◌, not, map, leb, if◌then◌else◌,
}
use inoculum.Text.Search.{codes, begins, holds_part}

pub record ModeOptions : Type 0 where
  pub plain : Bool
  pub verbose : Bool
  pub no_color : Bool
  pub ascii : Bool

pub record Capabilities : Type 0 where
  pub interactive : Bool
  pub verbose : Bool
  pub color : Bool
  pub unicode : Bool

-- detectCapabilities, given whether the streams are terminals, and TERM, CI and NO_COLOR.
pub detect_capabilities : ModeOptions → Bool → Bool → String → String → String → Bool → Capabilities
detect_capabilities options stdin_tty stdout_tty terminal ci no_color unicode_locale =
    let interactive =
      not options.plain && stdin_tty && stdout_tty && not (terminal == "dumb") && ci == "" in
    record {
      interactive = interactive;
      verbose = options.verbose;
      color = interactive && not options.no_color && no_color == "";
      unicode = not options.ascii && unicode_locale;
    }

-- strings.ToUpper, as far as U, T and F go: no other character has one of them as its upper case.
abbrev upper : ℕ → ℕ
upper c = if leb b'a' c && leb c b'z' then c - 32 else c

abbrev contains_upper : String → String → Bool
contains_upper s t = holds_part (codes t) (map upper (codes s))

abbrev pub names_utf8 : String → Bool
names_utf8 locale = contains_upper locale "UTF-8" || contains_upper locale "UTF8"

abbrev first_set : String → String → String
first_set a b = if a == "" then b else a

-- supportsUnicodeLocale, of LC_ALL, LC_CTYPE and LANG
pub supports_unicode_locale : String → String → String → Bool
supports_unicode_locale lc_all lc_ctype lang =
    let locale = first_set (first_set lc_all lc_ctype) lang in
    if locale == "" then true else names_utf8 locale

german_utf8 : supports_unicode_locale "" "de_DE.utf8" "C" ≡ true
unfolding supports_unicode_locale holds_part codes begins
german_utf8 = refl
