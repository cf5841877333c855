-- ===== src/Crypto/Disk.antt =====
-- The files that internal/crypto reads and writes, and what the operating system may refuse.
pub mod Keeping
pub mod Success
use inoculum.Shared.{
  ℕ, ◌≡◌, refl, String, ◌==◌, Bool, true, false, Option, none, some, List, [], ◌∷◌, GoMap, lookup,
  insert, take, if◌then◌else◌, lookup-insert, eq_iff, arith, Result as Fallible, ok, err,
  Bool-cases, inl, inr, Option-cases,
}
use inoculum.Crypto.Fingerprint.{Runes}

abbrev pub Disk : Type 0
Disk = GoMap Runes

-- The system's answers, by path: `none` where the call is not refused. A write that fails has put
-- down some of the content. `dir` is filepath.Dir.
pub record Host : Type 0 where
  pub dir : String → String
  pub stat : String → Option String
  pub read : String → Option String
  pub make_all : String → Option String
  pub create : String → Option String
  pub chmod : String → Option String
  pub write : String → Option (ℕ × String)
  pub sync : String → Option String
  pub close : String → Option String

-- Code that reads and writes files, and may return an error.
abbrev pub Action : Type 0 → Type 0 → Type 0
Action E A = Disk → Disk × Fallible E A

abbrev pub after : {E A B : Type 0} → Disk × Fallible E A → (A → Action E B) → Disk × Fallible E B
after (d, err e) next = (d, err e)
after (d, ok a) next = next a d

infixl 5 ◌>>=◌
unfoldable pub ◌>>=◌ : {E A B : Type 0} → Action E A → (A → Action E B) → Action E B
m >>= next = λ d. after (m d) next

unfoldable pub pure : {E A : Type 0} → A → Action E A
pure a = λ d. (d, ok a)

unfoldable pub fail : {E A : Type 0} → E → Action E A
fail e = λ d. (d, err e)

-- An early return where the test holds.
unfoldable pub fail_if : {E A : Type 0} → Bool → E → Action E A → Action E A
fail_if bad e m = if bad then fail e else m

-- A system call that changes no file.
unfoldable pub unless_refused : {E : Type 0} → Option String → (String → E) → Action E (Unit {0})
unless_refused none blame = pure tt
unless_refused (some e) blame = fail (blame e)

-- The error of a call, as the caller wraps it.
abbrev pub wrap_result : {E F A : Type 0} → (E → F) → Disk × Fallible E A → Disk × Fallible F A
wrap_result wrap (d, ok a) = (d, ok a)
wrap_result wrap (d, err e) = (d, err (wrap e))

unfoldable pub wrapping : {E F A : Type 0} → (E → F) → Action E A → Action F A
wrapping wrap m = λ d. wrap_result wrap (m d)

abbrev pub is_some : {A : Type 0} → Option A → Bool
is_some none = false
is_some (some _) = true

-- fileExists: Stat says that there is a file, that there is none, or something else.
abbrev pub stat_answer : Option String → Bool → Fallible String Bool
stat_answer (some e) there = err e
stat_answer none there = ok there

unfoldable pub file_exists : Host → String → Action String Bool
file_exists host path = λ d. (d, stat_answer (host.stat path) (is_some (lookup path d)))

-- os.ReadFile
pub data ReadError : Type 0 where
  not_there : ReadError
  unreadable : String → ReadError

abbrev pub read_answer : Option String → Option Runes → Fallible ReadError Runes
read_answer (some e) content = err (unreadable e)
read_answer none none = err not_there
read_answer none (some content) = ok content

unfoldable pub read_file : Host → String → Action ReadError Runes
read_file host path = λ d. (d, read_answer (host.read path) (lookup path d))

pub data WriteError : Type 0 where
  creating writing closing : String → String → WriteError
  already_there : String → WriteError

-- The write to a file that is open, and its close, which follows also where the write fails.
abbrev pub write_open :
    Option (ℕ × String) → Option String → String → Runes → Action WriteError (Unit {0})
write_open (some (n, e)) closed path content d =
    (insert path (take n content) d, err (writing path e))
write_open none (some e) path content d = (insert path content d, err (closing path e))
write_open none none path content d = (insert path content d, ok tt)

-- O_EXCL refuses a path that is there.
abbrev pub open_exclusive :
    Host → Option Runes → Option String → String → Runes → Action WriteError (Unit {0})
open_exclusive host (some old) created path content d = (d, err (already_there path))
open_exclusive host none (some e) path content d = (d, err (creating path e))
open_exclusive host none none path content d =
    write_open (host.write path) (host.close path) path content d

unfoldable pub write_exclusive : Host → String → Runes → Action WriteError (Unit {0})
write_exclusive host path content =
    λ d. open_exclusive host (lookup path d) (host.create path) path content d

-- Every file of the first disk is in the second, with its content.
abbrev pub Keeps : Disk → Disk → Type 0
Keeps d d' =
    (path : String) (content : Runes) → lookup path d ≡ some content → lookup path d' ≡ some content
