-- ===== src/Crypto/Disk/Keeping.antt =====
-- Which of the actions on files leave every file as it is that is there before.
use inoculum.Shared.{
  ℕ, Bool, true, false, if◌then◌else◌, ◌≡◌, refl, String, Option, none, some, lookup, insert, take,
  lookup-insert, eq_iff, arith, Result as Fallible, ok, err,
}
use inoculum.Crypto.Fingerprint.{Runes}
use inoculum.Crypto.Disk.{
  Disk, Host, Action, after, ◌>>=◌, pure, fail, fail_if, unless_refused, wrapping, wrap_result,
  Keeps, file_exists, read_file, write_open, open_exclusive, write_exclusive,
}

pub record KeepsFiles {E A : Type 0} (m : Action E A) : Type 0 where
  pub keeps : (d : Disk) → Keeps d (m d).0

pub Keeps-refl : (d : Disk) → Keeps d d
Keeps-refl d path content h = h

pub Keeps-trans : (c d e : Disk) → Keeps c d → Keeps d e → Keeps c e
Keeps-trans c d e h k path content is = k path content (h path content is)

after-Keeps :
    {E A B : Type 0} (d : Disk) (r : Disk × Fallible E A) (next : A → Action E B)
    → Keeps d r.0
    → ((a : A) → KeepsFiles (next a))
    → Keeps d (after r next).0
after-Keeps d (d₁, err e) next h k = h
after-Keeps d (d₁, ok a) next h k = Keeps-trans d d₁ (next a d₁).0 h ((k a).keeps d₁)

pub bind-KeepsFiles :
    {E A B : Type 0} {m : Action E A} {next : A → Action E B}
    → KeepsFiles m
    → ((a : A) → KeepsFiles (next a))
    → KeepsFiles (m >>= next)
unfolding ◌>>=◌
bind-KeepsFiles {m = m} {next = next} h k = record {
  keeps = λ d. after-Keeps d (m d) next (h.keeps d) k;
}

pub pure-KeepsFiles : {E A : Type 0} (a : A) → KeepsFiles (pure {E = E} a)
unfolding pure
pure-KeepsFiles a = record { keeps = λ d. Keeps-refl d }

pub fail-KeepsFiles : {E A : Type 0} (e : E) → KeepsFiles (fail {A = A} e)
unfolding fail
fail-KeepsFiles e = record { keeps = λ d. Keeps-refl d }

wrap_result-Keeps :
    {E F A : Type 0} (d : Disk) (wrap : E → F) (r : Disk × Fallible E A)
    → Keeps d r.0
    → Keeps d (wrap_result wrap r).0
wrap_result-Keeps d wrap (d₁, ok a) h = h
wrap_result-Keeps d wrap (d₁, err e) h = h

pub wrapping-KeepsFiles :
    {E F A : Type 0} (wrap : E → F) {m : Action E A} → KeepsFiles m → KeepsFiles (wrapping wrap m)
unfolding wrapping
wrapping-KeepsFiles wrap {m = m} h = record {
  keeps = λ d. wrap_result-Keeps d wrap (m d) (h.keeps d);
}

pub if-KeepsFiles :
    {E A : Type 0} {m n : Action E A} (b : Bool)
    → KeepsFiles m
    → KeepsFiles n
    → KeepsFiles (if b then m else n)
if-KeepsFiles true h k = h
if-KeepsFiles false h k = k

pub fail_if-KeepsFiles :
    {E A : Type 0} {m : Action E A} (bad : Bool) (e : E)
    → KeepsFiles m
    → KeepsFiles (fail_if bad e m)
unfolding fail_if
fail_if-KeepsFiles bad e h = if-KeepsFiles bad (fail-KeepsFiles e) h

pub unless_refused-KeepsFiles :
    {E : Type 0} (o : Option String) (blame : String → E) → KeepsFiles (unless_refused o blame)
unfolding unless_refused
unless_refused-KeepsFiles none blame = pure-KeepsFiles tt
unless_refused-KeepsFiles (some e) blame = fail-KeepsFiles (blame e)

pub file_exists-KeepsFiles : (host : Host) (path : String) → KeepsFiles (file_exists host path)
unfolding file_exists
file_exists-KeepsFiles host path = record { keeps = λ d. Keeps-refl d }

pub read_file-KeepsFiles : (host : Host) (path : String) → KeepsFiles (read_file host path)
unfolding read_file
read_file-KeepsFiles host path = record { keeps = λ d. Keeps-refl d }

insert-Keeps :
    (path : String) (content : Runes) (d : Disk)
    → lookup path d ≡ none
    → Keeps d (insert path content d)
insert-Keeps path content d new q kept is =
    ground (arith, is, new, lookup-insert path q content d, eq_iff path q)

write_open-Keeps :
    (wrote : Option (ℕ × String)) (closed : Option String) (path : String) (content : Runes)
    (d : Disk)
    → lookup path d ≡ none
    → Keeps d (write_open wrote closed path content d).0
write_open-Keeps (some (n, e)) closed path content d new = insert-Keeps path (take n content) d new
write_open-Keeps none (some e) path content d new = insert-Keeps path content d new
write_open-Keeps none none path content d new = insert-Keeps path content d new

open_exclusive-Keeps :
    (host : Host) (there : Option Runes) (created : Option String) (path : String) (content : Runes)
    (d : Disk)
    → lookup path d ≡ there
    → Keeps d (open_exclusive host there created path content d).0
open_exclusive-Keeps host (some old) created path content d is = Keeps-refl d
open_exclusive-Keeps host none (some e) path content d is = Keeps-refl d
open_exclusive-Keeps host none none path content d is =
    write_open-Keeps (host.write path) (host.close path) path content d is

pub write_exclusive-KeepsFiles :
    (host : Host) (path : String) (content : Runes) → KeepsFiles (write_exclusive host path content)
unfolding write_exclusive
write_exclusive-KeepsFiles host path content = record {
  keeps = λ d. open_exclusive-Keeps host (lookup path d) (host.create path) path content d refl;
}

pub ruleset keeping = (
  bind-KeepsFiles, pure-KeepsFiles, fail-KeepsFiles, wrapping-KeepsFiles, if-KeepsFiles,
  fail_if-KeepsFiles, unless_refused-KeepsFiles, file_exists-KeepsFiles, read_file-KeepsFiles,
  write_exclusive-KeepsFiles,
)
