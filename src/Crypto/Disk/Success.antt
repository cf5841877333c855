-- ===== src/Crypto/Disk/Success.antt =====
-- What it takes for an action on files to succeed, and what a success leaves behind.
use inoculum.Shared.{
  ℕ, ◌≡◌, refl, sym, ap, String, Bool, true, false, Option, none, some, lookup, insert,
  lookup-insert, eq_refl, arith, Result as Fallible, ok, err,
}
use inoculum.Crypto.Fingerprint.{Runes}
use inoculum.Crypto.Disk.{
  Disk, Host, Action, after, ◌>>=◌, wrapping, wrap_result, fail, fail_if, is_some, file_exists,
  stat_answer, read_file, read_answer, write_exclusive, open_exclusive, write_open,
}

-- The first action's result, and what runs on it.
abbrev pub Begins : {E A B : Type 0} → Action E A → (A → Action E B) → Disk → Disk → B → Type 0
Begins {A = A} m next d d' b = (d₁ : Disk) × (a : A) × (m d ≡ (d₁, ok a)) × (next a d₁ ≡ (d', ok b))

after-ok :
    {E A B : Type 0} (r : Disk × Fallible E A) (next : A → Action E B) {d' : Disk} {b : B}
    → after r next ≡ (d', ok b)
    → (d₁ : Disk) × (a : A) × (r ≡ (d₁, ok a)) × (next a d₁ ≡ (d', ok b))
after-ok (d₁, err e) next h = absurd (ground (arith, h))
after-ok (d₁, ok a) next h = (d₁, a, refl, h)

pub bind-ok :
    {E A B : Type 0} (m : Action E A) (next : A → Action E B) (d : Disk) {d' : Disk} {b : B}
    → (m >>= next) d ≡ (d', ok b)
    → Begins m next d d' b
unfolding ◌>>=◌
bind-ok m next d h = after-ok (m d) next h

pub bind_run :
    {E A B : Type 0} (m : Action E A) (next : A → Action E B) (d : Disk) {d₁ : Disk} {a : A}
    {r : Disk × Fallible E B}
    → m d ≡ (d₁, ok a)
    → next a d₁ ≡ r
    → (m >>= next) d ≡ r
unfolding ◌>>=◌
bind_run m next d h k = rw h k

pub fail_if-ok :
    {E A : Type 0} (bad : Bool) (e : E) (m : Action E A) (d : Disk) {d' : Disk} {a : A}
    → fail_if bad e m d ≡ (d', ok a)
    → (bad ≡ false) × (m d ≡ (d', ok a))
unfolding fail_if fail
fail_if-ok true e m d h = absurd (ground (arith, h))
fail_if-ok false e m d h = (refl, h)

pub fail_if_run :
    {E A : Type 0} (bad : Bool) (e : E) (m : Action E A) (d : Disk) {r : Disk × Fallible E A}
    → bad ≡ false
    → m d ≡ r
    → fail_if bad e m d ≡ r
unfolding fail_if
fail_if_run bad e m d fine h = rw fine h

wrap_result-ok :
    {E F A : Type 0} (wrap : E → F) (r : Disk × Fallible E A) {d' : Disk} {a : A}
    → wrap_result wrap r ≡ (d', ok a)
    → r ≡ (d', ok a)
wrap_result-ok wrap (d₁, ok a) h = ground (arith, h)
wrap_result-ok wrap (d₁, err e) h = absurd (ground (arith, h))

pub wrapping-ok :
    {E F A : Type 0} (wrap : E → F) (m : Action E A) (d : Disk) {d' : Disk} {a : A}
    → wrapping wrap m d ≡ (d', ok a)
    → m d ≡ (d', ok a)
unfolding wrapping
wrapping-ok wrap m d h = wrap_result-ok wrap (m d) h

pub wrapping_run :
    {E F A : Type 0} (wrap : E → F) (m : Action E A) (d : Disk) {d' : Disk} {a : A}
    → m d ≡ (d', ok a)
    → wrapping wrap m d ≡ (d', ok a)
unfolding wrapping
wrapping_run wrap m d h = rw h refl

pub read_file-ok :
    (host : Host) (path : String) (d : Disk) {d' : Disk} {content : Runes}
    → read_file host path d ≡ (d', ok content)
    → (d ≡ d') × (host.read path ≡ none) × (lookup path d ≡ some content)
unfolding read_file
read_file-ok host path d h =
    let (fine, there) = answered (host.read path) (lookup path d) (ap (λ p. p.1) h) in
    (ap (λ p. p.0) h, fine, there)
  where
    answered :
        (r : Option String) (there : Option Runes) {content : Runes}
        → read_answer r there ≡ ok content
        → (r ≡ none) × (there ≡ some content)
    answered (some e) there h = absurd (ground (arith, h))
    answered none none h = absurd (ground (arith, h))
    answered none (some c) h = ground (arith, h)

pub read_file_run :
    (host : Host) (path : String) (d : Disk) {content : Runes}
    → host.read path ≡ none
    → lookup path d ≡ some content
    → read_file host path d ≡ (d, ok content)
unfolding read_file
read_file_run host path d h k = rw (h, k) refl

pub file_exists-ok :
    (host : Host) (path : String) (d : Disk) {d' : Disk} {there : Bool}
    → file_exists host path d ≡ (d', ok there)
    → (d ≡ d') × (host.stat path ≡ none) × (is_some (lookup path d) ≡ there)
unfolding file_exists
file_exists-ok host path d h =
    let (fine, there) = answered (host.stat path) (ap (λ p. p.1) h) in
    (ap (λ p. p.0) h, fine, there)
  where
    answered :
        (r : Option String) {there : Bool}
        → stat_answer r (is_some (lookup path d)) ≡ ok there
        → (r ≡ none) × (is_some (lookup path d) ≡ there)
    answered (some e) h = absurd (ground (arith, h))
    answered none h = (refl, ground (arith, h))

pub file_exists_run :
    (host : Host) (path : String) (d : Disk) {content : Runes}
    → host.stat path ≡ none
    → lookup path d ≡ some content
    → file_exists host path d ≡ (d, ok true)
unfolding file_exists
file_exists_run host path d h k = rw (h, k) refl

write_open-ok :
    (wrote : Option (ℕ × String)) (closed : Option String) (path : String) (content : Runes)
    (d : Disk) {d' : Disk} {u : Unit {0}}
    → write_open wrote closed path content d ≡ (d', ok u)
    → insert path content d ≡ d'
write_open-ok (some (n, e)) closed path content d h = absurd (ground (arith, h))
write_open-ok none (some e) path content d h = absurd (ground (arith, h))
write_open-ok none none path content d h = ap (λ p. p.0) h

open_exclusive-ok :
    (host : Host) (there : Option Runes) (created : Option String) (path : String) (content : Runes)
    (d : Disk) {d' : Disk} {u : Unit {0}}
    → open_exclusive host there created path content d ≡ (d', ok u)
    → (there ≡ none) × (insert path content d ≡ d')
open_exclusive-ok host (some old) created path content d h = absurd (ground (arith, h))
open_exclusive-ok host none (some e) path content d h = absurd (ground (arith, h))
open_exclusive-ok host none none path content d h =
    (refl, write_open-ok (host.write path) (host.close path) path content d h)

-- A file that was written is there, and was not there before.
pub write_exclusive-ok :
    (host : Host) (path : String) (content : Runes) (d : Disk) {d' : Disk} {u : Unit {0}}
    → write_exclusive host path content d ≡ (d', ok u)
    → (lookup path d ≡ none) × (lookup path d' ≡ some content)
unfolding write_exclusive
write_exclusive-ok host path content d h =
    let (new, puts) = open_exclusive-ok host (lookup path d) (host.create path) path content d h in
    (new, rw (sym puts) (rw (lookup-insert path path content d) (rw (eq_refl path) refl)))
