-- ===== src/Crypto/Identity/Untouched.antt =====
-- The coordinator's identity: no file that is there is written, whatever fails.
use inoculum.Shared.{String, Result as Fallible, ok, err}
use inoculum.Crypto.Fingerprint.{Runes}
use inoculum.Crypto.Disk.{Disk, Host, Keeps}
use inoculum.Crypto.Disk.Keeping.{KeepsFiles, Keeps-refl, bind-KeepsFiles, keeping}
use inoculum.Crypto.Identity.{
  Library, IdentityOptions, load_identity, persist_identity, optional_file_exists, migrate, create,
  unless_current, load_or_create,
}

load_identity-KeepsFiles :
    (lib : Library) (host : Host) (cert key : String) → KeepsFiles (load_identity lib host cert key)
unfolding load_identity
load_identity-KeepsFiles lib host cert key =
    bind-KeepsFiles (search keeping)
      (λ c. bind-KeepsFiles (search keeping) (λ k. record { keeps = λ d. Keeps-refl d }))

persist_identity-KeepsFiles :
    (host : Host) (cert key : String) (cert_pem key_pem : Runes)
    → KeepsFiles (persist_identity host cert key cert_pem key_pem)
unfolding persist_identity
persist_identity-KeepsFiles host cert key cert_pem key_pem = search keeping

optional_file_exists-KeepsFiles :
    (host : Host) (path : String) → KeepsFiles (optional_file_exists host path)
unfolding optional_file_exists
optional_file_exists-KeepsFiles host path = search keeping

migrate-KeepsFiles :
    (lib : Library) (host : Host) (o : IdentityOptions) → KeepsFiles (migrate lib host o)
unfolding migrate
migrate-KeepsFiles lib host o =
    search (keeping, load_identity-KeepsFiles, persist_identity-KeepsFiles) depth 9

create-KeepsFiles :
    (lib : Library) (host : Host) (o : IdentityOptions)
    (generated : Fallible String (Runes × Runes))
    → KeepsFiles (create lib host o generated)
unfolding create
create-KeepsFiles lib host o (err e) = search keeping
create-KeepsFiles lib host o (ok (c, k)) =
    search (keeping, load_identity-KeepsFiles, persist_identity-KeepsFiles) depth 9

unless_current-KeepsFiles :
    (lib : Library) (host : Host) (o : IdentityOptions)
    (generated : Fallible String (Runes × Runes))
    → KeepsFiles (unless_current lib host o generated)
unfolding unless_current
unless_current-KeepsFiles lib host o generated =
    search (keeping, optional_file_exists-KeepsFiles, migrate-KeepsFiles, create-KeepsFiles)

load_or_create-KeepsFiles :
    (lib : Library) (host : Host) (o : IdentityOptions)
    (generated : Fallible String (Runes × Runes))
    → KeepsFiles (load_or_create lib host o generated)
unfolding load_or_create
load_or_create-KeepsFiles lib host o generated =
    search (keeping, load_identity-KeepsFiles, unless_current-KeepsFiles) depth 9

-- LoadOrCreateCoordinatorIdentity never changes or removes a file: whatever is there when the
-- coordinator starts is there afterwards with the same content, also where it returns an error and
-- whatever the system refuses.
pub load_or_create-Keeps :
    (lib : Library) (host : Host) (o : IdentityOptions)
    (generated : Fallible String (Runes × Runes)) (d : Disk)
    → Keeps d (load_or_create lib host o generated d).0
load_or_create-Keeps lib host o generated d =
    (load_or_create-KeepsFiles lib host o generated).keeps d
