-- ===== src/Crypto/Identity.antt =====
-- internal/crypto/tls.go: LoadOrCreateCoordinatorIdentity and what it calls.
pub mod Untouched
pub mod Restart
use inoculum.Shared.{
  ℕ, String, ◌==◌, Bool, true, false, ◌||◌, not, Option, none, some, List, [], ◌∷◌, lookup,
  if◌then◌else◌, Result as Fallible, ok, err,
}
use inoculum.Crypto.Fingerprint.{Runes, fingerprint}
use inoculum.Crypto.Disk.{
  Disk, Host, Action, after, ◌>>=◌, pure, fail, fail_if, unless_refused, wrapping, file_exists,
  ReadError, read_file, WriteError, write_exclusive,
}

pub record IdentityOptions : Type 0 where
  pub cert_file : String
  pub key_file : String
  pub legacy_cert_file : String
  pub legacy_key_file : String

-- The certificate chain stands for tls.Certificate.
pub record CoordinatorIdentity : Type 0 where
  pub certificate : List Runes
  pub fingerprint : Runes
  pub cert_file : String
  pub key_file : String
  pub created : Bool
  pub migrated : Bool

-- crypto/tls, crypto/x509 and crypto/sha256: X509KeyPair of a certificate and a key gives the chain;
-- ParseCertificate gives the Raw field of the certificate.
pub record Library : Type 0 where
  pub key_pair : Runes → Runes → Fallible String (List Runes)
  pub parse : Runes → Fallible String Runes
  pub sha256 : Runes → Runes

pub data LoadError : Type 0 where
  read_certificate read_key : String → ReadError → LoadError
  bad_pair bad_certificate : String → LoadError
  no_leaf : LoadError

pub data PersistError : Type 0 where
  other_directory : PersistError
  no_directory : String → String → PersistError
  not_written : WriteError → PersistError

pub data IdentityError : Type 0 where
  paths_required : IdentityError
  inspect inspect_legacy : String → String → IdentityError
  partial legacy_partial : String → String → IdentityError
  unsafe_legacy not_loaded new_not_loaded : LoadError → IdentityError
  read_legacy : ReadError → IdentityError
  not_migrated not_persisted : PersistError → IdentityError
  not_generated : String → IdentityError

-- The checks of loadIdentity on what its two files hold.
abbrev pub leaf_identity :
    Library
    → String
    → String
    → List Runes
    → Fallible String Runes
    → Fallible LoadError CoordinatorIdentity
leaf_identity lib cert_file key_file chain (err e) = err (bad_certificate e)
leaf_identity lib cert_file key_file chain (ok raw) = ok (record {
  certificate = chain;
  fingerprint = fingerprint lib.sha256 raw;
  cert_file = cert_file;
  key_file = key_file;
  created = false;
  migrated = false;
})

abbrev pub pair_identity :
    Library
    → String
    → String
    → Fallible String (List Runes)
    → Fallible LoadError CoordinatorIdentity
pair_identity lib cert_file key_file (err e) = err (bad_pair e)
pair_identity lib cert_file key_file (ok []) = err no_leaf
pair_identity lib cert_file key_file (ok (leaf ∷ chain)) =
    leaf_identity lib cert_file key_file (leaf ∷ chain) (lib.parse leaf)

unfoldable pub identity_of :
    Library → String → String → Runes → Runes → Fallible LoadError CoordinatorIdentity
identity_of lib cert_file key_file cert_pem key_pem =
    pair_identity lib cert_file key_file (lib.key_pair cert_pem key_pem)

unfoldable pub load_identity :
    Library → Host → String → String → Action LoadError CoordinatorIdentity
load_identity lib host cert_file key_file = do
  cert_pem ← wrapping (read_certificate cert_file) (read_file host cert_file)
  key_pem ← wrapping (read_key key_file) (read_file host key_file)
  λ d. (d, identity_of lib cert_file key_file cert_pem key_pem)

-- persistIdentity writes the key first.
unfoldable pub persist_identity :
    Host → String → String → Runes → Runes → Action PersistError (Unit {0})
persist_identity host cert_file key_file cert_pem key_pem =
    fail_if (not (host.dir cert_file == host.dir key_file)) other_directory do
      _ ← unless_refused (host.make_all (host.dir cert_file)) (no_directory (host.dir cert_file))
      _ ← wrapping not_written (write_exclusive host key_file key_pem)
      wrapping not_written (write_exclusive host cert_file cert_pem)

unfoldable pub optional_file_exists : Host → String → Action String Bool
optional_file_exists host path = if path == "" then pure false else file_exists host path

-- The branch for a legacy pair that is there.
pub migrate : Library → Host → IdentityOptions → Action IdentityError CoordinatorIdentity
migrate lib host o = do
  legacy ← wrapping unsafe_legacy (load_identity lib host o.legacy_cert_file o.legacy_key_file)
  cert_pem ← wrapping read_legacy (read_file host o.legacy_cert_file)
  key_pem ← wrapping read_legacy (read_file host o.legacy_key_file)
  _ ← wrapping not_migrated (persist_identity host o.cert_file o.key_file cert_pem key_pem)
  pure (record legacy { cert_file = o.cert_file; key_file = o.key_file; migrated = true })

-- The last branch. `generated` is what generateIdentityPEM returns, from random bytes.
unfoldable pub create :
    Library
    → Host
    → IdentityOptions
    → Fallible String (Runes × Runes)
    → Action IdentityError CoordinatorIdentity
create lib host o (err e) = fail (not_generated e)
create lib host o (ok (cert_pem, key_pem)) = do
  _ ← wrapping not_persisted (persist_identity host o.cert_file o.key_file cert_pem key_pem)
  identity ← wrapping new_not_loaded (load_identity lib host o.cert_file o.key_file)
  pure (record identity { created = true })

-- ==, on Booleans
abbrev pub same : Bool → Bool → Bool
same true b = b
same false b = not b

unfoldable pub unless_current :
    Library
    → Host
    → IdentityOptions
    → Fallible String (Runes × Runes)
    → Action IdentityError CoordinatorIdentity
unless_current lib host o generated = do
  cert ← wrapping (inspect_legacy o.legacy_cert_file) (optional_file_exists host o.legacy_cert_file)
  key ← wrapping (inspect_legacy o.legacy_key_file) (optional_file_exists host o.legacy_key_file)
  fail_if (not (same cert key)) (legacy_partial o.legacy_cert_file o.legacy_key_file)
      (if cert then migrate lib host o else create lib host o generated)

unfoldable pub load_or_create :
    Library
    → Host
    → IdentityOptions
    → Fallible String (Runes × Runes)
    → Action IdentityError CoordinatorIdentity
load_or_create lib host o generated =
    fail_if (o.cert_file == "" || o.key_file == "") paths_required do
      cert ← wrapping (inspect o.cert_file) (file_exists host o.cert_file)
      key ← wrapping (inspect o.key_file) (file_exists host o.key_file)
      fail_if (not (same cert key)) (partial o.cert_file o.key_file) (
          if cert
          then wrapping not_loaded (load_identity lib host o.cert_file o.key_file)
          else unless_current lib host o generated)
