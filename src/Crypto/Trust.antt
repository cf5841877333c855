-- ===== src/Crypto/Trust.antt =====
-- internal/crypto/tls.go: the trust record, the client's TLS configuration, and its verifier.
pub mod Accepting
pub mod Remembered
use inoculum.Shared.{
  ℕ, ◌≡◌, refl, String, ◌==◌, Bool, true, false, ◌||◌, ◌&&◌, not, Option, none, some, List, [], ◌∷◌,
  ◌++◌, take, insert, if◌then◌else◌, eqb, Result as Fallible, ok, err,
}
use inoculum.Crypto.Fingerprint.{
  Runes, trim_space, FingerprintError, normalize_fingerprint, format_fingerprint, fingerprint,
}
use inoculum.Crypto.Disk.{
  Disk, Host, Action, ◌>>=◌, pure, fail, fail_if, unless_refused, wrapping, ReadError, not_there,
  unreadable, read_file,
}

-- ==, on texts
abbrev pub same_runes : Runes → Runes → Bool
same_runes [] [] = true
same_runes [] (d ∷ ds) = false
same_runes (c ∷ cs) [] = false
same_runes (c ∷ cs) (d ∷ ds) = eqb c d && same_runes cs ds

pub data TrustError : Type 0 where
  path_required : TrustError
  invalid_explicit : FingerprintError → TrustError
  unreadable_record : String → String → TrustError
  invalid_record no_trusted_coordinator : String → TrustError

-- The record's text, as readTrustRecord takes it.
abbrev pub record_of : String → Fallible FingerprintError Runes → Fallible TrustError Runes
record_of path (err e) = err (invalid_record path)
record_of path (ok []) = err (invalid_record path)
record_of path (ok (c ∷ cs)) = ok (c ∷ cs)

abbrev pub record_answer : String → Fallible ReadError Runes → Fallible TrustError Runes
record_answer path (err not_there) = ok []
record_answer path (err (unreadable e)) = err (unreadable_record path e)
record_answer path (ok content) = record_of path (normalize_fingerprint (trim_space content))

-- readTrustRecord. The file is only read.
unfoldable pub read_trust_record : Host → String → Disk → Fallible TrustError Runes
read_trust_record host path d = record_answer path (read_file host path d).1

pub record TrustVerifier : Type 0 where
  pub trust_file : String
  pub trusted : Runes
  pub explicit : Runes
  pub needs_update : Bool

abbrev pub is_empty : Runes → Bool
is_empty [] = true
is_empty (c ∷ cs) = false

abbrev pub stored_text : Fallible TrustError Runes → Runes
stored_text (err e) = []
stored_text (ok stored) = stored

abbrev pub is_err : {E A : Type 0} → Fallible E A → Bool
is_err (err e) = true
is_err (ok a) = false

-- The verifier for an explicit fingerprint, and for a stored one.
abbrev pub with_explicit : String → Runes → Fallible TrustError Runes → TrustVerifier
with_explicit trust_file explicit stored = record {
  trust_file = trust_file;
  trusted = explicit;
  explicit = explicit;
  needs_update = not (same_runes (stored_text stored) explicit) || is_err stored;
}

abbrev pub with_stored : String → Fallible TrustError Runes → Fallible TrustError TrustVerifier
with_stored trust_file (err e) = err e
with_stored trust_file (ok []) = err (no_trusted_coordinator trust_file)
with_stored trust_file (ok (c ∷ cs)) =
    ok (record { trust_file = trust_file; trusted = c ∷ cs; explicit = []; needs_update = false })

abbrev pub choose_trust :
    String
    → Fallible FingerprintError Runes
    → Fallible TrustError Runes
    → Fallible TrustError TrustVerifier
choose_trust trust_file (err e) stored = err (invalid_explicit e)
choose_trust trust_file (ok []) stored = with_stored trust_file stored
choose_trust trust_file (ok (c ∷ cs)) stored = ok (with_explicit trust_file (c ∷ cs) stored)

-- NewCoordinatorClientConfig, as far as the verifier that the configuration calls.
unfoldable pub new_coordinator_client_config :
    Host → String → Runes → Disk → Fallible TrustError TrustVerifier
new_coordinator_client_config host trust_file explicit d =
    if trust_file == ""
    then err path_required
    else choose_trust trust_file (normalize_fingerprint explicit)
        (read_trust_record host trust_file d)

pub data SaveError : Type 0 where
  no_directory not_opened not_chmod not_written not_synced not_closed : String → SaveError

-- The record's file once it is open, and thereby empty: Chmod, WriteString, Sync and Close.
abbrev pub save_open :
    Option String
    → Option (ℕ × String)
    → Option String
    → Option String
    → String
    → Runes
    → Action SaveError (Unit {0})
save_open (some e) written synced closed path content d = (insert path [] d, err (not_chmod e))
save_open none (some (n, e)) synced closed path content d =
    (insert path (take n content) d, err (not_written e))
save_open none none (some e) closed path content d = (insert path content d, err (not_synced e))
save_open none none none (some e) path content d = (insert path content d, err (not_closed e))
save_open none none none none path content d = (insert path content d, ok tt)

unfoldable pub write_trust_record : Host → String → Runes → Action SaveError (Unit {0})
write_trust_record host path text = do
  _ ← unless_refused (host.make_all (host.dir path)) no_directory
  _ ← unless_refused (host.create path) not_opened
  save_open (host.chmod path) (host.write path) (host.sync path) (host.close path) path
      (text ++ b'\n' ∷ [])

pub data VerifyError : Type 0 where
  no_certificate : VerifyError
  identity_mismatch : Runes → Runes → VerifyError
  not_saved : SaveError → VerifyError

-- What normalizeFingerprint returns beside its error.
abbrev pub value_of : Fallible FingerprintError Runes → Runes
value_of (err e) = []
value_of (ok value) = value

abbrev pub saved :
    TrustVerifier
    → Disk × Fallible SaveError (Unit {0})
    → Disk × TrustVerifier × Fallible VerifyError (Unit {0})
saved v (d, err e) = (d, v, err (not_saved e))
saved v (d, ok _) = (d, record v { needs_update = false }, ok tt)

-- verifyConnection, under the verifier's mutex, with the raw certificates of the peer.
unfoldable pub verify_connection :
    (Runes → Runes)
    → Host
    → List Runes
    → TrustVerifier
    → Disk
    → Disk × TrustVerifier × Fallible VerifyError (Unit {0})
verify_connection sha256 host [] v d = (d, v, err no_certificate)
verify_connection sha256 host (leaf ∷ chain) v d =
    let presented = fingerprint sha256 leaf in
    if not (same_runes (value_of (normalize_fingerprint presented)) v.trusted)
    then (d, v, err (identity_mismatch (format_fingerprint v.trusted) presented))
    else if v.needs_update
    then saved v (write_trust_record host v.trust_file (format_fingerprint v.trusted) d)
    else (d, v, ok tt)
