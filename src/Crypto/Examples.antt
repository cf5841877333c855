-- ===== src/Crypto/Examples.antt =====
-- A library of one certificate, a system that refuses nothing, and a client that trusts.
use inoculum.Shared.{
  ℕ, zero, suc, ◌≡◌, ◌≢◌, refl, String, true, false, none, [], ◌∷◌, ◌++◌, lookup, insert, arith,
  Result as Fallible, ok, err,
}
use inoculum.Crypto.Fingerprint.{
  Runes, hex_upper, format_fingerprint, fingerprint, normalize_fingerprint, drop_colons, trim_space,
  trim_front, trim_back,
}
use inoculum.Crypto.Fingerprint.Forms.{IsHash}
use inoculum.Crypto.Disk.{
  Disk, Host, Keeps, file_exists, read_file, write_exclusive, ◌>>=◌, pure, fail_if, unless_refused,
  wrapping,
}
use inoculum.Crypto.Identity.{
  Library, IdentityOptions, CoordinatorIdentity, load_or_create, unless_current, create,
  persist_identity, load_identity, identity_of, optional_file_exists,
}
use inoculum.Crypto.Identity.Untouched.{load_or_create-Keeps}
use inoculum.Crypto.Identity.Restart.{at_rest, load_or_create-again}
use inoculum.Crypto.Trust.{
  TrustVerifier, VerifyError, new_coordinator_client_config, verify_connection, read_trust_record,
  write_trust_record,
}
use inoculum.Crypto.Trust.Accepting.{Accepts, verify_connection-Accepts, verify_connection-refuses}
use inoculum.Crypto.Trust.Remembered.{new_coordinator_client_config-verify_connection}

-- A hash that is the same for all: enough to run the code, whose theorems hold for any hash.
abbrev thirty_two : ℕ → Runes
thirty_two zero = []
thirty_two (suc n) = 171 ∷ thirty_two n

abbrev sha256 : Runes → Runes
sha256 raw = thirty_two 32

sha256-IsHash : (raw : Runes) → IsHash (sha256 raw)
sha256-IsHash raw = record { full = refl; bytes_only = omega arith }

abbrev willing : Host
willing = record {
  dir = λ path. "/home";
  stat = λ path. none;
  read = λ path. none;
  make_all = λ path. none;
  create = λ path. none;
  chmod = λ path. none;
  write = λ path. none;
  sync = λ path. none;
  close = λ path. none;
}

abbrev library : Library
library = record {
  key_pair = λ cert_pem key_pem. ok (cert_pem ∷ []);
  parse = λ leaf. ok leaf;
  sha256 = sha256;
}

abbrev options : IdentityOptions
options = record {
  cert_file = "/home/coordinator.crt";
  key_file = "/home/coordinator.key";
  legacy_cert_file = "";
  legacy_key_file = "";
}

abbrev generated : Fallible String (Runes × Runes)
generated = ok (1 ∷ 2 ∷ [], 3 ∷ [])

abbrev identity : CoordinatorIdentity
identity = record {
  certificate = (1 ∷ 2 ∷ []) ∷ [];
  fingerprint = fingerprint sha256 (1 ∷ 2 ∷ []);
  cert_file = "/home/coordinator.crt";
  key_file = "/home/coordinator.key";
  created = true;
  migrated = false;
}

abbrev both_files : Disk
both_files = ("/home/coordinator.key", 3 ∷ []) ∷ ("/home/coordinator.crt", 1 ∷ 2 ∷ []) ∷ []

first_start : load_or_create library willing options generated [] ≡ (both_files, ok identity)
unfolding load_or_create unless_current create persist_identity load_identity identity_of
    optional_file_exists file_exists read_file write_exclusive ◌>>=◌ pure fail_if unless_refused
    wrapping lookup insert
first_start = refl

load_or_create-Keeps_example : Keeps [] (load_or_create library willing options generated []).0
load_or_create-Keeps_example = load_or_create-Keeps library willing options generated []

load_or_create-again_example :
    load_or_create library willing options (err "no randomness") both_files
    ≡ (both_files, ok (at_rest identity))
load_or_create-again_example =
    load_or_create-again library willing options generated (err "no randomness") [] both_files
      identity refl refl first_start

abbrev shown : Runes
shown = format_fingerprint (hex_upper (thirty_two 32))

abbrev client : TrustVerifier
client = record {
  trust_file = "/home/trusted";
  trusted = hex_upper (thirty_two 32);
  explicit = hex_upper (thirty_two 32);
  needs_update = true;
}

abbrev trusting : TrustVerifier
trusting = record client { needs_update = false }

abbrev record_file : Disk
record_file = ("/home/trusted", shown ++ b'\n' ∷ []) ∷ []

given : new_coordinator_client_config willing "/home/trusted" shown [] ≡ ok client
unfolding new_coordinator_client_config read_trust_record read_file lookup normalize_fingerprint
    format_fingerprint hex_upper drop_colons trim_space trim_front trim_back
given = refl

connects :
    verify_connection sha256 willing ((5 ∷ []) ∷ []) client [] ≡ (record_file, trusting, ok tt)
unfolding verify_connection fingerprint write_trust_record unless_refused pure ◌>>=◌ insert
    normalize_fingerprint format_fingerprint hex_upper drop_colons trim_space trim_front trim_back
connects = refl

verify_connection-Accepts_example : Accepts sha256 ((5 ∷ []) ∷ []) client [] record_file trusting
verify_connection-Accepts_example =
    verify_connection-Accepts sha256 willing ((5 ∷ []) ∷ []) client [] record_file trusting
      sha256-IsHash connects

-- A client that trusts another fingerprint.
abbrev elsewhere : TrustVerifier
elsewhere = record client { trusted = b'0' ∷ [] }

unlike : hex_upper (thirty_two 32) ≢ b'0' ∷ []
unfolding hex_upper
unlike same = absurd (ground (arith, same))

verify_connection-refuses_example :
    (e : VerifyError) × (verify_connection sha256 willing ((5 ∷ []) ∷ []) elsewhere []
      ≡ ([], elsewhere, err e))
verify_connection-refuses_example =
    verify_connection-refuses sha256 willing ((5 ∷ []) ∷ []) elsewhere [] sha256-IsHash
      (λ leaf chain e. unlike)

new_coordinator_client_config-verify_connection_example :
    new_coordinator_client_config willing "/home/trusted" [] record_file
    ≡ ok (record {
      trust_file = "/home/trusted";
      trusted = hex_upper (thirty_two 32);
      explicit = [];
      needs_update = false;
    })
new_coordinator_client_config-verify_connection_example =
    new_coordinator_client_config-verify_connection sha256 willing "/home/trusted" shown
      ((5 ∷ []) ∷ []) [] record_file client trusting sha256-IsHash refl given connects
