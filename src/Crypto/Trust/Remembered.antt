-- ===== src/Crypto/Trust/Remembered.antt =====
-- What a client comes to trust: an explicit fingerprint, or the one that is stored.
use inoculum.Shared.{
  ℕ, ◌≡◌, refl, sym, ap, ◌∙◌, subst, String, ◌==◌, Bool, true, false, ◌||◌, ◌⊎◌, not, none, List,
  [], ◌∷◌, if◌then◌else◌, Bool-cases, inl, inr, arith, Result as Fallible, ok, err, lookup, ok_inj,
}
use inoculum.Crypto.Fingerprint.{Runes, FingerprintError, normalize_fingerprint, trim_space}
use inoculum.Crypto.Fingerprint.Forms.{IsNormal, IsHash, normalize_empty, normalize-IsNormal}
use inoculum.Crypto.Disk.{Disk, Host, read_file, ReadError, not_there, unreadable}
use inoculum.Crypto.Trust.{
  same_runes, TrustError, TrustVerifier, record_of, record_answer, read_trust_record,
  new_coordinator_client_config, choose_trust, with_stored, stored_text, is_err, verify_connection,
  path_required,
}
use inoculum.Crypto.Trust.Accepting.{
  same_runes_iff_to, Records, written-Records, verify_connection-Accepts,
}

-- What a client starts to trust: the explicit fingerprint that it is given, or else the one that is
-- stored, which is there then.
pub record Trusts (host : Host) (trust_file : String) (explicit : Runes) (d : Disk)
    (v : TrustVerifier) : Type 0 where
  pub normal : IsNormal v.trusted
  pub file : v.trust_file ≡ trust_file
  pub source :
      (normalize_fingerprint explicit ≡ ok v.trusted)
      ⊎ ((normalize_fingerprint explicit ≡ ok []) × Records host trust_file d v.trusted)
  pub known : v.needs_update ≡ false → Records host trust_file d v.trusted

record_of-IsNormal :
    (path : String) (text value : Runes)
    → record_of path (normalize_fingerprint text) ≡ ok value
    → IsNormal value
record_of-IsNormal path text value h = by_result (normalize_fingerprint text) refl h
  where
    by_result :
        (r : Fallible FingerprintError Runes)
        → normalize_fingerprint text ≡ r
        → record_of path r ≡ ok value
        → IsNormal value
    by_result (err e) is h = absurd (ground (arith, h))
    by_result (ok []) is h = absurd (ground (arith, h))
    by_result (ok (c ∷ cs)) is h =
        subst IsNormal (ap stored_text h) (normalize-IsNormal text c cs is)

-- What is read from a record is normal, unless there is none.
read_trust_record-IsNormal :
    (host : Host) (path : String) (d : Disk) (c : ℕ) (cs : Runes)
    → Records host path d (c ∷ cs)
    → IsNormal (c ∷ cs)
unfolding read_trust_record
read_trust_record-IsNormal host path d c cs h = by_answer (read_file host path d).1 h
  where
    by_answer :
        (r : Fallible ReadError Runes) → record_answer path r ≡ ok (c ∷ cs) → IsNormal (c ∷ cs)
    by_answer (err not_there) h = absurd (ground (arith, h))
    by_answer (err (unreadable e)) h = absurd (ground (arith, h))
    by_answer (ok content) h = record_of-IsNormal path (trim_space content) (c ∷ cs) h

explicit_known :
    (value : Runes) (stored : Fallible TrustError Runes)
    → (not (same_runes (stored_text stored) value) || is_err stored) ≡ false
    → stored ≡ ok value
explicit_known value (err e) h = absurd (ground (arith, h))
explicit_known value (ok x) h =
    let same : same_runes x value ≡ true = ground (arith, h) in
    ap ok (same_runes_iff_to x value same)

choose_trust-Trusts :
    (host : Host) (trust_file : String) (explicit : Runes) (d : Disk) (v : TrustVerifier)
    (chosen : Fallible FingerprintError Runes) (stored : Fallible TrustError Runes)
    → normalize_fingerprint explicit ≡ chosen
    → read_trust_record host trust_file d ≡ stored
    → choose_trust trust_file chosen stored ≡ ok v
    → Trusts host trust_file explicit d v
choose_trust-Trusts host trust_file explicit d v (err e) stored is reads h =
    absurd (ground (arith, h))
choose_trust-Trusts host trust_file explicit d v (ok []) (err e) is reads h =
    absurd (ground (arith, h))
choose_trust-Trusts host trust_file explicit d v (ok []) (ok []) is reads h =
    absurd (ground (arith, h))
choose_trust-Trusts host trust_file explicit d v (ok []) (ok (c ∷ cs)) is reads h =
    subst (Trusts host trust_file explicit d) (ok_inj h) (record {
      normal = read_trust_record-IsNormal host trust_file d c cs reads;
      file = refl;
      source = inr (is, reads);
      known = λ _. reads;
    })
choose_trust-Trusts host trust_file explicit d v (ok (c ∷ cs)) stored is reads h =
    subst (Trusts host trust_file explicit d) (ok_inj h) (record {
      normal = normalize-IsNormal explicit c cs is;
      file = refl;
      source = inl is;
      known = λ quiet. reads ∙ explicit_known (c ∷ cs) stored quiet;
    })

named_file :
    (b : Bool) (r : Fallible TrustError TrustVerifier) {v : TrustVerifier}
    → (if b then err path_required else r) ≡ ok v
    → (b ≡ false) × (r ≡ ok v)
named_file true r h = absurd (ground (arith, h))
named_file false r h = (refl, h)

-- A client gets a TLS configuration only with a coordinator to trust: the explicit fingerprint, or
-- without one the stored fingerprint. Where no update of the record is due, the record holds it.
pub new_coordinator_client_config-Trusts :
    (host : Host) (trust_file : String) (explicit : Runes) (d : Disk) (v : TrustVerifier)
    → new_coordinator_client_config host trust_file explicit d ≡ ok v
    → Trusts host trust_file explicit d v
unfolding new_coordinator_client_config
new_coordinator_client_config-Trusts host trust_file explicit d v h =
    choose_trust-Trusts host trust_file explicit d v _ _ refl refl (named_file _ _ h).1

with_stored-normal :
    (trust_file : String) (value : Runes)
    → IsNormal value
    → with_stored trust_file (ok value)
      ≡ ok
          (record { trust_file = trust_file; trusted = value; explicit = []; needs_update = false })
with_stored-normal trust_file [] n = absurd (omega (arith, n.full))
with_stored-normal trust_file (c ∷ cs) n = refl

-- Once a client has accepted a coordinator, a later client that is given no fingerprint trusts the
-- same one, and has nothing to store. The conditions are that the record can be read, and that the
-- hash has 32 bytes.
pub new_coordinator_client_config-verify_connection :
    (sha256 : Runes → Runes) (host : Host) (trust_file : String) (explicit : Runes)
    (certificates : List Runes) (d d' : Disk) (v v' : TrustVerifier)
    → ((raw : Runes) → IsHash (sha256 raw))
    → host.read trust_file ≡ none
    → new_coordinator_client_config host trust_file explicit d ≡ ok v
    → verify_connection sha256 host certificates v d ≡ (d', v', ok tt)
    → new_coordinator_client_config host trust_file [] d'
      ≡ ok (record {
        trust_file = trust_file;
        trusted = v.trusted;
        explicit = [];
        needs_update = false;
      })
unfolding new_coordinator_client_config
new_coordinator_client_config-verify_connection sha256 host trust_file explicit certificates d d' v
      v' hash reads h k =
    let t = new_coordinator_client_config-Trusts host trust_file explicit d v h in
    let a = verify_connection-Accepts sha256 host certificates v d d' v' hash k in
    let (named, _) =
      named_file (trust_file == "")
        (choose_trust trust_file (normalize_fingerprint explicit)
          (read_trust_record host trust_file d))
        h in
    let there : Records host trust_file d' v.trusted = elim (Bool-cases v.needs_update) [
      | inl update ↦
          written-Records host trust_file v.trusted d' t.normal reads
            (ap (λ f. lookup f d') (sym t.file) ∙ a.stored update)
      | inr quiet ↦ ap (read_trust_record host trust_file) (sym (a.unchanged quiet)) ∙ t.known quiet
    ] in
    rw (named, normalize_empty, there) (with_stored-normal trust_file v.trusted t.normal)
