-- ===== src/Crypto/Trust/Accepting.antt =====
-- Which coordinators a client accepts, and what it stores of them.
use inoculum.Shared.{
  ℕ, ◌≡◌, ◌≢◌, refl, sym, ap, ◌∙◌, String, Bool, true, false, ◌⊎◌, not, Option, none, some, List,
  [], ◌∷◌, ◌++◌, if◌then◌else◌, Bool-cases, inl, inr, arith, Result as Fallible, ok, err, lookup,
  insert, lookup-insert, eq_refl,
}
use inoculum.Crypto.Fingerprint.{
  Runes, normalize_fingerprint, format_fingerprint, fingerprint, hex_upper,
}
use inoculum.Crypto.Fingerprint.Forms.{
  IsNormal, IsHash, normalize-fingerprint, normalize-trim-format,
}
use inoculum.Crypto.Disk.{Disk, Host}
use inoculum.Crypto.Disk.Success.{bind-ok, read_file_run}
use inoculum.Crypto.Trust.{
  same_runes, TrustVerifier, record_of, record_answer, read_trust_record, write_trust_record,
  save_open, SaveError, VerifyError, value_of, saved, verify_connection, identity_mismatch,
  no_certificate,
}

pub same_runes_iff_to : (cs ds : Runes) → same_runes cs ds ≡ true → cs ≡ ds
same_runes_iff_to [] [] h = refl
same_runes_iff_to [] (d ∷ ds) h = absurd (ground arith)
same_runes_iff_to (c ∷ cs) [] h = absurd (ground arith)
same_runes_iff_to (c ∷ cs) (d ∷ ds) h = ground (arith, same_runes_iff_to cs ds)

pub same_runes_refl : (cs : Runes) → same_runes cs cs ≡ true
same_runes_refl [] = refl
same_runes_refl (c ∷ cs) = ground (arith, same_runes_refl cs)

-- The digits of the peer's certificate, as the verifier compares them.
presented_value :
    (sha256 : Runes → Runes) (raw : Runes)
    → IsHash (sha256 raw)
    → value_of (normalize_fingerprint (fingerprint sha256 raw)) ≡ hex_upper (sha256 raw)
presented_value sha256 raw h = ap value_of (normalize-fingerprint sha256 raw h)

save_open-ok :
    (mode : Option String) (wrote : Option (ℕ × String)) (synced closed : Option String)
    (path : String) (content : Runes) (d : Disk) {d' : Disk} {u : Unit {0}}
    → save_open mode wrote synced closed path content d ≡ (d', ok u)
    → insert path content d ≡ d'
save_open-ok (some e) wrote synced closed path content d h = absurd (ground (arith, h))
save_open-ok none (some (n, e)) synced closed path content d h = absurd (ground (arith, h))
save_open-ok none none (some e) closed path content d h = absurd (ground (arith, h))
save_open-ok none none none (some e) path content d h = absurd (ground (arith, h))
save_open-ok none none none none path content d h = ap (λ p. p.0) h

write_trust_record-ok :
    (host : Host) (path : String) (text : Runes) (d : Disk) {d' : Disk} {u : Unit {0}}
    → write_trust_record host path text d ≡ (d', ok u)
    → lookup path d' ≡ some (text ++ b'\n' ∷ [])
unfolding write_trust_record
write_trust_record-ok host path text d h =
    let (d₁, _, _, n₁) = bind-ok _ _ d h in
    let (d₂, _, _, n₂) = bind-ok _ _ d₁ n₁ in
    let puts = save_open-ok (host.chmod path) (host.write path) _ _ path _ d₂ n₂ in
    ap (lookup path) (sym puts)
    ∙ lookup-insert path path (text ++ b'\n' ∷ []) d₂
    ∙ rw (eq_refl path) refl

-- A record with these digits.
abbrev pub Records : Host → String → Disk → Runes → Type 0
Records host path d value = read_trust_record host path d ≡ ok value

record_of-normal :
    (path : String) (value : Runes) → IsNormal value → record_of path (ok value) ≡ ok value
record_of-normal path [] n = absurd (omega (arith, n.full))
record_of-normal path (c ∷ cs) n = refl

pub written-Records :
    (host : Host) (path : String) (value : Runes) (d : Disk)
    → IsNormal value
    → host.read path ≡ none
    → lookup path d ≡ some (format_fingerprint value ++ b'\n' ∷ [])
    → Records host path d value
unfolding read_trust_record
written-Records host path value d n reads there =
    ap (λ r. record_answer path r.1) (read_file_run host path d reads there)
    ∙ ap (record_of path) (normalize-trim-format value n)
    ∙ record_of-normal path value n

-- What a verifier that accepts its peer has checked, and what it has stored.
pub record Accepts (sha256 : Runes → Runes) (certificates : List Runes) (v : TrustVerifier)
    (d d' : Disk) (v' : TrustVerifier) : Type 0 where
  pub leaf : Runes
  pub chain : List Runes
  pub presented : certificates ≡ leaf ∷ chain
  pub matches : hex_upper (sha256 leaf) ≡ v.trusted
  pub verifier : record v { needs_update = false } ≡ v'
  pub unchanged : v.needs_update ≡ false → d ≡ d'
  pub stored :
      v.needs_update ≡ true
      → lookup v.trust_file d' ≡ some (format_fingerprint v.trusted ++ b'\n' ∷ [])

saved-ok :
    (v : TrustVerifier) (r : Disk × Fallible SaveError (Unit {0})) {d' : Disk} {v' : TrustVerifier}
    {u : Unit {0}}
    → saved v r ≡ (d', v', ok u)
    → (r ≡ (d', ok tt)) × (record v { needs_update = false } ≡ v')
saved-ok v (d, err e) h = absurd (ground (arith, h))
saved-ok v (d, ok tt) h = (ap (λ p. (p.0, ok tt)) h, ap (λ p. p.1) h)

-- The verifier's two tests, once the peer has a certificate.
abbrev tested :
    Bool
    → Bool
    → TrustVerifier
    → Disk
    → VerifyError
    → Disk × Fallible SaveError (Unit {0})
    → Disk × TrustVerifier × Fallible VerifyError (Unit {0})
tested same update v d e saves =
    if not same then (d, v, err e) else if update then saved v saves else (d, v, ok tt)

tested-ok :
    (same update : Bool) (v : TrustVerifier) (d : Disk) (e : VerifyError)
    (saves : Disk × Fallible SaveError (Unit {0})) {d' : Disk} {v' : TrustVerifier} {u : Unit {0}}
    → tested same update v d e saves ≡ (d', v', ok u)
    → (same ≡ true)
      × (((update ≡ true) × (saves ≡ (d', ok tt)) × (record v { needs_update = false } ≡ v'))
          ⊎ ((update ≡ false) × (d ≡ d') × (v ≡ v')))
tested-ok false update v d e saves h = absurd (ground (arith, h))
tested-ok true true v d e saves h = let (s, w) = saved-ok v saves h in (refl, inl (refl, s, w))
tested-ok true false v d e saves h = (refl, inr (refl, ap (λ p. p.0) h, ap (λ p. p.1) h))

-- A client goes on with a connection only if the first certificate of its peer has the trusted
-- fingerprint: the digits of the certificate's hash are the trusted digits. It then needs no update
-- any more; if it needed one, the trust record holds the fingerprint, and if not, no file has
-- changed. The condition is that the hash has 32 bytes.
pub verify_connection-Accepts :
    (sha256 : Runes → Runes) (host : Host) (certificates : List Runes) (v : TrustVerifier)
    (d d' : Disk) (v' : TrustVerifier)
    → ((raw : Runes) → IsHash (sha256 raw))
    → verify_connection sha256 host certificates v d ≡ (d', v', ok tt)
    → Accepts sha256 certificates v d d' v'
unfolding verify_connection
verify_connection-Accepts sha256 host [] v d d' v' hash h = absurd (ground (arith, h))
verify_connection-Accepts sha256 host (leaf ∷ chain) v d d' v' hash h =
    let value = value_of (normalize_fingerprint (fingerprint sha256 leaf)) in
    let (same, ways) =
      tested-ok (same_runes value v.trusted) v.needs_update v d _
        (write_trust_record host v.trust_file (format_fingerprint v.trusted) d) h in
    record {
      leaf = leaf;
      chain = chain;
      presented = refl;
      matches =
          sym (presented_value sha256 leaf (hash leaf)) ∙ same_runes_iff_to value v.trusted same;
      verifier = elim ways [
        | inl (_, _, e) ↦ e
        | inr (quiet, _, e) ↦ ap (λ b. record v { needs_update = b }) (sym quiet) ∙ e
      ];
      unchanged = λ q. elim ways [
        | inl (update, _, _) ↦ absurd (ground (arith, q, update))
        | inr (_, e, _) ↦ e
      ];
      stored = λ q. elim ways [
        | inl (_, saves, _) ↦ write_trust_record-ok host v.trust_file _ d saves
        | inr (quiet, _, _) ↦ absurd (ground (arith, q, quiet))
      ];
    }

-- A peer whose first certificate has another fingerprint is refused, and so is one without a
-- certificate. Nothing is written then, and the client trusts what it trusted before.
pub verify_connection-refuses :
    (sha256 : Runes → Runes) (host : Host) (certificates : List Runes) (v : TrustVerifier)
    (d : Disk)
    → ((raw : Runes) → IsHash (sha256 raw))
    → ((leaf : Runes) (chain : List Runes)
        → certificates ≡ leaf ∷ chain
        → hex_upper (sha256 leaf) ≢ v.trusted)
    → (e : VerifyError) × (verify_connection sha256 host certificates v d ≡ (d, v, err e))
unfolding verify_connection
verify_connection-refuses sha256 host [] v d hash other = (no_certificate, refl)
verify_connection-refuses sha256 host (leaf ∷ chain) v d hash other =
    let value = value_of (normalize_fingerprint (fingerprint sha256 leaf)) in
    elim (Bool-cases (same_runes value v.trusted)) [
      | inr differ ↦ (
        identity_mismatch (format_fingerprint v.trusted) (fingerprint sha256 leaf),
        rw differ refl,
      )
      | inl same ↦ absurd (
          other leaf chain refl (
            sym (presented_value sha256 leaf (hash leaf)) ∙ same_runes_iff_to value v.trusted same))
    ]
