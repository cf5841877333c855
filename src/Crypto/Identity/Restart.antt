-- ===== src/Crypto/Identity/Restart.antt =====
-- The identity that a start returns is the one that the next start returns.
use inoculum.Shared.{
  ◌≡◌, refl, sym, ap, ap₂, subst, ◌∙◌, String, ◌==◌, Bool, true, false, ◌||◌, none, some, lookup,
  Result as Fallible, ok, err, ◌⊎◌, inl, inr, if◌then◌else◌, arith, List, [], ◌∷◌, ok_inj,
}
use inoculum.Crypto.Fingerprint.{Runes}
use inoculum.Crypto.Disk.{Disk, Host, Action, pure, fail, wrapping}
use inoculum.Crypto.Disk.Keeping.{write_exclusive-KeepsFiles}
use inoculum.Crypto.Disk.Success.{
  bind-ok, bind_run, wrapping-ok, wrapping_run, read_file-ok, read_file_run, file_exists-ok,
  file_exists_run, write_exclusive-ok, fail_if-ok, fail_if_run,
}
use inoculum.Crypto.Identity.{
  Library, IdentityOptions, CoordinatorIdentity, IdentityError, load_identity, identity_of,
  pair_identity, leaf_identity, persist_identity, migrate, create, not_loaded, unless_current,
  load_or_create,
}

-- The identity as loadIdentity returns it.
abbrev pub at_rest : CoordinatorIdentity → CoordinatorIdentity
at_rest identity = record identity { created = false; migrated = false }

-- Both files are there, and together they are the identity.
pub record Stores (lib : Library) (cert key : String) (d : Disk) (identity : CoordinatorIdentity)
    : Type 0 where
  pub cert_pem : Runes
  pub key_pem : Runes
  pub cert_there : lookup cert d ≡ some cert_pem
  pub key_there : lookup key d ≡ some key_pem
  pub accepted : identity_of lib cert key cert_pem key_pem ≡ ok identity

load_identity-ok :
    (lib : Library) (host : Host) (cert key : String) (d : Disk) {d' : Disk}
    {identity : CoordinatorIdentity}
    → load_identity lib host cert key d ≡ (d', ok identity)
    → (d ≡ d') × Stores lib cert key d identity
unfolding load_identity
load_identity-ok lib host cert key d h =
    let (d₁, c, m₁, n₁) = bind-ok _ _ d h in
    let (e₁, fine₁, c_there) = read_file-ok host cert d (wrapping-ok _ _ d m₁) in
    let (d₂, k, m₂, n₂) = bind-ok _ _ d₁ n₁ in
    let (e₂, fine₂, k_there) = read_file-ok host key d₁ (wrapping-ok _ _ d₁ m₂) in
    (
      e₁ ∙ e₂ ∙ ap (λ p. p.0) n₂,
      record {
        cert_pem = c;
        key_pem = k;
        cert_there = c_there;
        key_there = ap (λ x. lookup key x) e₁ ∙ k_there;
        accepted = ap (λ p. p.1) n₂;
      },
    )

load_identity_run :
    (lib : Library) (host : Host) (cert key : String) (d : Disk) {identity : CoordinatorIdentity}
    → host.read cert ≡ none
    → host.read key ≡ none
    → Stores lib cert key d identity
    → load_identity lib host cert key d ≡ (d, ok identity)
unfolding load_identity
load_identity_run lib host cert key d r s st =
    bind_run _ _ d (wrapping_run _ _ d (read_file_run host cert d r st.cert_there)) (
      bind_run _ _ d (wrapping_run _ _ d (read_file_run host key d s st.key_there))
        (ap (λ x. (d, x)) st.accepted))

persist_identity-ok :
    (host : Host) (cert key : String) (cert_pem key_pem : Runes) (d : Disk) {d' : Disk}
    {u : Unit {0}}
    → persist_identity host cert key cert_pem key_pem d ≡ (d', ok u)
    → (lookup cert d' ≡ some cert_pem) × (lookup key d' ≡ some key_pem)
unfolding persist_identity
persist_identity-ok host cert key cert_pem key_pem d h =
    let (_, g) = fail_if-ok _ _ _ d h in
    let (d₁, _, _, n₁) = bind-ok _ _ d g in
    let (d₂, _, m₂, n₂) = bind-ok _ _ d₁ n₁ in
    let (_, key_there) = write_exclusive-ok host key key_pem d₁ (wrapping-ok _ _ d₁ m₂) in
    let wrote = wrapping-ok _ _ d₂ n₂ in
    let (_, cert_there) = write_exclusive-ok host cert cert_pem d₂ wrote in
    let kept = (write_exclusive-KeepsFiles host cert cert_pem).keeps d₂ key key_pem key_there in
    (cert_there, ap (λ p. lookup key p.0) (sym wrote) ∙ kept)

-- The same two contents under other names are the same identity, but for the names.
identity_of_renamed :
    (lib : Library) (cert key cert' key' : String) (c k : Runes) {identity : CoordinatorIdentity}
    → identity_of lib cert key c k ≡ ok identity
    → identity_of lib cert' key' c k
      ≡ ok (record (at_rest identity) { cert_file = cert'; key_file = key' })
unfolding identity_of
identity_of_renamed lib cert key cert' key' c k h = pair (lib.key_pair c k) h
  where
    leaf :
        (chain : List Runes) (r : Fallible String Runes) {identity : CoordinatorIdentity}
        → leaf_identity lib cert key chain r ≡ ok identity
        → leaf_identity lib cert' key' chain r
          ≡ ok (record (at_rest identity) { cert_file = cert'; key_file = key' })
    leaf chain (err e) h = absurd (ground (arith, h))
    leaf chain (ok raw) h = cc

    pair :
        (r : Fallible String (List Runes)) {identity : CoordinatorIdentity}
        → pair_identity lib cert key r ≡ ok identity
        → pair_identity lib cert' key' r
          ≡ ok (record (at_rest identity) { cert_file = cert'; key_file = key' })
    pair (err e) h = absurd (ground (arith, h))
    pair (ok []) h = absurd (ground (arith, h))
    pair (ok (x ∷ chain)) h = leaf (x ∷ chain) (lib.parse x) h

at_rest_self :
    (lib : Library) (cert key : String) (c k : Runes) {identity : CoordinatorIdentity}
    → identity_of lib cert key c k ≡ ok identity
    → at_rest identity ≡ identity
at_rest_self lib cert key c k h =
    let e = ok_inj (sym h ∙ identity_of_renamed lib cert key cert key c k h) in ap at_rest e ∙ sym e

abbrev Outcome : Type 0
Outcome = Disk × Fallible IdentityError CoordinatorIdentity

renamed-Stores :
    (lib : Library) (cert key cert' key' : String) (c k : Runes) (d : Disk) {d' : Disk}
    {legacy identity : CoordinatorIdentity}
    → identity_of lib cert key c k ≡ ok legacy
    → lookup cert' d ≡ some c
    → lookup key' d ≡ some k
    → ◌≡◌ {A = Outcome}
        (d, ok (record legacy { cert_file = cert'; key_file = key'; migrated = true }))
        (d', ok identity)
    → Stores lib cert' key' d' (at_rest identity)
renamed-Stores lib cert key cert' key' c k d {identity = identity} h cert_there key_there e =
    subst (λ x. Stores lib cert' key' x (at_rest identity)) (ap (λ p. p.0) e)
      (subst (λ x. Stores lib cert' key' d (at_rest x)) (ok_inj (ap (λ p. p.1) e))
        (record {
          cert_pem = c;
          key_pem = k;
          cert_there = cert_there;
          key_there = key_there;
          accepted = identity_of_renamed lib cert key cert' key' c k h;
        }))

some_inj : {A : Type 0} {a b : A} → some a ≡ some b → a ≡ b
some_inj h = cc

migrate-ok :
    (lib : Library) (host : Host) (o : IdentityOptions) (d : Disk) {d' : Disk}
    {identity : CoordinatorIdentity}
    → migrate lib host o d ≡ (d', ok identity)
    → Stores lib o.cert_file o.key_file d' (at_rest identity)
unfolding migrate pure
migrate-ok lib host o d h =
    let (d₁, legacy, m₁, n₁) = bind-ok _ _ d h in
    let (e₁, st) = load_identity-ok lib host _ _ d (wrapping-ok _ _ d m₁) in
    let (d₂, c, m₂, n₂) = bind-ok _ _ d₁ n₁ in
    let (e₂, _, c_there) = read_file-ok host _ d₁ (wrapping-ok _ _ d₁ m₂) in
    let (d₃, k, m₃, n₃) = bind-ok _ _ d₂ n₂ in
    let (e₃, _, k_there) = read_file-ok host _ d₂ (wrapping-ok _ _ d₂ m₃) in
    let (d₄, _, m₄, n₄) = bind-ok _ _ d₃ n₃ in
    let (cert_there, key_there) = persist_identity-ok host _ _ c k d₃ (wrapping-ok _ _ d₃ m₄) in
    let c_same =
      some_inj (sym st.cert_there ∙ ap (λ x. lookup o.legacy_cert_file x) e₁ ∙ c_there) in
    let k_same =
      some_inj (sym st.key_there ∙ ap (λ x. lookup o.legacy_key_file x) (e₁ ∙ e₂) ∙ k_there) in
    renamed-Stores lib o.legacy_cert_file o.legacy_key_file o.cert_file o.key_file c k d₄
      (ap₂ (identity_of lib _ _) (sym c_same) (sym k_same) ∙ st.accepted) cert_there key_there n₄

created-Stores :
    (lib : Library) (cert key : String) (d : Disk) {d' : Disk}
    {loaded identity : CoordinatorIdentity}
    → Stores lib cert key d loaded
    → ◌≡◌ {A = Outcome} (d, ok (record loaded { created = true })) (d', ok identity)
    → Stores lib cert key d' (at_rest identity)
created-Stores lib cert key d {loaded = loaded} {identity = identity} st e =
    subst (λ x. Stores lib cert key x (at_rest identity)) (ap (λ p. p.0) e)
      (subst (λ x. Stores lib cert key d (at_rest x)) (ok_inj (ap (λ p. p.1) e))
        (subst (λ x. Stores lib cert key d x)
          (sym (at_rest_self lib cert key st.cert_pem st.key_pem st.accepted)) st))

create-ok :
    (lib : Library) (host : Host) (o : IdentityOptions)
    (generated : Fallible String (Runes × Runes)) (d : Disk) {d' : Disk}
    {identity : CoordinatorIdentity}
    → create lib host o generated d ≡ (d', ok identity)
    → Stores lib o.cert_file o.key_file d' (at_rest identity)
unfolding create pure fail
create-ok lib host o (err e) d h = absurd (ground (arith, h))
create-ok lib host o (ok (c, k)) d h =
    let (d₁, _, m₁, n₁) = bind-ok _ _ d h in
    let (d₂, loaded, m₂, n₂) = bind-ok _ _ d₁ n₁ in
    let (e₂, st) = load_identity-ok lib host _ _ d₁ (wrapping-ok _ _ d₁ m₂) in
    created-Stores lib o.cert_file o.key_file d₂
      (subst (λ x. Stores lib o.cert_file o.key_file x loaded) e₂ st) n₂

if-ok :
    {E A : Type 0} (b : Bool) (m n : Action E A) (d : Disk) {d' : Disk} {a : A}
    → (if b then m else n) d ≡ (d', ok a)
    → ((b ≡ true) × (m d ≡ (d', ok a))) ⊎ (n d ≡ (d', ok a))
if-ok true m n d h = inl (refl, h)
if-ok false m n d h = inr h

unless_current-ok :
    (lib : Library) (host : Host) (o : IdentityOptions)
    (generated : Fallible String (Runes × Runes)) (d : Disk) {d' : Disk}
    {identity : CoordinatorIdentity}
    → unless_current lib host o generated d ≡ (d', ok identity)
    → Stores lib o.cert_file o.key_file d' (at_rest identity)
unfolding unless_current
unless_current-ok lib host o generated d h =
    let (d₁, there, m₁, n₁) = bind-ok _ _ d h in
    let (d₂, _, m₂, n₂) = bind-ok _ _ d₁ n₁ in
    let (_, rest) = fail_if-ok _ _ _ d₂ n₂ in
    elim (if-ok there (migrate lib host o) (create lib host o generated) d₂ rest) [
      | inl (_, migrates) ↦ migrate-ok lib host o d₂ migrates
      | inr creates ↦ create-ok lib host o generated d₂ creates
    ]

loaded-Stores :
    (lib : Library) (host : Host) (o : IdentityOptions) (d : Disk) {d' : Disk}
    {identity : CoordinatorIdentity}
    → load_identity lib host o.cert_file o.key_file d ≡ (d', ok identity)
    → Stores lib o.cert_file o.key_file d' (at_rest identity)
loaded-Stores lib host o d {identity = identity} h =
    let (e, st) = load_identity-ok lib host _ _ d h in
    let rest = at_rest_self lib _ _ st.cert_pem st.key_pem st.accepted in
    subst (λ x. Stores lib o.cert_file o.key_file x (at_rest identity)) e
      (subst (λ x. Stores lib o.cert_file o.key_file d x) (sym rest) st)

-- What a start that returns an identity shows of its options, of the system and of the files.
record Started (lib : Library) (host : Host) (o : IdentityOptions) (d : Disk)
    (identity : CoordinatorIdentity) : Type 0 where
  named : (o.cert_file == "" || o.key_file == "") ≡ false
  cert_stat : host.stat o.cert_file ≡ none
  key_stat : host.stat o.key_file ≡ none
  stores : Stores lib o.cert_file o.key_file d (at_rest identity)

load_or_create-Started :
    (lib : Library) (host : Host) (o : IdentityOptions)
    (generated : Fallible String (Runes × Runes)) (d : Disk) {d' : Disk}
    {identity : CoordinatorIdentity}
    → load_or_create lib host o generated d ≡ (d', ok identity)
    → Started lib host o d' identity
unfolding load_or_create
load_or_create-Started lib host o generated d h =
    let (named, n₀) = fail_if-ok _ _ _ d h in
    let (d₁, there, m₁, n₁) = bind-ok _ _ d n₀ in
    let (_, cert_stat, _) = file_exists-ok host _ d (wrapping-ok _ _ d m₁) in
    let (d₂, _, m₂, n₂) = bind-ok _ _ d₁ n₁ in
    let (_, key_stat, _) = file_exists-ok host _ d₁ (wrapping-ok _ _ d₁ m₂) in
    let (_, rest) = fail_if-ok _ _ _ d₂ n₂ in
    let current = wrapping not_loaded (load_identity lib host o.cert_file o.key_file) in
    record {
      named = named;
      cert_stat = cert_stat;
      key_stat = key_stat;
      stores = elim (if-ok there current (unless_current lib host o generated) d₂ rest) [
        | inl (_, loads) ↦ loaded-Stores lib host o d₂ (wrapping-ok _ _ d₂ loads)
        | inr makes ↦ unless_current-ok lib host o generated d₂ makes
      ];
    }

-- Where the coordinator has started with an identity, loaded, migrated or new, every later start
-- over the same files returns that identity, as one that is loaded, and writes nothing; whatever
-- certificate it could have generated. The condition is that the two files can be read.
pub load_or_create-again :
    (lib : Library) (host : Host) (o : IdentityOptions)
    (generated later : Fallible String (Runes × Runes)) (d d' : Disk)
    (identity : CoordinatorIdentity)
    → host.read o.cert_file ≡ none
    → host.read o.key_file ≡ none
    → load_or_create lib host o generated d ≡ (d', ok identity)
    → load_or_create lib host o later d' ≡ (d', ok (at_rest identity))
unfolding load_or_create
load_or_create-again lib host o generated later d d' identity reads_cert reads_key h =
    let s = load_or_create-Started lib host o generated d h in
    let cert = file_exists_run host _ d' s.cert_stat s.stores.cert_there in
    let key = file_exists_run host _ d' s.key_stat s.stores.key_there in
    let loads = load_identity_run lib host _ _ d' reads_cert reads_key s.stores in
    fail_if_run _ _ _ d' s.named (
      bind_run _ _ d' (wrapping_run _ _ d' cert) (
        bind_run _ _ d' (wrapping_run _ _ d' key)
          (fail_if_run _ _ _ d' refl (wrapping_run _ _ d' loads))))
