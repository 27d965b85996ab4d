-- ===== src/Tls/Material/Identity.antt =====
-- The client's identity in skywalking/utils/tls.py: whole, and only beside trusted roots.
use skywalking_python.Prelude.{
  ◌≡◌, refl, Bool, true, false, ◌||◌, not, Option, none, some, if◌then◌else◌, Text, is_empty,
  is_some, codes, sym, ◌∙◌,
}
use skywalking_python.Tls.Env.{
  Fault, Outcome, done, raised, is_os_value, Config, Host, Exec, pure, ◌>>=◌, ◌>>◌, Warning, warn,
  warn_once, mtls_without_ca, mtls_partial, mtls_not_found, mtls_unreadable, ssl_file_path,
}
use skywalking_python.Tls.Pem.{normalize_private_key_pem}
use skywalking_python.Tls.Temp.{validate_client_cert_key}
use skywalking_python.Tls.Outcomes.{
  Ends, Clean, Anything, >>=-Ends, catch-Ends, if-Ends, pure-Ends, all-Anything,
  ssl_file_path-Clean,
}
use skywalking_python.Tls.Material.{
  Identity, mtls_key, read_both, read_bytes, lift, read_identity, identity_from, without_ca,
  with_ca, mtls_material,
}

-- Both parts of an identity, or neither; and neither at all.
abbrev pub IsWhole : Outcome Identity → Type 0
IsWhole (done (chain, key)) = is_some chain ≡ is_some key
IsWhole (raised e) = is_os_value e ≡ false

abbrev Both : Outcome Identity → Type 0
Both (done (chain, key)) = is_some chain ≡ is_some key
Both (raised e) = Unit

abbrev pub IsNobody : Outcome Identity → Type 0
IsNobody (done (chain, key)) = (is_some chain ≡ false) × (is_some key ≡ false)
IsNobody (raised e) = is_os_value e ≡ false

-- Nothing is raised.
abbrev pub Quiet : Outcome (Unit {0}) → Type 0
Quiet (done _) = Unit
Quiet (raised e) = ⊥

pub quiet-Ends :
    {A : Type 0} (P : Outcome A → Type 0) (m : Exec (Unit {0})) (k : Exec A)
    → Ends Quiet m
    → Ends P k
    → Ends P (m >> k)
quiet-Ends P m k first next = >>=-Ends Quiet P m (λ _. k) first (λ e q. absurd q) (λ _ _. next)

after :
    {A B : Type 0} (P : Outcome B → Type 0) (m : Exec A) (k : A → Exec B)
    → ((e : Fault) → P (raised e))
    → ((a : A) → Ends P (k a))
    → Ends P (m >>= k)
after P m k fails next = >>=-Ends Anything P m k (all-Anything m) (λ e _. fails e) (λ a _. next a)

pub warned-Ends :
    {A : Type 0} (P : Outcome A → Type 0) (w : Warning) (k : Exec A)
    → Ends P k
    → Ends P (warn w >> k)
warned-Ends P w k next = quiet-Ends P (warn w) k (record { at = λ s. tt }) next

pub warn_once-Quiet : (key : Text) (w : Warning) → Ends Quiet (warn_once key w)
unfolding warn_once
warn_once-Quiet key w = record { at = λ s. tt }

nobody-IsWhole : (r : Outcome Identity) → IsNobody r → IsWhole r
nobody-IsWhole (done (chain, key)) h = h.0 ∙ sym h.1
nobody-IsWhole (raised e) h = h

-- Without usable roots there is no identity; with them it is whole.
unfoldable pub IdentityFits : Bool → Outcome Identity → Type 0
IdentityFits true = IsWhole
IdentityFits false = IsNobody

module _ (h : Host) (c : Config) where
  without_ca-IsNobody : (cert key : Text) → Ends IsNobody (without_ca h c cert key)
  unfolding without_ca
  without_ca-IsNobody cert key =
      let say : Exec (Unit {0}) =
        warn_once (mtls_key h c (codes "mtls-without-ca:") cert key) mtls_without_ca in
      quiet-Ends IsNobody (if not (is_empty cert) || not (is_empty key) then say else pure tt)
        (pure (none, none))
        (if-Ends Quiet (not (is_empty cert) || not (is_empty key)) say (pure tt)
          (λ _. warn_once-Quiet _ mtls_without_ca) (λ _. pure-Ends Quiet tt tt))
        (pure-Ends IsNobody (none, none) (refl, refl))

  read_both-Both : (cert_path key_path : Text) → Ends Both (read_both h c cert_path key_path)
  unfolding read_both
  read_both-Both cert_path key_path =
      after Both (read_bytes h c cert_path) _ (λ e. tt)
        (λ cert.
          after Both (read_bytes h c key_path) _ (λ e. tt)
            (λ raw.
              after Both (lift (normalize_private_key_pem h raw)) _ (λ e. tt)
                (λ key.
                  after Both (validate_client_cert_key h cert key) (λ _. pure (some cert, some key))
                    (λ e. tt) (λ _. pure-Ends Both (some cert, some key) refl))))

  read_identity-IsWhole :
      (cert_path key_path : Text) → Ends IsWhole (read_identity h c cert_path key_path)
  unfolding read_identity
  read_identity-IsWhole cert_path key_path =
      catch-Ends IsWhole Both (read_both h c cert_path key_path) is_os_value
        (λ e. warn (mtls_unreadable e) >> pure (none, none)) (read_both-Both cert_path key_path)
        (λ (chain, key) q. q) (λ e left. left)
        (λ e.
          warned-Ends IsWhole (mtls_unreadable e) (pure (none, none))
            (pure-Ends IsWhole (none, none) refl))

  identity_from-IsWhole :
      (cert_path key_path : Option Text) → Ends IsWhole (identity_from h c cert_path key_path)
  unfolding identity_from
  identity_from-IsWhole (some cert_path) (some key_path) = read_identity-IsWhole cert_path key_path
  identity_from-IsWhole none key_path =
      warned-Ends IsWhole mtls_not_found (pure (none, none)) (pure-Ends IsWhole (none, none) refl)
  identity_from-IsWhole (some cert_path) none =
      warned-Ends IsWhole mtls_not_found (pure (none, none)) (pure-Ends IsWhole (none, none) refl)

  with_ca-IsWhole : (cert key : Text) → Ends IsWhole (with_ca h c cert key)
  unfolding with_ca
  with_ca-IsWhole cert key =
      let nobody : Exec Identity = pure (none, none) in
      let partial : Exec (Unit {0}) =
        warn_once (mtls_key h c (codes "mtls-partial:") cert key) mtls_partial in
      let one : Exec Identity = partial >> nobody in
      let rest : Option Text → Exec Identity =
        λ cert_path. ssl_file_path h key >>= λ key_path. identity_from h c cert_path key_path in
      let both : Exec Identity = ssl_file_path h cert >>= rest in
      let none_whole : Ends IsWhole nobody = pure-Ends IsWhole (none, none) refl in
      let one_whole : Ends IsWhole one =
        quiet-Ends IsWhole partial nobody (warn_once-Quiet _ mtls_partial) none_whole in
      let both_whole : Ends IsWhole both =
        >>=-Ends Clean IsWhole (ssl_file_path h cert) rest (ssl_file_path-Clean h cert) (λ e q. q)
          (λ cert_path _.
            >>=-Ends Clean IsWhole (ssl_file_path h key)
              (λ key_path. identity_from h c cert_path key_path) (ssl_file_path-Clean h key)
              (λ e q. q) (λ key_path _. identity_from-IsWhole cert_path key_path)) in
      if-Ends IsWhole (is_empty cert) (if is_empty key then nobody else one)
        (if is_empty key then one else both)
        (λ _. if-Ends IsWhole (is_empty key) nobody one (λ _. none_whole) (λ _. one_whole))
        (λ _. if-Ends IsWhole (is_empty key) one both (λ _. one_whole) (λ _. both_whole))

  pub mtls_material-Fits : (usable : Bool) → Ends (IdentityFits usable) (mtls_material h c usable)
  unfolding mtls_material IdentityFits
  mtls_material-Fits true = with_ca-IsWhole _ _
  mtls_material-Fits false = without_ca-IsNobody _ _
