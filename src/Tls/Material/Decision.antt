-- ===== src/Tls/Material/Decision.antt =====
-- The decision of skywalking/utils/tls.py between plaintext, TLS and mutual TLS, whatever the files do
-- while it is made.
use skywalking_python.Prelude.{
  ◌≡◌, refl, Bool, true, false, ◌&&◌, ◌||◌, not, Option, none, some, arith, if◌then◌else◌, Text,
  is_empty, is_some, sym, ◌∙◌,
}
use skywalking_python.Tls.Env.{
  Fault, Outcome, done, raised, is_os_value, Config, Material, Host, State, pure, raise, ◌>>◌, warn,
  ca_forced, ca_plain, configured_path, ssl_file_path,
}
use skywalking_python.Tls.Temp.{every_fault}
use skywalking_python.Tls.Outcomes.{
  Ends, Clean, >>=-Ends, catch-Ends, if-Ends, pure-Ends, ssl_file_path-Clean,
}
use skywalking_python.Tls.Material.{
  mtls_material, material_of, no_material, load_failed, with_loaded, load_trusted_ca, try_ca,
  from_ca_path, tls_pem_material, collector_uses_tls, safe_tls_pem_material, find_ca, warn_missing,
  system_trust,
}
use skywalking_python.Tls.Material.Identity.{
  IsWhole, IsNobody, Quiet, quiet-Ends, warned-Ends, warn_once-Quiet, IdentityFits,
  mtls_material-Fits,
}

-- What is decided fits the options: plaintext only unless TLS is forced, TLS only if it is forced or
-- there are trusted roots, and a client's identity whole, and only beside trusted roots.
abbrev pub Fits : Bool → Option Material → Type 0
Fits force none = force ≡ false
Fits force (some m) =
    ((force || is_some m.root_certificates) ≡ true)
    × (is_some m.certificate_chain ≡ is_some m.private_key)
    × (is_some m.private_key ≡ true → is_some m.root_certificates ≡ true)

abbrev pub IsDecided : Bool → Outcome (Option Material) → Type 0
IsDecided force (done o) = Fits force o
IsDecided force (raised e) = is_os_value e ≡ false

module _ (h : Host) (c : Config) where
  material_of-IsDecided :
      (root : Option Text)
      → (c.agent_force_tls || is_some root) ≡ true
      → Ends (IsDecided c.agent_force_tls) (material_of h c root)
  unfolding material_of IdentityFits
  material_of-IsDecided none forced =
      >>=-Ends IsNobody (IsDecided c.agent_force_tls) (mtls_material h c false) _
        (mtls_material-Fits h c false) (λ e q. q)
        (λ (chain, key) q.
          pure-Ends (IsDecided c.agent_force_tls) _
            (forced, q.0 ∙ sym q.1, λ (has : is_some key ≡ true). cc (q.1, has)))
  material_of-IsDecided (some root) usable =
      >>=-Ends IsWhole (IsDecided c.agent_force_tls) (mtls_material h c true) _
        (mtls_material-Fits h c true) (λ e q. q)
        (λ (chain, key) q.
          pure-Ends (IsDecided c.agent_force_tls) _ (usable, q, λ (has : is_some key ≡ true). refl))

  no_material-IsDecided :
      c.agent_force_tls ≡ false → Ends (IsDecided c.agent_force_tls) (no_material h c)
  unfolding no_material IdentityFits
  no_material-IsDecided plain =
      >>=-Ends IsNobody (IsDecided c.agent_force_tls) (mtls_material h c false) (λ _. pure none)
        (mtls_material-Fits h c false) (λ e q. q)
        (λ identity q. pure-Ends (IsDecided c.agent_force_tls) none plain)

  load_failed-IsDecided : (e : Fault) → Ends (IsDecided c.agent_force_tls) (load_failed h c e)
  unfolding load_failed
  load_failed-IsDecided e =
      if-Ends (IsDecided c.agent_force_tls) c.agent_force_tls
        (warn (ca_forced e) >> material_of h c none) (warn (ca_plain e) >> no_material h c)
        (λ forced.
          warned-Ends (IsDecided c.agent_force_tls) (ca_forced e) (material_of h c none)
            (material_of-IsDecided none (ground arith)))
        (λ plain.
          warned-Ends (IsDecided c.agent_force_tls) (ca_plain e) (no_material h c)
            (no_material-IsDecided plain))

  with_loaded-IsDecided :
      (r : Outcome Text) → Ends (IsDecided c.agent_force_tls) (with_loaded h c r)
  unfolding with_loaded
  with_loaded-IsDecided (done root) = material_of-IsDecided (some root) (ground arith)
  with_loaded-IsDecided (raised e) =
      if-Ends (IsDecided c.agent_force_tls) (is_os_value e) (load_failed h c e) (raise e)
        (λ _. load_failed-IsDecided e) (λ left. record { at = λ s. left })

  from_ca_path-IsDecided :
      (o : Option Text) → Ends (IsDecided c.agent_force_tls) (from_ca_path h c o)
  unfolding from_ca_path try_ca
  from_ca_path-IsDecided none =
      if-Ends (IsDecided c.agent_force_tls) c.agent_force_tls (material_of h c none)
        (no_material h c) (λ forced. material_of-IsDecided none (ground arith))
        no_material-IsDecided
  from_ca_path-IsDecided (some path) = record {
    at = λ s.
        let loaded : Outcome Text × State = load_trusted_ca h c path s in
        (with_loaded-IsDecided loaded.0).at loaded.1;
  }

  find_ca-Clean : (cfg : Text) → Ends Clean (find_ca h c cfg)
  unfolding find_ca
  find_ca-Clean cfg =
      if-Ends Clean (is_empty cfg) (pure none) (ssl_file_path h cfg) (λ _. pure-Ends Clean none tt)
        (λ _. ssl_file_path-Clean h cfg)

  collector_uses_tls-Clean : Ends Clean (collector_uses_tls h c)
  unfolding collector_uses_tls warn_missing
  collector_uses_tls-Clean =
      let cfg : Text = configured_path h c.agent_ssl_trusted_ca_path in
      >>=-Ends Clean Clean (find_ca h c cfg) _ (find_ca-Clean cfg) (λ e q. q)
        (λ ca_path _.
          let missing : Bool = not (is_empty cfg) && not (is_some ca_path) in
          quiet-Ends Clean (if missing then warn_missing h c cfg else pure tt)
            (pure (c.agent_force_tls || is_some ca_path))
            (if-Ends Quiet missing (warn_missing h c cfg) (pure tt) (λ _. warn_once-Quiet _ _)
              (λ _. pure-Ends Quiet tt tt))
            (pure-Ends Clean _ tt))

  pub tls_pem_material-Ends : Ends (IsDecided c.agent_force_tls) (tls_pem_material h c)
  unfolding tls_pem_material
  tls_pem_material-Ends =
      >>=-Ends Clean (IsDecided c.agent_force_tls) (collector_uses_tls h c) _
        collector_uses_tls-Clean (λ e q. q)
        (λ _ _.
          >>=-Ends Clean (IsDecided c.agent_force_tls) (ssl_file_path h c.agent_ssl_trusted_ca_path)
            (λ ca_path. from_ca_path h c ca_path)
            (ssl_file_path-Clean h c.agent_ssl_trusted_ca_path) (λ e q. q)
            (λ ca_path _. from_ca_path-IsDecided ca_path))

  -- Nothing is raised, and what is returned fits.
  abbrev pub IsSafe : Outcome (Option Material) → Type 0
  IsSafe (done o) = Fits c.agent_force_tls o
  IsSafe (raised e) = ⊥

  fallback-Fits : (force : Bool) → Fits force (if force then some system_trust else none)
  fallback-Fits true = (refl, refl, λ (has : false ≡ true). cc has)
  fallback-Fits false = refl

  pub safe_tls_pem_material-Ends : Ends IsSafe (safe_tls_pem_material h c)
  unfolding safe_tls_pem_material
  safe_tls_pem_material-Ends =
      catch-Ends IsSafe (IsDecided c.agent_force_tls) (tls_pem_material h c) every_fault _
        tls_pem_material-Ends (λ o q. q) (λ e left. cc left)
        (λ e.
          quiet-Ends IsSafe _ (pure _) (warn_once-Quiet _ _)
            (pure-Ends IsSafe _ (fallback-Fits c.agent_force_tls)))

  -- From any state, however the files change between the calls of the host: `tls_pem_material` returns
  -- none only if TLS is not forced; if it returns some material, TLS is forced or trusted roots were
  -- loaded, a client's certificate and key come together, and only with such roots; and it raises
  -- neither `OSError` nor `ValueError`. `safe_tls_pem_material` returns such, and raises nothing.
  pub tls_pem_material-IsDecided :
      (s : State)
      → IsDecided c.agent_force_tls (tls_pem_material h c s).0
        × IsSafe (safe_tls_pem_material h c s).0
  tls_pem_material-IsDecided s = (tls_pem_material-Ends.at s, safe_tls_pem_material-Ends.at s)
