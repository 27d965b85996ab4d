-- ===== src/Tls/Material.antt =====
-- skywalking/utils/tls.py: what key material is used, by the options and the files that they name.
pub mod Identity
pub mod Decision
use skywalking_python.Prelude.{
  ℕ, Bool, true, false, ◌&&◌, ◌||◌, not, Option, none, some, List, [], ◌∷◌, ◌++◌, if◌then◌else◌,
  ltb, Text, codes, is_empty, is_some,
}
use skywalking_python.Prelude.Decimal.{decimal}
use skywalking_python.Tls.Env.{
  Fault, value_error, os_error, Outcome, done, raised, message, is_os, is_os_value, Config,
  Material, Host, State, Exec, pure, raise, ask, catch, modify, ◌>>=◌, ◌>>◌, warn, warn_once,
  ca_ignored, ca_disabled, ca_forced, ca_plain, mtls_without_ca, mtls_partial, mtls_not_found,
  mtls_unreadable, material_failed, configured_path, ssl_file_path, max_pem_bytes,
}
use skywalking_python.Tls.Pem.{normalize_private_key_pem, extract_ca_pem_blocks}
use skywalking_python.Tls.Temp.{every_fault, validate_client_cert_key}

abbrev pub lift : {A : Type 0} → Outcome A → Exec A
lift r s = (r, s)

abbrev pub oversized : Text → ℕ → Text
oversized path size =
    codes "SSL PEM file exceeds "
    ++ (decimal max_pem_bytes
        ++ (codes " bytes: " ++ (path ++ (codes " (" ++ (decimal size ++ codes " bytes)")))))

-- A client's certificate chain and private key, or neither.
abbrev pub Identity : Type 0
Identity = Option Text × Option Text

-- The trust store of the process, and no identity.
abbrev pub system_trust : Material
system_trust = record { root_certificates = none; private_key = none; certificate_chain = none }

module _ (h : Host) (c : Config) where
  -- `_read_bytes`
  unfoldable pub read_bytes : Text → Exec Text
  read_bytes path = do
    size ← ask (λ n. h.getsize n path)
    if ltb max_pem_bytes size
        then raise (value_error (oversized path size))
        else ask (λ n. h.read_bytes n path)

  -- `ssl.create_default_context(cafile=…)`, an `OSError` of which becomes a `ValueError`
  unfoldable pub parse_ca : Text → Exec (Unit {0})
  parse_ca path = catch (ask (λ n. h.accepts_cafile n path)) is_os (λ e.
      raise (value_error (codes "Invalid trusted CA PEM " ++ (path ++ (codes ": " ++ message e)))))

  -- `_load_trusted_ca`
  unfoldable pub load_trusted_ca : Text → Exec Text
  unfolding read_bytes parse_ca extract_ca_pem_blocks
  load_trusted_ca path = do
    bytes ← read_bytes path
    parse_ca path
    lift (extract_ca_pem_blocks h bytes)

  -- The path of the option, if one is set, and what it leads to.
  unfoldable pub find_ca : Text → Exec (Option Text)
  unfolding ssl_file_path
  find_ca ca_cfg = if is_empty ca_cfg then pure none else ssl_file_path h ca_cfg

  unfoldable pub warn_missing : Text → Exec (Unit {0})
  unfolding warn_once
  warn_missing ca_cfg =
      warn_once (codes "ca-missing:" ++ ca_cfg)
        (if c.agent_force_tls then ca_ignored ca_cfg else ca_disabled ca_cfg)

  -- `collector_uses_tls`
  unfoldable pub collector_uses_tls : Exec Bool
  unfolding configured_path find_ca warn_missing
  collector_uses_tls =
      let ca_cfg = configured_path h c.agent_ssl_trusted_ca_path in
      do
        ca_path ← find_ca ca_cfg
        if not (is_empty ca_cfg) && not (is_some ca_path) then warn_missing ca_cfg else pure tt
        pure (c.agent_force_tls || is_some ca_path)

  unfoldable pub read_both : Text → Text → Exec Identity
  unfolding read_bytes normalize_private_key_pem validate_client_cert_key
  read_both cert_path key_path = do
    cert_pem ← read_bytes cert_path
    raw_key ← read_bytes key_path
    key_pem ← lift (normalize_private_key_pem h raw_key)
    validate_client_cert_key h cert_pem key_pem
    pure (some cert_pem, some key_pem)

  -- Both files, read, normalized and checked; what cannot be read is no identity.
  unfoldable pub read_identity : Text → Text → Exec Identity
  unfolding read_both
  read_identity cert_path key_path =
      catch (read_both cert_path key_path) is_os_value
        (λ e. warn (mtls_unreadable e) >> pure (none, none))

  unfoldable pub identity_from : Option Text → Option Text → Exec Identity
  unfolding read_identity
  identity_from (some cert_path) (some key_path) = read_identity cert_path key_path
  identity_from _ _ = warn mtls_not_found >> pure (none, none)

  unfoldable pub mtls_key : Text → Text → Text → Text
  mtls_key name cert_cfg key_cfg = name ++ (cert_cfg ++ b'|' ∷ key_cfg)

  -- Without trusted roots: what is configured is not used, and that is said.
  unfoldable pub without_ca : Text → Text → Exec Identity
  unfolding mtls_key warn_once
  without_ca cert_cfg key_cfg =
      (if not (is_empty cert_cfg) || not (is_empty key_cfg)
        then warn_once (mtls_key (codes "mtls-without-ca:") cert_cfg key_cfg) mtls_without_ca
        else pure tt)
      >> pure (none, none)

  unfoldable pub with_ca : Text → Text → Exec Identity
  unfolding mtls_key warn_once ssl_file_path identity_from
  with_ca cert_cfg key_cfg =
      let both : Exec Identity = do
        cert_path ← ssl_file_path h cert_cfg
        key_path ← ssl_file_path h key_cfg
        identity_from cert_path key_path
      in let one : Exec Identity =
          warn_once (mtls_key (codes "mtls-partial:") cert_cfg key_cfg) mtls_partial
          >> pure (none, none) in
        if is_empty cert_cfg
        then (if is_empty key_cfg then pure (none, none) else one)
        else if is_empty key_cfg
        then one
        else both

  -- `_mtls_material`
  unfoldable pub mtls_material : Bool → Exec Identity
  unfolding configured_path without_ca with_ca
  mtls_material ca_usable =
      let cert_cfg = configured_path h c.agent_ssl_cert_chain_path in
      let key_cfg = configured_path h c.agent_ssl_key_path in
      if ca_usable then with_ca cert_cfg key_cfg else without_ca cert_cfg key_cfg

  unfoldable pub material_of : Option Text → Exec (Option Material)
  unfolding mtls_material
  material_of root = do
    (chain, key) ← mtls_material (is_some root)
    pure (some (record { root_certificates = root; private_key = key; certificate_chain = chain }))

  unfoldable pub no_material : Exec (Option Material)
  unfolding mtls_material
  no_material = mtls_material false >> pure none

  -- The roots are loaded, or are not to be had.
  unfoldable pub load_failed : Fault → Exec (Option Material)
  unfolding material_of no_material
  load_failed e =
      if c.agent_force_tls
      then warn (ca_forced e) >> material_of none
      else warn (ca_plain e) >> no_material

  unfoldable pub with_loaded : Outcome Text → Exec (Option Material)
  unfolding load_failed material_of
  with_loaded (done root) = material_of (some root)
  with_loaded (raised e) = if is_os_value e then load_failed e else raise e

  -- The roots are tried, and the outcome is looked at.
  unfoldable pub try_ca : Text → Exec (Option Material)
  unfolding load_trusted_ca with_loaded
  try_ca path s = let (r, s') = load_trusted_ca path s in with_loaded r s'

  unfoldable pub from_ca_path : Option Text → Exec (Option Material)
  unfolding try_ca material_of no_material
  from_ca_path none = if c.agent_force_tls then material_of none else no_material
  from_ca_path (some path) = try_ca path

  -- `tls_pem_material`
  unfoldable pub tls_pem_material : Exec (Option Material)
  unfolding collector_uses_tls ssl_file_path from_ca_path
  tls_pem_material = do
    uses ← collector_uses_tls
    ca_path ← ssl_file_path h c.agent_ssl_trusted_ca_path
    from_ca_path ca_path

  -- `safe_tls_pem_material`
  unfoldable pub safe_tls_pem_material : Exec (Option Material)
  unfolding tls_pem_material warn_once
  safe_tls_pem_material = catch tls_pem_material every_fault (λ e.
      warn_once (codes "tls-material:" ++ message e) (material_failed e)
      >> pure (if c.agent_force_tls then some system_trust else none))
