-- ===== src/Tls/Clients.antt =====
-- skywalking/utils/tls.py: what the clients make of the material: credentials for grpc, the scheme and
-- the session of requests, the context of aiohttp. Also the channels of skywalking/utils/grpc_channel.py.
pub mod Credentials
use skywalking_python.Prelude.{
  Bool, true, false, ◌&&◌, ◌||◌, not, Option, none, some, List, [], ◌∷◌, ◌++◌, if◌then◌else◌, Text,
  codes, is_empty, is_some,
}
use skywalking_python.Tls.Env.{
  Fault, Outcome, done, raised, message, is_os, is_os_value, is_path_fault, Config, Material, Host,
  State, Exec, Warning, pure, raise, ask, catch, modify, ◌>>=◌, ◌>>◌, warn_once, scheme_failed,
  creds_mtls, creds_oneway, creds_force, creds_force_fail, creds_plain, verify_path, verify_system,
  session_failed, context_ca, context_plain, context_system, context_mtls, configured_path,
  ssl_file_path,
}
use skywalking_python.Tls.Pem.{to_ascii, ca_pem_has_trusted_certificate}
use skywalking_python.Tls.Temp.{every_fault, mtls_cert_key_files, ca_verify_temp_file}
use skywalking_python.Tls.Material.{lift, tls_pem_material, system_trust}

-- The argument `material`; `none` is `_MATERIAL_UNSET`.
abbrev pub Given : Type 0
Given = Option (Option Material)

-- The trusted roots of a session or a context: those of the system, or a file, or PEM bytes.
pub data Trust : Type 0 where
  system : Trust
  cafile : (path : Text) → Trust
  cadata : (pem : Text) → Trust

-- `verify` and `cert` of a `requests.Session`
pub record Session : Type 0 where
  pub verify : Trust
  pub cert : Option (Text × Text)

-- An `ssl.SSLContext`
pub record Context : Type 0 where
  pub trust : Trust
  pub identity : Option (Text × Text)

pub data Loaded : Type 0 where
  loaded : Trust → Loaded
  failed : Fault → Loaded

module _ (h : Host) (c : Config) where
  unfoldable pub or_material : Given → Exec (Option Material)
  unfolding tls_pem_material
  or_material none = tls_pem_material h c
  or_material (some material) = pure material

  unfoldable pub credentials : Material → Exec (Option Material)
  credentials m = do ask (λ n. h.channel_credentials n m); pure (some m)

  abbrev pub retry : Material → (Fault → Exec (Unit {0})) → Exec (Option Material)
  retry m say = catch (credentials m) every_fault (λ e. say e >> pure none)

  -- The credentials could not be built.
  unfoldable pub weaker : Material → Fault → Exec (Option Material)
  unfolding credentials warn_once
  weaker m e =
      if is_some m.private_key || is_some m.certificate_chain
      then warn_once (codes "grpc-creds-mtls:" ++ message e) (creds_mtls e)
        >> retry (record m { private_key = none; certificate_chain = none })
            (λ e'. warn_once (codes "grpc-creds-oneway:" ++ message e') (creds_oneway e'))
      else if c.agent_force_tls
      then warn_once (codes "grpc-creds-force:" ++ message e) (creds_force e)
        >> retry system_trust
            (λ e'. warn_once (codes "grpc-creds-force-fail:" ++ message e') (creds_force_fail e'))
      else warn_once (codes "grpc-creds:" ++ message e) (creds_plain e) >> pure none

  unfoldable pub credentials_for : Option Material → Exec (Option Material)
  unfolding credentials weaker
  credentials_for none = pure none
  credentials_for (some m) = catch (credentials m) every_fault (weaker m)

  -- `grpc_ssl_credentials`: the arguments of the credentials that are built, if any are.
  unfoldable pub grpc_ssl_credentials : Exec (Option Material)
  unfolding tls_pem_material credentials_for
  grpc_ssl_credentials = do material ← tls_pem_material h c; credentials_for material

  unfoldable pub scheme : Bool → Text
  scheme true = codes "https://"
  scheme false = codes "http://"

  -- `collector_http_scheme`
  unfoldable pub collector_http_scheme : Given → Exec Text
  unfolding or_material scheme warn_once
  collector_http_scheme given =
      catch (do material ← or_material given; pure (scheme (is_some material))) every_fault
        (λ e.
          warn_once (codes "http-scheme:" ++ message e) (scheme_failed e)
          >> pure (scheme c.agent_force_tls))

  unfoldable pub absolute : Text → Option Text → Exec (Option Text)
  absolute text none = pure none
  absolute text (some _) =
      catch (do path ← ask (λ n. h.absolute n text); pure (some path)) is_path_fault
        (λ _. pure none)

  -- `_configured_ca_path_for_verify`
  unfoldable pub configured_ca_path_for_verify : Exec (Option Text)
  unfolding configured_path ssl_file_path absolute
  configured_ca_path_for_verify =
      let text = configured_path h c.agent_ssl_trusted_ca_path in
      let reached : Exec (Option Text) = (do found ← ssl_file_path h text; absolute text found) in
      if is_empty text then pure none else reached

  unfoldable pub verify_without_snapshot : Fault → Option Text → Exec Trust
  unfolding warn_once
  verify_without_snapshot e (some path) =
      warn_once (codes "requests-ca-temp:" ++ message e) (verify_path e) >> pure (cafile path)
  verify_without_snapshot e none =
      warn_once (codes "requests-ca-temp:" ++ message e) (verify_system e) >> pure system

  unfoldable pub verify_for : Option Text → Exec Trust
  unfolding ca_verify_temp_file configured_ca_path_for_verify verify_without_snapshot
  verify_for none = pure system
  verify_for (some root) =
      catch (do path ← ca_verify_temp_file h root; pure (cafile path)) is_os
        (λ e. do path ← configured_ca_path_for_verify; verify_without_snapshot e path)

  unfoldable pub files_for : Option Text → Option Text → Exec (Option (Text × Text))
  unfolding mtls_cert_key_files
  files_for (some key) (some chain) = mtls_cert_key_files h chain key
  files_for _ _ = pure none

  unfoldable pub settings_for : Option Material → Exec Session
  unfolding verify_for files_for
  settings_for none = pure (record { verify = system; cert = none })
  settings_for (some m) = do
    verify ← verify_for m.root_certificates
    cert ← files_for m.private_key m.certificate_chain
    pure (record { verify = verify; cert = cert })

  -- `requests_tls_settings`
  unfoldable pub requests_tls_settings : Given → Exec Session
  unfolding or_material settings_for
  requests_tls_settings given = do material ← or_material given; settings_for material

  abbrev pub trust_or_system : Option Text → Trust
  trust_or_system none = system
  trust_or_system (some path) = cafile path

  unfoldable pub session_without : Session → Exec Session
  unfolding configured_ca_path_for_verify
  session_without session = do
    path ← configured_ca_path_for_verify
    pure (record { verify = trust_or_system path; cert = none })

  -- `if config.agent_force_tls or ssl_file_path(…)`: the file is looked for only without the option.
  unfoldable pub wants_tls : Exec Bool
  unfolding ssl_file_path
  wants_tls =
      let looked : Exec Bool = do
        found ← ssl_file_path h c.agent_ssl_trusted_ca_path
        pure (is_some found)
      in if c.agent_force_tls then pure true else looked

  abbrev pub keep_cert : Option (Text × Text) → Option (Text × Text) → Option (Text × Text)
  keep_cert old none = old
  keep_cert old (some new) = some new

  -- `configure_requests_session`: the session as it is afterwards.
  unfoldable pub configure_requests_session : Session → Given → Exec Session
  unfolding requests_tls_settings session_without wants_tls warn_once
  configure_requests_session session given =
      catch
        (do
          settings ← requests_tls_settings given
          pure (record { verify = settings.verify; cert = keep_cert session.cert settings.cert }))
        every_fault
        (λ e. do
          warn_once (codes "requests-tls:" ++ message e) (session_failed e)
          wanted ← wants_tls
          if wanted then session_without session else pure session)
