-- ===== src/Tls/Context.antt =====
-- skywalking/utils/tls.py: the `SSLContext` of aiohttp.
pub mod Roots
pub mod Trusting
use skywalking_python.Prelude.{
  Bool, true, false, Option, none, some, List, [], ◌∷◌, ◌++◌, if◌then◌else◌, Text, codes,
}
use skywalking_python.Tls.Env.{
  Fault, Outcome, done, raised, message, is_os, is_os_value, Config, Material, Host, State, Exec,
  pure, ask, catch, ◌>>=◌, ◌>>◌, warn_once, context_ca, context_plain, context_system, context_mtls,
}
use skywalking_python.Tls.Pem.{to_ascii, ca_pem_has_trusted_certificate}
use skywalking_python.Tls.Temp.{mtls_cert_key_files, ca_verify_temp_file}
use skywalking_python.Tls.Material.{lift}
use skywalking_python.Tls.Clients.{
  Given, Trust, system, cafile, cadata, Context, Loaded, loaded, failed, or_material,
  configured_ca_path_for_verify,
}

module _ (h : Host) (c : Config) where
  -- The file of the option, where the temporary file failed.
  unfoldable pub load_configured : Fault → Option Text → Exec Loaded
  load_configured e none = pure (failed e)
  load_configured e (some path) =
      catch (do ask (λ n. h.accepts_cafile n path); pure (loaded (cafile path))) is_os
        (λ e'. pure (failed e'))

  -- `_load_ca_via_cafile`
  unfoldable pub load_ca_via_cafile : Text → Exec Loaded
  unfolding ca_verify_temp_file load_configured
  load_ca_via_cafile root =
      catch
        (do
          path ← ca_verify_temp_file h root
          ask (λ n. h.accepts_cafile n path)
          pure (loaded (cafile path)))
        is_os (λ e. do path ← configured_ca_path_for_verify h c; load_configured e path)

  unfoldable pub load_cadata : Text → Exec Loaded
  unfolding to_ascii
  load_cadata root = do
    pem ← lift (to_ascii h root)
    ask (λ n. h.accepts_cadata n pem)
    pure (loaded (cadata pem))

  -- The custom roots: never as `cadata` where a trusted certificate is among them.
  unfoldable pub load_ca : Text → Exec Loaded
  unfolding load_cadata load_ca_via_cafile ca_pem_has_trusted_certificate
  load_ca root =
      if ca_pem_has_trusted_certificate root
      then load_ca_via_cafile root
      else catch (load_cadata root) is_os_value (λ _. load_ca_via_cafile root)

  -- The context of the trust store of the process, or none.
  unfoldable pub system_context : Exec (Option Context)
  unfolding warn_once
  system_context =
      catch (do ask h.system_trust; pure (some (record { trust = system; identity = none }))) is_os
        (λ e. warn_once (codes "ssl-ctx-system:" ++ message e) (context_system e) >> pure none)

  unfoldable pub load_identity : Context → Option (Text × Text) → Exec (Option Context)
  unfolding warn_once
  load_identity ctx none = pure (some ctx)
  load_identity ctx (some (cert_file, key_file)) =
      catch
        (do
          ask (λ n. h.load_cert_chain n cert_file key_file)
          pure (some (record ctx { identity = some (cert_file, key_file) })))
        is_os
        (λ e. warn_once (codes "ssl-ctx-mtls:" ++ message e) (context_mtls e) >> pure (some ctx))

  -- The client's certificate and key are put into a context, if both are there.
  unfoldable pub with_identity : Option Text → Option Text → Option Context → Exec (Option Context)
  unfolding mtls_cert_key_files load_identity
  with_identity (some key) (some chain) (some ctx) = do
    pair ← mtls_cert_key_files h chain key
    load_identity ctx pair
  with_identity _ _ ctx = pure ctx

  unfoldable pub with_ca_loaded : Material → Loaded → Exec (Option Context)
  unfolding with_identity system_context warn_once
  with_ca_loaded m (loaded trust) =
      with_identity m.private_key m.certificate_chain
        (some (record { trust = trust; identity = none }))
  with_ca_loaded m (failed e) =
      if c.agent_force_tls
      then warn_once (codes "ssl-ctx-ca:" ++ message e) (context_ca e) >> system_context
      else warn_once (codes "ssl-ctx-ca-plain:" ++ message e) (context_plain e) >> pure none

  unfoldable pub context_by : Option Text → Material → Exec (Option Context)
  unfolding load_ca with_ca_loaded with_identity system_context
  context_by (some root) m = do outcome ← load_ca root; with_ca_loaded m outcome
  context_by none m = do ctx ← system_context; with_identity m.private_key m.certificate_chain ctx

  unfoldable pub context_for : Option Material → Exec (Option Context)
  unfolding context_by
  context_for none = pure none
  context_for (some m) = context_by m.root_certificates m

  -- `ssl_context_for_collector`
  unfoldable pub ssl_context_for_collector : Given → Exec (Option Context)
  unfolding or_material context_for
  ssl_context_for_collector given = do material ← or_material h c given; context_for material
