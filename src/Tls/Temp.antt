-- ===== src/Tls/Temp.antt =====
-- skywalking/utils/tls.py: the temporary files that requests and the ssl module need, in which PEM
-- bytes are written, and their clean-up at exit and after a fork.
pub mod Writing
pub mod Owned
pub mod Caching
pub mod Files
pub mod Checking
pub mod Lifetime
use skywalking_python.Prelude.{
  ℕ, zero, suc, ◌+◌, ◌-◌, Bool, true, false, ◌&&◌, Option, none, some, List, [], ◌∷◌, ◌++◌,
  if◌then◌else◌, ltb, ◌==◌, Text, text_eq, codes, length, take, is_empty, is_some,
}
use skywalking_python.Tls.Env.{
  Fault, os_error, Outcome, done, raised, message, is_os, Disk, Host, State, Exec, pure, raise,
  gets, ask, catch, modify, ◌>>=◌, ◌>>◌, warn_once, mtls_temp,
}

abbrev pub put_file : Disk → Text → Option Text → Disk
put_file d path v f = if text_eq path f then v else d f

-- `l.remove(path)`, where a `ValueError` is ignored
abbrev pub remove_text : Text → List Text → List Text
remove_text t [] = []
remove_text t (u ∷ us) = if text_eq u t then us else u ∷ remove_text t us

-- `except Exception`
abbrev pub every_fault : Fault → Bool
every_fault _ = true

-- `_after_fork_in_child`
unfoldable pub after_fork_in_child : State → State
after_fork_in_child s = record s {
  mtls_temp_files = [];
  mtls_file_cache = none;
  mtls_file_cache_key = none;
  ca_file_cache = none;
  ca_file_cache_key = none;
}

-- `_ensure_atexit`
unfoldable pub ensure_atexit : State → State
ensure_atexit s =
    if s.atexit_registered
    then s
    else record s { at_exit = s.at_exit + 1; atexit_registered = true }

-- A key of the cache, compared.
unfoldable pub same_pair : Option (Text × Text) → Text → Text → Bool
same_pair none a b = false
same_pair (some (c, d)) a b = text_eq c a && text_eq d b

unfoldable pub same_text : Option Text → Text → Bool
same_text none a = false
same_text (some c) a = text_eq c a

module _ (h : Host) where
  -- `mkstemp` makes an empty file.
  unfoldable pub create : Outcome Text → Exec Text
  create (done path) s = (done path, record s { disk = put_file s.disk path (some []) })
  create (raised e) s = (raised e, s)

  unfoldable pub mkstemp : Text → Exec Text
  unfolding create
  mkstemp suffix s = create (h.mkstemp s.now s.disk suffix) (record s { now = s.now + 1 })

  -- `os.unlink`, where an `OSError` is ignored.
  unfoldable pub unlink : Text → State → State
  unlink path s = record s {
    now = s.now + 1;
    disk = if h.unlink s.now path then put_file s.disk path none else s.disk;
  }

  -- `os.write` of `data[offset:]`: what it takes is in the file.
  unfoldable pub write : Text → Text → ℕ → Exec ℕ
  write path bytes offset = do
    written ← ask (λ n. h.write n (length bytes - offset))
    modify (λ s. record s { disk = put_file s.disk path (some (take (offset + written) bytes)) })
    pure written

  -- The loop of `_pem_bytes_to_temp_file`.
  unfoldable pub write_all : Text → Text → ℕ → ℕ → Exec (Unit {0})
  unfolding write
  write_all path bytes zero offset = pure tt
  write_all path bytes (suc fuel) offset =
      let more : Exec (Unit {0}) = do
        written ← write path bytes offset
        if written == 0
            then raise (os_error (codes "Failed to write SSL PEM temp file " ++ path))
            else write_all path bytes fuel (offset + written)
      in if ltb offset (length bytes) then more else pure tt

  unfoldable pub fill_file : Text → Text → Exec Text
  unfolding write_all unlink
  fill_file path bytes = do
    catch (write_all path bytes (length bytes) 0) every_fault (λ e. modify (unlink path) >> raise e)
    modify (λ s. record s { mtls_temp_files = s.mtls_temp_files ++ path ∷ [] })
    pure path

  unfoldable pub new_file : Text → Text → Exec Text
  unfolding mkstemp fill_file
  new_file bytes suffix = do path ← mkstemp suffix; fill_file path bytes

  -- `_pem_bytes_to_temp_file`
  unfoldable pub pem_bytes_to_temp_file : Text → Text → Exec Text
  unfolding ensure_atexit new_file
  pem_bytes_to_temp_file bytes suffix = modify ensure_atexit >> new_file bytes suffix

  -- `_discard_mtls_temp_path`
  unfoldable pub discard_mtls_temp_path : Text → State → State
  unfolding unlink
  discard_mtls_temp_path path s =
      if is_empty path
      then s
      else let gone = unlink path s in
        record gone { mtls_temp_files = remove_text path gone.mtls_temp_files }

  -- Both files, or none: the certificate's is discarded if the key's cannot be written.
  unfoldable pub write_pair : Text → Text → Exec (Text × Text)
  unfolding pem_bytes_to_temp_file discard_mtls_temp_path
  write_pair certificate_chain private_key = do
    cert_path ← pem_bytes_to_temp_file certificate_chain (codes ".crt")
    key_path ←
        catch (pem_bytes_to_temp_file private_key (codes ".pem")) is_os
          (λ e. modify (discard_mtls_temp_path cert_path) >> raise e)
    pure (cert_path, key_path)

  -- `_mtls_cert_key_files`
  unfoldable pub new_cert_key_files : Text → Text → Exec (Option (Text × Text))
  unfolding write_pair
  new_cert_key_files certificate_chain private_key =
      catch
        (do
          paths ← write_pair certificate_chain private_key
          modify (λ s. record s {
            mtls_file_cache_key = some (certificate_chain, private_key);
            mtls_file_cache = some paths;
          })
          pure (some paths))
        is_os (λ e. warn_once (codes "mtls-temp:" ++ message e) (mtls_temp e) >> pure none)

  unfoldable pub mtls_cert_key_files : Text → Text → Exec (Option (Text × Text))
  unfolding new_cert_key_files same_pair
  mtls_cert_key_files certificate_chain private_key s =
      if is_some s.mtls_file_cache && same_pair s.mtls_file_cache_key certificate_chain private_key
      then (done s.mtls_file_cache, s)
      else new_cert_key_files certificate_chain private_key s

  -- `_ca_file_cache`, if it is the file of these bytes and still there.
  unfoldable pub cached_ca : Option Text → Text → State → Option Text
  unfolding same_text
  cached_ca none root_certificates s = none
  cached_ca (some path) root_certificates s =
      if same_text s.ca_file_cache_key root_certificates && is_some (s.disk path)
      then some path
      else none

  unfoldable pub new_ca_verify_temp_file : Text → Exec Text
  unfolding pem_bytes_to_temp_file
  new_ca_verify_temp_file root_certificates = do
    path ← pem_bytes_to_temp_file root_certificates (codes ".crt")
    modify (λ s. record s { ca_file_cache_key = some root_certificates; ca_file_cache = some path })
    pure path

  unfoldable pub or_new_ca : Option Text → Text → Exec Text
  unfolding new_ca_verify_temp_file
  or_new_ca (some path) root_certificates = pure path
  or_new_ca none root_certificates = new_ca_verify_temp_file root_certificates

  -- `_ca_verify_temp_file`
  unfoldable pub ca_verify_temp_file : Text → Exec Text
  unfolding cached_ca or_new_ca
  ca_verify_temp_file root_certificates s =
      or_new_ca (cached_ca s.ca_file_cache root_certificates s) root_certificates s

  -- `_validate_client_cert_key`: what stands in `finally` is done on every way out.
  unfoldable pub on_error : {A : Type 0} → Exec A → (State → State) → Exec A
  on_error m cleanup = catch m every_fault (λ e. modify cleanup >> raise e)

  unfoldable pub check_key : Text → Text → Text → Exec (Unit {0})
  unfolding write unlink on_error
  check_key cert_path key_path key_pem = do
    on_error (write key_path key_pem 0 >> ask (λ n. h.load_cert_chain n cert_path key_path))
        (λ s. unlink key_path (unlink cert_path s))
    modify (λ s. unlink key_path (unlink cert_path s))

  unfoldable pub check_files : Text → Text → Text → Exec (Unit {0})
  unfolding mkstemp write unlink on_error check_key
  check_files cert_path cert_pem key_pem = do
    key_path ← on_error (write cert_path cert_pem 0 >> mkstemp (codes ".pem")) (unlink cert_path)
    check_key cert_path key_path key_pem

  unfoldable pub validate_client_cert_key : Text → Text → Exec (Unit {0})
  unfolding mkstemp check_files
  validate_client_cert_key cert_pem key_pem = do
    cert_path ← mkstemp (codes ".crt")
    check_files cert_path cert_pem key_pem

  unfoldable pub unlink_all : List Text → State → State
  unfolding unlink
  unlink_all [] s = s
  unlink_all (path ∷ paths) s = unlink_all paths (unlink path s)

  -- `_cleanup_mtls_temp_files`
  unfoldable pub cleanup_mtls_temp_files : State → State
  unfolding unlink_all
  cleanup_mtls_temp_files s = record (unlink_all s.mtls_temp_files s) {
    mtls_temp_files = [];
    mtls_file_cache = none;
    mtls_file_cache_key = none;
    ca_file_cache = none;
    ca_file_cache_key = none;
  }
