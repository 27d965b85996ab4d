-- ===== src/Tls/Tests.antt =====
-- skywalking/utils/tls.py on a small host.
use skywalking_python.Prelude.{
  ℕ, ◌+◌, ◌-◌, ◌≡◌, refl, true, false, Option, none, some, [], ◌∷◌, ◌++◌, map, arith, ap,
  if◌then◌else◌, Text, text_eq, codes, Avoids,
}
use skywalking_python.Grpc.Fixtures.{platform}
use skywalking_python.Tls.Env.{os_error, Outcome, done, raised, Config, Material, Host, State}
use skywalking_python.Tls.Pem.{
  find, occurs, slice, without_breaks, lines_of, normalize_private_key_pem, pkcs1_pem_header,
  pkcs1_pem_footer, pkcs8_of, pem_of,
}
use skywalking_python.Tls.Pem.Wrapping.{IsBase64, Pkcs8Pem, normalize_wraps}
use skywalking_python.Tls.Temp.{after_fork_in_child, cleanup_mtls_temp_files, mtls_cert_key_files}
use skywalking_python.Tls.Temp.Writing.{IsTidy}
use skywalking_python.Tls.Temp.Lifetime.{
  identity, trusted, checked, run, forked_child_cleans, files_hold,
}
use skywalking_python.Tls.Material.{tls_pem_material, safe_tls_pem_material}
use skywalking_python.Tls.Material.Decision.{IsDecided, IsSafe, tls_pem_material-IsDecided}
use skywalking_python.Tls.Clients.{grpc_ssl_credentials}
use skywalking_python.Tls.Clients.Credentials.{AreFit, grpc_ssl_credentials-AreFit}
use skywalking_python.Tls.Context.{ssl_context_for_collector}
use skywalking_python.Tls.Context.Trusting.{IsTrusting, ssl_context-IsTrusting}

-- A name is taken, or it is not.
abbrev name_if_new : Text → Option Text → Outcome Text
name_if_new name none = done name
name_if_new name (some _) = raised (os_error (codes "exists"))

abbrev bundle : Text
bundle = codes "-----BEGIN CERTIFICATE-----A-----END CERTIFICATE-----"

-- The file of the name "ca" is a bundle, any other holds its name. Characters are encoded by one that
-- stands eleven places on.
abbrev host : Host
host = record {
  platform = platform;
  resolve = λ n t. done t;
  is_file = λ n t. done true;
  absolute = λ n t. done t;
  getsize = λ n t. done 1;
  read_bytes = λ n t. done (if text_eq t (codes "ca") then bundle else t);
  mkstemp = λ n d suffix. let name = (b'A' + n) ∷ suffix in name_if_new name (d name);
  write = λ n left. done left;
  unlink = λ n t. true;
  accepts_cafile = λ n t. done tt;
  accepts_cadata = λ n t. done tt;
  system_trust = λ n. done tt;
  load_cert_chain = λ n cert key. done tt;
  channel_credentials = λ n m. done tt;
  decode = λ t. t;
  upper = λ t. t;
  b64decode = λ t. done (map (λ c. c - 11) t);
  b64encode = λ t. map (λ c. c + 11) t;
}

abbrev config : Config
config = record {
  agent_force_tls = false;
  agent_ssl_trusted_ca_path = codes " ca ";
  agent_ssl_cert_chain_path = codes "cert";
  agent_ssl_key_path = codes "key";
}

-- Another process has a file.
abbrev start : State
start = record {
  now = 0;
  disk = λ f. if text_eq f (codes "other.pem") then some (codes "key") else none;
  log = [];
  warned_keys = [];
  mtls_temp_files = codes "other.pem" ∷ [];
  mtls_file_cache_key = none;
  mtls_file_cache = none;
  ca_file_cache_key = none;
  ca_file_cache = none;
  atexit_registered = false;
  at_exit = 0;
}

new_name :
    (name : Text) (o : Option Text) (path : Text) → name_if_new name o ≡ done path → name ≡ path
new_name name none path e = cc e
new_name name (some a) path e = cc e

new_none : (name : Text) (o : Option Text) (path : Text) → name_if_new name o ≡ done path → o ≡ none
new_none name none path e = refl
new_none name (some a) path e = cc e

host-IsTidy : IsTidy host
host-IsTidy = record {
  fresh = λ n d suffix path e.
      rw (← new_name ((b'A' + n) ∷ suffix) (d ((b'A' + n) ∷ suffix)) path e)
        (new_none ((b'A' + n) ∷ suffix) (d ((b'A' + n) ∷ suffix)) path e);
  named = λ n d suffix path e.
      rw (← new_name ((b'A' + n) ∷ suffix) (d ((b'A' + n) ∷ suffix)) path e) refl;
  unlinks = λ n path. refl;
}

encode-Avoids : (t : Text) → Avoids 10 (map (λ c. c + 11) t)
encode-Avoids [] = tt
encode-Avoids (c ∷ t) = (ground arith, encode-Avoids t)

encode_decodes : (t : Text) → map (λ c. c - 11) (map (λ c. c + 11) t) ≡ t
encode_decodes [] = refl
encode_decodes (c ∷ t) = ground (arith, encode_decodes t)

host-IsBase64 : IsBase64 host
host-IsBase64 = record {
  decodes = λ t. ap done (encode_decodes t);
  one_line = encode-Avoids;
  nonempty = λ b t. refl;
}

forked_child_cleans_example :
    (cleanup_mtls_temp_files host (
        run host
          (identity (codes "cert") (codes "key")
            ∷ checked (codes "a") (codes "b")
            ∷ trusted (codes "ca")
            ∷ [])
          (after_fork_in_child start))).disk
      (codes "other.pem")
    ≡ start.disk (codes "other.pem")
forked_child_cleans_example =
    forked_child_cleans host host-IsTidy
      (identity (codes "cert") (codes "key")
        ∷ checked (codes "a") (codes "b")
        ∷ trusted (codes "ca")
        ∷ [])
      start (codes "other.pem")

abbrev first_files : State
first_files = run host (trusted (codes "ca") ∷ []) (after_fork_in_child start)

pair_made :
    (mtls_cert_key_files host (codes "cert") (codes "key") first_files).0
    ≡ done (some (b'C' ∷ codes ".crt", b'E' ∷ codes ".pem"))
unfolding run after_fork_in_child mtls_cert_key_files
pair_made = refl

files_hold_example :
    let u =
      run host
        (trusted (codes "ca") ∷ [])
        (mtls_cert_key_files host (codes "cert") (codes "key") first_files).1 in
    (u.disk (b'C' ∷ codes ".crt") ≡ some (codes "cert"))
    × (u.disk (b'E' ∷ codes ".pem") ≡ some (codes "key"))
files_hold_example =
    files_hold host host-IsTidy (trusted (codes "ca") ∷ []) (trusted (codes "ca") ∷ []) start
      (codes "cert") (codes "key") (b'C' ∷ codes ".crt") (b'E' ∷ codes ".pem") pair_made

tls_pem_material-IsDecided_example :
    IsDecided false (tls_pem_material host config start).0
    × IsSafe host config (safe_tls_pem_material host config start).0
tls_pem_material-IsDecided_example = tls_pem_material-IsDecided host config start

-- On this host there is mutual TLS.
abbrev mutual_material : Material
mutual_material = record {
  root_certificates = some (bundle ++ 10 ∷ []);
  private_key = some (codes "key");
  certificate_chain = some (codes "cert");
}

mutual_lem : (tls_pem_material host config start).0 ≡ done (some mutual_material)
unfolding tls_pem_material
mutual_lem = refl

grpc_ssl_credentials-AreFit_example : AreFit false (grpc_ssl_credentials host config start).0
grpc_ssl_credentials-AreFit_example = grpc_ssl_credentials-AreFit host config start

ssl_context-IsTrusting_example : IsTrusting (ssl_context_for_collector host config none start).0
ssl_context-IsTrusting_example = ssl_context-IsTrusting host config none start tt

abbrev pkcs1_pem : Text
pkcs1_pem = codes "a comment " ++ (pkcs1_pem_header ++ (codes "  AB" ++ pkcs1_pem_footer))

abbrev wrapped : Text
wrapped = pem_of (lines_of 28 (map (λ c. c + 11) (pkcs8_of (54 ∷ 55 ∷ []))))

wrapped_lem : normalize_private_key_pem host pkcs1_pem ≡ done wrapped
unfolding normalize_private_key_pem pem_of lines_of pkcs8_of
wrapped_lem = refl

is_pkcs1 : occurs pkcs1_pem_header pkcs1_pem ≡ true
unfolding occurs
is_pkcs1 = refl

normalize_wraps_example :
    (start : ℕ) × (end : ℕ) × (pkcs1 : Text) × (find pkcs1_pem_header pkcs1_pem 0 ≡ some start)
    × (find pkcs1_pem_footer pkcs1_pem start ≡ some end)
    × (host.b64decode (without_breaks (slice pkcs1_pem (start + 31) end)) ≡ done pkcs1)
    × Pkcs8Pem host pkcs1 wrapped
normalize_wraps_example = normalize_wraps host host-IsBase64 pkcs1_pem wrapped is_pkcs1 wrapped_lem
