-- ===== src/Tls/Context/Roots.antt =====
-- The custom roots of a context in skywalking/utils/tls.py, by whichever way they are loaded.
use skywalking_python.Prelude.{◌≡◌, refl, Bool, true, false, Option, none, some, Text, is_empty}
use skywalking_python.Tls.Env.{
  Fault, os_error, value_error, runtime_error, other, Outcome, done, raised, is_os, is_os_value,
  is_path_fault, Config, Host, Exec, pure, ask, catch, ◌>>=◌, ◌>>◌, configured_path, ssl_file_path,
}
use skywalking_python.Tls.Outcomes.{
  Ends, Anything, Clean, >>=-Ends, catch-Ends, if-Ends, pure-Ends, all-Anything,
  ssl_file_path-Clean,
}
use skywalking_python.Tls.Pem.{ca_pem_has_trusted_certificate, to_ascii}
use skywalking_python.Tls.Temp.{ca_verify_temp_file}
use skywalking_python.Tls.Material.{lift}
use skywalking_python.Tls.Clients.{
  Trust, system, cafile, cadata, Loaded, loaded, failed, absolute, configured_ca_path_for_verify,
}
use skywalking_python.Tls.Context.{load_configured, load_ca_via_cafile, load_cadata, load_ca}

abbrev pub is_custom : Trust → Bool
is_custom system = false
is_custom _ = true

-- `OSError` is not raised.
abbrev pub NoOs : {A : Type 0} → Outcome A → Type 0
NoOs (done _) = Unit
NoOs (raised e) = is_os e ≡ false

abbrev pub IsLoaded : Outcome Loaded → Type 0
IsLoaded (done (loaded trust)) = is_custom trust ≡ true
IsLoaded (done (failed e)) = Unit
IsLoaded (raised e) = is_os e ≡ false

-- A loader whose exceptions are caught.
abbrev IsCustom : Outcome Loaded → Type 0
IsCustom (done (loaded trust)) = is_custom trust ≡ true
IsCustom (done (failed e)) = Unit
IsCustom (raised e) = Unit

pub no_os : (e : Fault) → is_os_value e ≡ false → is_os e ≡ false
no_os (os_error t) h = cc
no_os (value_error t) h = cc
no_os (runtime_error t) h = refl
no_os (other t) h = refl

path_no_os : (e : Fault) → is_path_fault e ≡ false → is_os e ≡ false
path_no_os (os_error t) h = cc
path_no_os (value_error t) h = cc
path_no_os (runtime_error t) h = cc
path_no_os (other t) h = refl

custom-IsLoaded : (l : Loaded) → IsCustom (done l) → IsLoaded (done l)
custom-IsLoaded (loaded trust) q = q
custom-IsLoaded (failed e) q = tt

module _ (h : Host) (c : Config) where
  -- A loader of custom roots: whatever it calls first.
  loads :
      {A : Type 0} (m : Exec A) (k : A → Exec Loaded)
      → ((a : A) → Ends IsCustom (k a))
      → Ends IsCustom (m >>= k)
  loads m k next = >>=-Ends Anything IsCustom m k (all-Anything m) (λ e _. tt) (λ a _. next a)

  custom : (trust : Trust) → is_custom trust ≡ true → Ends IsCustom (pure (loaded trust))
  custom trust e = pure-Ends IsCustom (loaded trust) e

  absolute-NoOs : (text : Text) (o : Option Text) → Ends NoOs (absolute h c text o)
  unfolding absolute
  absolute-NoOs text none = pure-Ends NoOs none tt
  absolute-NoOs text (some path) =
      catch-Ends NoOs Anything (ask (λ n. h.absolute n text) >>= λ path. pure (some path))
        is_path_fault (λ _. pure none) (all-Anything _) (λ a q. tt) path_no_os
        (λ e. pure-Ends NoOs none tt)

  configured-NoOs : Ends NoOs (configured_ca_path_for_verify h c)
  unfolding configured_ca_path_for_verify
  configured-NoOs =
      let text : Text = configured_path h c.agent_ssl_trusted_ca_path in
      let rest : Option Text → Exec (Option Text) = λ found. absolute h c text found in
      if-Ends NoOs (is_empty text) (pure none) (ssl_file_path h text >>= rest)
        (λ _. pure-Ends NoOs none tt)
        (λ _.
          >>=-Ends Clean NoOs (ssl_file_path h text) rest (ssl_file_path-Clean h text) no_os
            (λ found _. absolute-NoOs text found))

  load_configured-IsLoaded : (e : Fault) (o : Option Text) → Ends IsLoaded (load_configured h c e o)
  unfolding load_configured
  load_configured-IsLoaded e none = pure-Ends IsLoaded (failed e) tt
  load_configured-IsLoaded e (some path) =
      catch-Ends IsLoaded IsCustom
        (ask (λ n. h.accepts_cafile n path) >> pure (loaded (cafile path))) is_os
        (λ e'. pure (failed e'))
        (loads (ask (λ n. h.accepts_cafile n path)) (λ _. pure (loaded (cafile path)))
          (λ _. custom (cafile path) refl))
        custom-IsLoaded (λ e missed. missed) (λ e'. pure-Ends IsLoaded (failed e') tt)

  via_cafile-IsLoaded : (root : Text) → Ends IsLoaded (load_ca_via_cafile h c root)
  unfolding load_ca_via_cafile
  via_cafile-IsLoaded root =
      let try_file : Text → Exec Loaded =
        λ path. ask (λ n. h.accepts_cafile n path) >> pure (loaded (cafile path)) in
      let next : Fault → Option Text → Exec Loaded = λ e path. load_configured h c e path in
      catch-Ends IsLoaded IsCustom (ca_verify_temp_file h root >>= try_file) is_os
        (λ e. configured_ca_path_for_verify h c >>= next e)
        (loads (ca_verify_temp_file h root) try_file (λ path.
          loads (ask (λ n. h.accepts_cafile n path)) (λ _. pure (loaded (cafile path)))
            (λ _. custom (cafile path) refl)))
        custom-IsLoaded (λ e missed. missed)
        (λ e.
          >>=-Ends NoOs IsLoaded (configured_ca_path_for_verify h c) (next e) configured-NoOs
            (λ e q. q) (λ path _. load_configured-IsLoaded e path))

  load_cadata-IsCustom : (root : Text) → Ends IsCustom (load_cadata h c root)
  unfolding load_cadata
  load_cadata-IsCustom root =
      loads (lift (to_ascii h root))
        (λ pem. ask (λ n. h.accepts_cadata n pem) >> pure (loaded (cadata pem)))
        (λ pem.
          loads (ask (λ n. h.accepts_cadata n pem)) (λ _. pure (loaded (cadata pem)))
            (λ _. custom (cadata pem) refl))

  pub load_ca-IsLoaded : (root : Text) → Ends IsLoaded (load_ca h c root)
  unfolding load_ca
  load_ca-IsLoaded root =
      let file : Exec Loaded = load_ca_via_cafile h c root in
      if-Ends IsLoaded (ca_pem_has_trusted_certificate root) file
        (catch (load_cadata h c root) is_os_value (λ _. file)) (λ _. via_cafile-IsLoaded root)
        (λ _.
          catch-Ends IsLoaded IsCustom (load_cadata h c root) is_os_value (λ _. file)
            (load_cadata-IsCustom root) custom-IsLoaded no_os (λ e. via_cafile-IsLoaded root))
