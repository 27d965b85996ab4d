-- ===== src/Tls/Clients/Credentials.antt =====
-- The credentials of grpc in skywalking/utils/tls.py, and how they are weakened when they fail.
use skywalking_python.Prelude.{
  ◌≡◌, refl, Bool, true, false, ◌||◌, Option, none, some, if◌then◌else◌, is_some, codes, ◌++◌,
}
use skywalking_python.Tls.Env.{
  Fault, Outcome, done, raised, is_os_value, message, Config, Material, Host, State, Exec, pure,
  ask, ◌>>◌, warn_once, creds_mtls, creds_oneway, creds_force, creds_force_fail, creds_plain,
}
use skywalking_python.Tls.Outcomes.{
  Ends, Anything, >>=-Ends, catch-Ends, if-Ends, pure-Ends, all-Anything,
}
use skywalking_python.Tls.Temp.{every_fault}
use skywalking_python.Tls.Material.{tls_pem_material, system_trust}
use skywalking_python.Tls.Material.Identity.{Quiet, quiet-Ends, warn_once-Quiet}
use skywalking_python.Tls.Material.Decision.{Fits, IsDecided, tls_pem_material-Ends}
use skywalking_python.Tls.Clients.{
  credentials, retry, weaker, credentials_for, grpc_ssl_credentials,
}

-- Credentials fit the options, or there are none; neither `OSError` nor `ValueError` is raised.
abbrev pub AreFit : Bool → Outcome (Option Material) → Type 0
AreFit force (done none) = Unit
AreFit force (done (some m)) = Fits force (some m)
AreFit force (raised e) = is_os_value e ≡ false

-- What is built is what was asked for.
abbrev IsBuilt : Material → Outcome (Option Material) → Type 0
IsBuilt m (done o) = o ≡ some m
IsBuilt m (raised e) = Unit

built-AreFit :
    (force : Bool) (m : Material) (o : Option Material)
    → Fits force (some m)
    → o ≡ some m
    → AreFit force (done o)
built-AreFit force m o fits e = rw e fits

module _ (h : Host) (c : Config) where
  credentials-IsBuilt : (m : Material) → Ends (IsBuilt m) (credentials h c m)
  unfolding credentials
  credentials-IsBuilt m =
      >>=-Ends Anything (IsBuilt m) (ask (λ n. h.channel_credentials n m)) (λ _. pure (some m))
        (all-Anything _) (λ e _. tt) (λ _ _. pure-Ends (IsBuilt m) (some m) refl)

  retry-AreFit :
      (m : Material) (say : Fault → Exec (Unit {0}))
      → Fits c.agent_force_tls (some m)
      → ((e : Fault) → Ends Quiet (say e))
      → Ends (AreFit c.agent_force_tls) (retry h c m say)
  retry-AreFit m say fits quiet =
      catch-Ends (AreFit c.agent_force_tls) (IsBuilt m) (credentials h c m) every_fault
        (λ e. say e >> pure none) (credentials-IsBuilt m)
        (λ o q. built-AreFit c.agent_force_tls m o fits q) (λ e left. cc left)
        (λ e.
          quiet-Ends (AreFit c.agent_force_tls) (say e) (pure none) (quiet e)
            (pure-Ends (AreFit c.agent_force_tls) none tt))

  weaker-AreFit :
      (m : Material) (e : Fault)
      → Fits c.agent_force_tls (some m)
      → Ends (AreFit c.agent_force_tls) (weaker h c m e)
  unfolding weaker
  weaker-AreFit m e fits =
      let P : Outcome (Option Material) → Type 0 = AreFit c.agent_force_tls in
      let bare : Material = record m { private_key = none; certificate_chain = none } in
      let plain : Exec (Option Material) = pure none in
      let first : Exec (Unit {0}) =
        warn_once (codes "grpc-creds-mtls:" ++ message e) (creds_mtls e) in
      let second : Exec (Unit {0}) =
        warn_once (codes "grpc-creds-force:" ++ message e) (creds_force e) in
      let last : Exec (Unit {0}) = warn_once (codes "grpc-creds:" ++ message e) (creds_plain e) in
      let oneway : Fault → Exec (Unit {0}) =
        λ e'. warn_once (codes "grpc-creds-oneway:" ++ message e') (creds_oneway e') in
      let forced : Fault → Exec (Unit {0}) =
        λ e'. warn_once (codes "grpc-creds-force-fail:" ++ message e') (creds_force_fail e') in
      if-Ends P (is_some m.private_key || is_some m.certificate_chain)
        (first >> retry h c bare oneway)
        (if c.agent_force_tls then second >> retry h c system_trust forced else last >> plain)
        (λ _. quiet-Ends P first (retry h c bare oneway) (warn_once-Quiet _ _) (
          retry-AreFit bare oneway (fits.0, refl, λ (has : false ≡ true). cc has)
            (λ e'. warn_once-Quiet _ _)))
        (λ _.
          if-Ends P c.agent_force_tls (second >> retry h c system_trust forced) (last >> plain)
            (λ on. quiet-Ends P second (retry h c system_trust forced) (warn_once-Quiet _ _) (
              retry-AreFit system_trust forced (rw on refl, refl, λ (has : false ≡ true). cc has)
                (λ e'. warn_once-Quiet _ _)))
            (λ off. quiet-Ends P last plain (warn_once-Quiet _ _) (pure-Ends P none tt)))

  credentials_for-AreFit :
      (o : Option Material)
      → Fits c.agent_force_tls o
      → Ends (AreFit c.agent_force_tls) (credentials_for h c o)
  unfolding credentials_for
  credentials_for-AreFit none fits = pure-Ends (AreFit c.agent_force_tls) none tt
  credentials_for-AreFit (some m) fits =
      catch-Ends (AreFit c.agent_force_tls) (IsBuilt m) (credentials h c m) every_fault
        (weaker h c m) (credentials-IsBuilt m) (λ o q. built-AreFit c.agent_force_tls m o fits q)
        (λ e left. cc left) (λ e. weaker-AreFit m e fits)

  -- From any state, whatever the files and grpc do: if credentials are built, TLS is forced or trusted
  -- roots were loaded, a client's certificate and key come together, and only with such roots; neither
  -- `OSError` nor `ValueError` is raised.
  pub grpc_ssl_credentials-AreFit :
      (s : State) → AreFit c.agent_force_tls (grpc_ssl_credentials h c s).0
  unfolding grpc_ssl_credentials
  grpc_ssl_credentials-AreFit s =
      (>>=-Ends (IsDecided c.agent_force_tls) (AreFit c.agent_force_tls) (tls_pem_material h c)
          (λ material. credentials_for h c material) (tls_pem_material-Ends h c) (λ e q. q)
          (λ o fits. credentials_for-AreFit o fits)).at
        s
