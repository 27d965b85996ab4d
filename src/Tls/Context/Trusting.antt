-- ===== src/Tls/Context/Trusting.antt =====
-- The contexts of skywalking/utils/tls.py: a client's identity is only in one with custom roots.
use skywalking_python.Prelude.{
  ◌≡◌, refl, Bool, true, false, Option, none, some, if◌then◌else◌, Text, is_some, codes, ◌++◌, ◌&&◌,
}
use skywalking_python.Tls.Env.{
  Outcome, done, raised, is_os, message, Config, Material, Host, State, Exec, pure, ask, ◌>>◌,
  warn_once, context_system, context_mtls, mtls_temp,
}
use skywalking_python.Tls.Outcomes.{
  Ends, Anything, >>=-Ends, catch-Ends, if-Ends, pure-Ends, all-Anything,
}
use skywalking_python.Tls.Temp.{mtls_cert_key_files, new_cert_key_files, same_pair}
use skywalking_python.Tls.Material.Identity.{quiet-Ends, warn_once-Quiet}
use skywalking_python.Tls.Material.Decision.{Fits, IsDecided, tls_pem_material-Ends}
use skywalking_python.Tls.Clients.{Given, system, Context, Loaded, loaded, failed, or_material}
use skywalking_python.Tls.Context.{
  load_ca, system_context, load_identity, with_identity, with_ca_loaded, context_by, context_for,
  ssl_context_for_collector,
}
use skywalking_python.Tls.Context.Roots.{is_custom, NoOs, IsLoaded, no_os, load_ca-IsLoaded}

-- A client's identity stands only beside custom roots, and `OSError` is not raised.
abbrev pub IsTrusting : Outcome (Option Context) → Type 0
IsTrusting (done none) = Unit
IsTrusting (done (some ctx)) = is_some ctx.identity ≡ true → is_custom ctx.trust ≡ true
IsTrusting (raised e) = is_os e ≡ false

-- A context before its identity, for a key that may be put into it.
abbrev IsReady : Option Text → Outcome (Option Context) → Type 0
IsReady key (done none) = Unit
IsReady key (done (some ctx)) =
    (is_some ctx.identity ≡ false) × (is_some key ≡ true → is_custom ctx.trust ≡ true)
IsReady key (raised e) = is_os e ≡ false

module _ (h : Host) (c : Config) where
  -- The trust store of the process, for a key that there is not.
  system_context-IsReady :
      (key : Option Text) → is_some key ≡ false → Ends (IsReady key) (system_context h c)
  unfolding system_context
  system_context-IsReady key no_key =
      let bare : Option Context = some (record { trust = system; identity = none }) in
      catch-Ends (IsReady key) Bare (ask h.system_trust >> pure bare) is_os
        (λ e. warn_once (codes "ssl-ctx-system:" ++ message e) (context_system e) >> pure none)
        (>>=-Ends Anything Bare (ask h.system_trust) (λ _. pure bare) (all-Anything _) (λ e _. tt)
          (λ _ _. pure-Ends Bare bare refl))
        bare_ready (λ e missed. missed)
        (λ e.
          quiet-Ends (IsReady key) _ (pure none) (warn_once-Quiet _ _)
            (pure-Ends (IsReady key) none tt))
    where
      Bare : Outcome (Option Context) → Type 0
      Bare (done o) = o ≡ some (record { trust = system; identity = none })
      Bare (raised e) = Unit

      bare_ready : (o : Option Context) → Bare (done o) → IsReady key (done o)
      bare_ready o q = rw q (refl, λ (has : is_some key ≡ true). cc (no_key, has))

  load_identity-IsTrusting :
      (ctx : Context) (pair : Option (Text × Text))
      → is_custom ctx.trust ≡ true
      → Ends IsTrusting (load_identity h c ctx pair)
  unfolding load_identity
  load_identity-IsTrusting ctx none trusted = pure-Ends IsTrusting (some ctx) (λ _. trusted)
  load_identity-IsTrusting ctx (some (cert, key)) trusted =
      let full : Option Context = some (record ctx { identity = some (cert, key) }) in
      let load : Exec (Unit {0}) = ask (λ n. h.load_cert_chain n cert key) in
      catch-Ends IsTrusting Trusted (load >> pure full) is_os
        (λ e. warn_once (codes "ssl-ctx-mtls:" ++ message e) (context_mtls e) >> pure (some ctx))
        (>>=-Ends Anything Trusted load (λ _. pure full) (all-Anything _) (λ e _. tt)
          (λ _ _. pure-Ends Trusted full (λ _. trusted)))
        (λ o q. well o q) (λ e missed. missed)
        (λ e.
          quiet-Ends IsTrusting _ (pure (some ctx)) (warn_once-Quiet _ _)
            (pure-Ends IsTrusting (some ctx) (λ _. trusted)))
    where
      Trusted : Outcome (Option Context) → Type 0
      Trusted (done none) = Unit
      Trusted (done (some o)) = is_some o.identity ≡ true → is_custom o.trust ≡ true
      Trusted (raised e) = Unit

      well : (o : Option Context) → Trusted (done o) → IsTrusting (done o)
      well none q = tt
      well (some o) q = q

  new_files-NoOs : (chain key : Text) → Ends NoOs (new_cert_key_files h chain key)
  unfolding new_cert_key_files
  new_files-NoOs chain key =
      catch-Ends NoOs Anything _ is_os
        (λ e. warn_once (codes "mtls-temp:" ++ message e) (mtls_temp e) >> pure none)
        (all-Anything _) (λ a q. tt) (λ e missed. missed)
        (λ e. quiet-Ends NoOs _ (pure none) (warn_once-Quiet _ _) (pure-Ends NoOs none tt))

  bare-IsTrusting :
      (ctx : Context) → is_some ctx.identity ≡ false → Ends IsTrusting (pure (some ctx))
  bare-IsTrusting ctx bare =
      pure-Ends IsTrusting (some ctx) (λ (has : is_some ctx.identity ≡ true). cc (bare, has))

  files-NoOs : (chain key : Text) → Ends NoOs (mtls_cert_key_files h chain key)
  unfolding mtls_cert_key_files new_cert_key_files
  files-NoOs chain key = record {
    at = λ s.
        cached_or (is_some s.mtls_file_cache && same_pair s.mtls_file_cache_key chain key) s
          ((new_files-NoOs chain key).at s);
  }
    where
      cached_or :
          (b : Bool) (s : State)
          → NoOs (new_cert_key_files h chain key s).0
          → NoOs (if b then (done s.mtls_file_cache, s) else new_cert_key_files h chain key s).0
      cached_or true s q = tt
      cached_or false s q = q

  with_identity-IsTrusting :
      (key chain : Option Text) (o : Option Context)
      → IsReady key (done o)
      → Ends IsTrusting (with_identity h c key chain o)
  unfolding with_identity
  with_identity-IsTrusting (some key) (some chain) (some ctx) ready =
      >>=-Ends NoOs IsTrusting (mtls_cert_key_files h chain key)
        (λ pair. load_identity h c ctx pair) (files-NoOs chain key) (λ e q. q)
        (λ pair _. load_identity-IsTrusting ctx pair (ready.1 refl))
  with_identity-IsTrusting (some key) (some chain) none ready = pure-Ends IsTrusting none tt
  with_identity-IsTrusting (some key) none none ready = pure-Ends IsTrusting none tt
  with_identity-IsTrusting none chain none ready = pure-Ends IsTrusting none tt
  with_identity-IsTrusting (some key) none (some ctx) ready = bare-IsTrusting ctx ready.0
  with_identity-IsTrusting none chain (some ctx) ready = bare-IsTrusting ctx ready.0

  system-IsTrusting : Ends IsTrusting (system_context h c)
  system-IsTrusting = record {
    at = λ s. of_ready (system_context h c s).0 ((system_context-IsReady none refl).at s);
  }
    where
      of_ready : (r : Outcome (Option Context)) → IsReady none r → IsTrusting r
      of_ready (done none) q = tt
      of_ready (done (some ctx)) q = λ (has : is_some ctx.identity ≡ true). cc (q.0, has)
      of_ready (raised e) q = q

  with_ca_loaded-IsTrusting :
      (m : Material) (l : Loaded) → IsLoaded (done l) → Ends IsTrusting (with_ca_loaded h c m l)
  unfolding with_ca_loaded
  with_ca_loaded-IsTrusting m (loaded trust) q =
      with_identity-IsTrusting m.private_key m.certificate_chain
        (some (record { trust = trust; identity = none })) (refl, λ _. q)
  with_ca_loaded-IsTrusting m (failed e) q =
      if-Ends IsTrusting c.agent_force_tls _ _
        (λ _. quiet-Ends IsTrusting _ (system_context h c) (warn_once-Quiet _ _) system-IsTrusting)
        (λ _.
          quiet-Ends IsTrusting _ (pure none) (warn_once-Quiet _ _) (pure-Ends IsTrusting none tt))

  context_by-IsTrusting :
      (root : Option Text) (m : Material)
      → (is_some m.private_key ≡ true → is_some root ≡ true)
      → Ends IsTrusting (context_by h c root m)
  unfolding context_by
  context_by-IsTrusting (some root) m rooted =
      >>=-Ends IsLoaded IsTrusting (load_ca h c root) (λ l. with_ca_loaded h c m l)
        (load_ca-IsLoaded h c root) (λ e q. q) (λ l q. with_ca_loaded-IsTrusting m l q)
  context_by-IsTrusting none m rooted =
      >>=-Ends (IsReady m.private_key) IsTrusting (system_context h c)
        (λ o. with_identity h c m.private_key m.certificate_chain o)
        (system_context-IsReady m.private_key (no_key (is_some m.private_key) rooted)) (λ e q. q)
        (λ o q. with_identity-IsTrusting m.private_key m.certificate_chain o q)
    where
      no_key : (b : Bool) → (b ≡ true → false ≡ true) → b ≡ false
      no_key true f = cc (f refl)
      no_key false f = refl

  context_for-IsTrusting :
      (force : Bool) (o : Option Material) → Fits force o → Ends IsTrusting (context_for h c o)
  unfolding context_for
  context_for-IsTrusting force none fits = pure-Ends IsTrusting none tt
  context_for-IsTrusting force (some m) fits = context_by-IsTrusting m.root_certificates m fits.2

  -- The material of a context: loaded now, or given, if it fits.
  abbrev pub GivenFits : Given → Type 0
  GivenFits none = Unit
  GivenFits (some o) = Fits c.agent_force_tls o

  or_material-Fits :
      (given : Given) → GivenFits given → Ends (IsDecided c.agent_force_tls) (or_material h c given)
  unfolding or_material
  or_material-Fits none fits = tls_pem_material-Ends h c
  or_material-Fits (some o) fits = pure-Ends (IsDecided c.agent_force_tls) o fits

  -- For material that fits the options, or is loaded by the call: whatever the files and the ssl
  -- module do, a context that holds a client's certificate and key trusts custom roots only, and
  -- `OSError` is not raised.
  pub ssl_context-IsTrusting :
      (given : Given) (s : State)
      → GivenFits given
      → IsTrusting (ssl_context_for_collector h c given s).0
  unfolding ssl_context_for_collector
  ssl_context-IsTrusting given s fits =
      (>>=-Ends (IsDecided c.agent_force_tls) IsTrusting (or_material h c given)
          (λ material. context_for h c material) (or_material-Fits given fits) no_os
          (λ o q. context_for-IsTrusting c.agent_force_tls o q)).at
        s
