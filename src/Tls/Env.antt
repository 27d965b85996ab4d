-- ===== src/Tls/Env.antt =====
-- What skywalking/utils/tls.py works with: the options, the host that it asks, the variables of the
-- module, and calls that may raise.
use skywalking_python.Prelude.{
  ℕ, ◌+◌, ◌≡◌, ◌⊎◌, inl, inr, refl, Bool, true, false, ◌||◌, Option, none, some, List, [], ◌∷◌,
  ◌++◌, if◌then◌else◌, Text, text_eq, is_empty,
}
use skywalking_python.Grpc.Address.{Platform, strip}

-- The exceptions, each with its `str()`.
pub data Fault : Type 0 where
  os_error value_error runtime_error other : Text → Fault

pub data Outcome (A : Type 0) : Type 0 where
  done : A → Outcome A
  raised : Fault → Outcome A

pub Outcome-cases :
    {A : Type 0} (r : Outcome A) → ((a : A) × (r ≡ done a)) ⊎ ((e : Fault) × (r ≡ raised e))
Outcome-cases (done a) = inl (a, refl)
Outcome-cases (raised e) = inr (e, refl)

abbrev pub message : Fault → Text
message (os_error t) = t
message (value_error t) = t
message (runtime_error t) = t
message (other t) = t

-- `except OSError`, `except (OSError, ValueError)`, and that with `RuntimeError`
abbrev pub is_os : Fault → Bool
is_os (os_error _) = true
is_os _ = false

abbrev pub is_os_value : Fault → Bool
is_os_value (os_error _) = true
is_os_value (value_error _) = true
is_os_value _ = false

abbrev pub is_path_fault : Fault → Bool
is_path_fault (other _) = false
is_path_fault _ = true

-- The options that are read.
pub record Config : Type 0 where
  pub agent_force_tls : Bool
  pub agent_ssl_trusted_ca_path : Text
  pub agent_ssl_cert_chain_path : Text
  pub agent_ssl_key_path : Text

-- The temporary files, with what they hold.
abbrev pub Disk : Type 0
Disk = Text → Option Text

-- PEM bytes for the trusted roots, the private key and the chain of certificates.
pub record Material : Type 0 where
  pub root_certificates : Option Text
  pub private_key : Option Text
  pub certificate_chain : Option Text

-- The answers of the host. The number is that of the calls before, so that the same question may be
-- answered otherwise later.
pub record Host : Type 0 where
  pub platform : Platform
  -- `Path(text).expanduser().resolve(strict=True)`, `path.is_file()`, `Path(…).absolute()`
  pub resolve : ℕ → Text → Outcome Text
  pub is_file : ℕ → Text → Outcome Bool
  pub absolute : ℕ → Text → Outcome Text
  pub getsize : ℕ → Text → Outcome ℕ
  pub read_bytes : ℕ → Text → Outcome Text
  -- `tempfile.mkstemp`, given what is on the disk; the bytes that `os.write` takes of so many; and
  -- whether `os.unlink` removes a file
  pub mkstemp : ℕ → Disk → Text → Outcome Text
  pub write : ℕ → ℕ → Outcome ℕ
  pub unlink : ℕ → Text → Bool
  -- `ssl.create_default_context` with a `cafile`, with `cadata` and without; `load_cert_chain`
  pub accepts_cafile : ℕ → Text → Outcome (Unit {0})
  pub accepts_cadata : ℕ → Text → Outcome (Unit {0})
  pub system_trust : ℕ → Outcome (Unit {0})
  pub load_cert_chain : ℕ → Text → Text → Outcome (Unit {0})
  -- `grpc.ssl_channel_credentials`
  pub channel_credentials : ℕ → Material → Outcome (Unit {0})
  -- `decode('utf-8', errors='ignore')`, `str.upper`, `base64.b64decode` and `b64encode`
  pub decode : Text → Text
  pub upper : Text → Text
  pub b64decode : Text → Outcome Text
  pub b64encode : Text → Text

-- What a log line says, with its arguments.
pub data Warning : Type 0 where
  ca_ignored ca_disabled : (path : Text) → Warning
  ca_forced ca_plain : (exc : Fault) → Warning
  mtls_without_ca mtls_partial mtls_not_found : Warning
  mtls_unreadable mtls_temp : (exc : Fault) → Warning
  material_failed scheme_failed : (exc : Fault) → Warning
  creds_mtls creds_oneway creds_force creds_force_fail creds_plain : (exc : Fault) → Warning
  verify_path verify_system session_failed : (exc : Fault) → Warning
  context_ca context_plain context_system context_mtls : (exc : Fault) → Warning

-- The variables of the module, the log, the temporary files, the number of calls of the host, and how
-- often the clean-up is registered with `atexit`.
pub record State : Type 0 where
  pub now : ℕ
  pub disk : Disk
  pub log : List Warning
  pub warned_keys : List Text
  pub mtls_temp_files : List Text
  pub mtls_file_cache_key : Option (Text × Text)
  pub mtls_file_cache : Option (Text × Text)
  pub ca_file_cache_key : Option Text
  pub ca_file_cache : Option Text
  pub atexit_registered : Bool
  pub at_exit : ℕ

abbrev pub Exec : Type 0 → Type 0
Exec A = State → Outcome A × State

module _ {A : Type 0} where
  abbrev pub pure : A → Exec A
  pure a s = (done a, s)

  abbrev pub raise : Fault → Exec A
  raise e s = (raised e, s)

  abbrev pub gets : (State → A) → Exec A
  gets f s = (done (f s), s)

  -- A call of the host.
  abbrev pub ask : (ℕ → Outcome A) → Exec A
  ask f s = (f s.now, record s { now = s.now + 1 })

  abbrev pub handle : Outcome A → (Fault → Bool) → (Fault → Exec A) → Exec A
  handle (done a) caught h s = (done a, s)
  handle (raised e) caught h s = if caught e then h e s else (raised e, s)

  -- `try: … except …`
  abbrev pub catch : Exec A → (Fault → Bool) → (Fault → Exec A) → Exec A
  catch m caught h s = let (r, s') = m s in handle r caught h s'

abbrev pub modify : (State → State) → Exec (Unit {0})
modify f s = (done tt, f s)

module _ {A B : Type 0} where
  abbrev pub continue : Outcome A → (A → Exec B) → Exec B
  continue (done a) f s = f a s
  continue (raised e) f s = (raised e, s)

  infixl 5 ◌>>=◌ ◌>>◌
  abbrev pub ◌>>=◌ : Exec A → (A → Exec B) → Exec B
  ◌>>=◌ m f s = let (r, s') = m s in continue r f s'

  abbrev pub ◌>>◌ : Exec A → Exec B → Exec B
  m >> k = m >>= λ _. k

abbrev pub has_text : Text → List Text → Bool
has_text t [] = false
has_text t (u ∷ us) = text_eq u t || has_text t us

-- `logger.warning`
abbrev pub warn : Warning → Exec (Unit {0})
warn w s = (done tt, record s { log = s.log ++ w ∷ [] })

-- `_warn_once`
unfoldable pub warn_once : Text → Warning → Exec (Unit {0})
warn_once key w s = (
  done tt,
  if has_text key s.warned_keys
      then s
      else record s { warned_keys = key ∷ s.warned_keys; log = s.log ++ w ∷ [] },
)

module _ (h : Host) where
  -- `_configured_path`; a text is never `None` here.
  unfoldable pub configured_path : Text → Text
  configured_path value = strip h.platform value

  -- The file that a path leads to, if it is a regular one.
  unfoldable pub regular : Text → Exec (Option Text)
  regular text = do
    path ← ask (λ n. h.resolve n text)
    found ← ask (λ n. h.is_file n path)
    pure (if found then some path else none)

  -- `ssl_file_path`
  unfoldable pub ssl_file_path : Text → Exec (Option Text)
  unfolding configured_path regular
  ssl_file_path value =
      let text = configured_path value in
      if is_empty text then pure none else catch (regular text) is_path_fault (λ _. pure none)

-- `_MAX_PEM_BYTES`
abbrev pub max_pem_bytes : ℕ
max_pem_bytes = 262144
