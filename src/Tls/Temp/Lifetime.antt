-- ===== src/Tls/Temp/Lifetime.antt =====
-- The temporary files of skywalking/utils/tls.py over the life of a process: from its start or its
-- fork, through any operations, to its exit.
use skywalking_python.Prelude.{
  ◌≡◌, refl, none, some, List, [], ◌∷◌, arith, if◌then◌else◌, Text, text_eq_iff, ◌∙◌,
}
use skywalking_python.Tls.Env.{done, Host, State, has_text}
use skywalking_python.Tls.Temp.{
  after_fork_in_child, unlink, unlink_all, cleanup_mtls_temp_files, mtls_cert_key_files,
  ca_verify_temp_file, validate_client_cert_key,
}
use skywalking_python.Tls.Temp.Writing.{IsTidy, caches}
use skywalking_python.Tls.Temp.Caching.{IsCoherent, Effect, Effect-self, Effect-trans}
use skywalking_python.Tls.Temp.Files.{mtls_cert_key_files-Handed, ca_verify_temp_file-Given}
use skywalking_python.Tls.Temp.Checking.{validate-Restores, Restores-Effect}

-- A call that makes temporary files: `_mtls_cert_key_files`, `_ca_verify_temp_file` or
-- `_validate_client_cert_key`.
pub data Operation : Type 0 where
  identity : (certificate_chain private_key : Text) → Operation
  trusted : (root_certificates : Text) → Operation
  checked : (cert_pem key_pem : Text) → Operation

module _ (h : Host) where
  unfoldable pub apply : Operation → State → State
  unfolding mtls_cert_key_files ca_verify_temp_file validate_client_cert_key
  apply (identity cert key) s = (mtls_cert_key_files h cert key s).1
  apply (trusted root) s = (ca_verify_temp_file h root s).1
  apply (checked cert key) s = (validate_client_cert_key h cert key s).1

  unfoldable pub run : List Operation → State → State
  unfolding apply
  run [] s = s
  run (o ∷ more) s = run more (apply o s)

module _ (h : Host) (tidy : IsTidy h) where
  apply-Effect : (o : Operation) (s : State) → Effect s (apply h o s)
  unfolding apply
  apply-Effect (identity cert key) s = (mtls_cert_key_files-Handed h tidy cert key s).effect
  apply-Effect (trusted root) s = (ca_verify_temp_file-Given h tidy root s).effect
  apply-Effect (checked cert key) s = Restores-Effect s _ (validate-Restores h tidy cert key s)

  run-Effect : (ops : List Operation) (s : State) → Effect s (run h ops s)
  unfolding run
  run-Effect [] s = Effect-self s
  run-Effect (o ∷ more) s =
      Effect-trans s (apply h o s) _ (apply-Effect o s) (run-Effect more (apply h o s))

  unlink_all_disk :
      (paths : List Text) (s : State) (f : Text)
      → (unlink_all h paths s).disk f ≡ (if has_text f paths then none else s.disk f)
  unfolding unlink_all unlink
  unlink_all_disk [] s f = refl
  unlink_all_disk (path ∷ paths) s f =
      unlink_all_disk paths (unlink h path s) f
      ∙ rw (tidy.unlinks s.now path) (ground (arith, text_eq_iff path f))

  -- The child of a fork, after any operations and its clean-up at exit: each temporary file on the
  -- disk is as it was at the fork, and there is no other.
  pub forked_child_cleans :
      (ops : List Operation) (s : State) (f : Text)
      → (cleanup_mtls_temp_files h (run h ops (after_fork_in_child s))).disk f ≡ s.disk f
  unfolding cleanup_mtls_temp_files after_fork_in_child
  forked_child_cleans ops s f =
      unlink_all_disk (run h ops (after_fork_in_child s)).mtls_temp_files
        (run h ops (after_fork_in_child s)) f
      ∙ (run-Effect ops (after_fork_in_child s)).keeps f

  forked-IsCoherent :
      (s : State) → IsCoherent (after_fork_in_child s).disk (caches (after_fork_in_child s))
  unfolding after_fork_in_child
  forked-IsCoherent s = record { of_pair = λ p q a b x y. cc; of_ca = λ p a x y. cc }

  -- After any operations of a process since its fork, the pair of files that is returned for a
  -- certificate and a key, new or from the cache, holds these two, and holds them after any later
  -- operations too, until the clean-up.
  pub files_hold :
      (ops more : List Operation) (s : State) (cert key p q : Text)
      → let t = run h ops (after_fork_in_child s) in
        (mtls_cert_key_files h cert key t).0 ≡ done (some (p, q))
        → let u = run h more (mtls_cert_key_files h cert key t).1 in
          (u.disk p ≡ some cert) × (u.disk q ≡ some key)
  files_hold ops more s cert key p q e =
      let start : State = after_fork_in_child s in
      let t : State = run h ops start in
      let handed = mtls_cert_key_files-Handed h tidy cert key t in
      let (one, two) = handed.holds ((run-Effect ops start).coheres (forked-IsCoherent s)) p q e in
      let later = run-Effect more (mtls_cert_key_files h cert key t).1 in
      (later.extends p cert one, later.extends q key two)
