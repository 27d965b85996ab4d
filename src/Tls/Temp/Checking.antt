-- ===== src/Tls/Temp/Checking.antt =====
-- The check of a client's certificate and key in skywalking/utils/tls.py: its two files are gone when
-- it ends, well or not.
use skywalking_python.Prelude.{
  ℕ, ◌+◌, ◌-◌, ◌≡◌, refl, none, some, [], arith, Text, text_eq_iff, inl, inr, length, ◌∙◌, codes,
  take,
}
use skywalking_python.Tls.Env.{Outcome, Outcome-cases, Host, State, Exec, modify, ◌>>◌, ask}
use skywalking_python.Tls.Temp.{
  put_file, create, mkstemp, write, unlink, on_error, check_key, check_files,
  validate_client_cert_key,
}
use skywalking_python.Tls.Temp.Writing.{
  IsTidy, caches, Touches, Touches-trans, put-Touches, now-Touches, put_same,
}
use skywalking_python.Tls.Temp.Caching.{Effect, same-Effect}

-- The same files, with the same contents.
pub record Restores (s t : State) : Type 0 where
  pub files : (f : Text) → t.disk f ≡ s.disk f
  pub list : t.mtls_temp_files ≡ s.mtls_temp_files
  pub same : caches t ≡ caches s

Restores-trans : (s t u : State) → Restores s t → Restores t u → Restores s u
Restores-trans s t u p q = record {
  files = λ f. q.files f ∙ p.files f;
  list = q.list ∙ p.list;
  same = q.same ∙ p.same;
}

pub Restores-Effect : (s t : State) → Restores s t → Effect s t
Restores-Effect s t r =
    same-Effect s t (λ f. ground (arith, r.files f, r.list)) (λ f a e. r.files f ∙ e) r.same

module _ (h : Host) (tidy : IsTidy h) where
  -- A file that was new, whatever was done to it, is unlinked.
  unlink-Restores :
      (path : Text) (s t : State)
      → s.disk path ≡ none
      → Touches path s t
      → Restores s (unlink h path t)
  unfolding unlink
  unlink-Restores path s t new touches = rw (tidy.unlinks t.now path) (record {
    files = λ f. ground (arith, text_eq_iff path f, touches.others f, new);
    list = touches.files;
    same = touches.same;
  })

  write-Touches : (path bytes : Text) (s : State) → Touches path s (write h path bytes 0 s).1
  unfolding write
  write-Touches path bytes s = elim (Outcome-cases (h.write s.now (length bytes - 0))) [
    | inl (w, e) ↦ rw e (put-Touches path _ s (s.now + 1))
    | inr (x, e) ↦ rw e (now-Touches path s (s.now + 1))
  ]

  -- In the first file is something.
  write_there :
      (path bytes a : Text) (s : State)
      → s.disk path ≡ some a
      → (b : Text) × ((write h path bytes 0 s).1.disk path ≡ some b)
  unfolding write
  write_there path bytes a s there = elim (Outcome-cases (h.write s.now (length bytes - 0))) [
    | inl (w, e) ↦ rw e (take (0 + w) bytes, put_same s.disk path _)
    | inr (x, e) ↦ rw e (a, there)
  ]

  unlink_both-Restores :
      (c k : Text) (s t u : State)
      → s.disk c ≡ none
      → t.disk k ≡ none
      → Touches c s t
      → Touches k t u
      → (b : Text) × (t.disk c ≡ some b)
      → Restores s (unlink h k (unlink h c u))
  unfolding unlink
  unlink_both-Restores c k s t u new_c new_k first second (b, there) = rw (tidy.unlinks u.now c) (
      rw (tidy.unlinks (u.now + 1) k) (record {
        files = λ f. ground (
          arith,
          text_eq_iff k f,
          text_eq_iff c f,
          text_eq_iff c k,
          second.others f,
          first.others f,
          first.others k,
          new_c,
          new_k,
          there,
        );
        list = second.files ∙ first.files;
        same = second.same ∙ first.same;
      }))

  -- What stands in `finally` is done once, whether an exception comes or not.
  finally_done :
      {A : Type 0} (m : Exec A) (cleanup : State → State) (s : State)
      → ((on_error h m cleanup >> modify cleanup) s).1 ≡ cleanup (m s).1
  unfolding on_error
  finally_done m cleanup s = elim (Outcome-cases (m s).0) [
    | inl (a, e) ↦ rw e refl
    | inr (x, e) ↦ rw e refl
  ]

  loaded-Touches :
      (c k key : Text) (s : State)
      → Touches k s ((write h k key 0 >> ask (λ n. h.load_cert_chain n c k)) s).1
  loaded-Touches c k key s =
      let put : Outcome ℕ × State = write h k key 0 s in
      elim (Outcome-cases put.0) [
        | inr (x, e) ↦ rw e (write-Touches k key s)
        | inl (w, e) ↦ rw e (
            Touches-trans k s put.1 _ (write-Touches k key s) (now-Touches k put.1 (put.1.now + 1)))
      ]

  -- From the file of the key on.
  key_part :
      (c k key : Text) (s t : State)
      → s.disk c ≡ none
      → t.disk k ≡ none
      → Touches c s t
      → (b : Text) × (t.disk c ≡ some b)
      → Restores s
          (check_key h c k key (record t { now = t.now + 1; disk = put_file t.disk k (some []) })).1
  unfolding check_key
  key_part c k key s t new_c new_k first there =
      let t' : State = record t { now = t.now + 1; disk = put_file t.disk k (some []) } in
      let body : Exec (Unit {0}) = write h k key 0 >> ask (λ n. h.load_cert_chain n c k) in
      let cleanup : State → State = λ u. unlink h k (unlink h c u) in
      rw (finally_done body cleanup t') (
        unlink_both-Restores c k s t _ new_c new_k first
          (Touches-trans k t t' _ (put-Touches k (some []) t (t.now + 1))
            (loaded-Touches c k key t'))
          there)

  -- From the file of the certificate on.
  cert_part :
      (c cert key : Text) (s : State)
      → s.disk c ≡ none
      → Restores s
          (check_files h c cert key
            (record s { now = s.now + 1; disk = put_file s.disk c (some []) })).1
  unfolding check_files on_error
  cert_part c cert key s new =
      let made : State = record s { now = s.now + 1; disk = put_file s.disk c (some []) } in
      let put : Outcome ℕ × State = write h c cert 0 made in
      let touches : Touches c s put.1 =
        Touches-trans c s made put.1 (put-Touches c (some []) s (s.now + 1))
          (write-Touches c cert made) in
      let u : State = put.1 in
      let there : (b : Text) × (u.disk c ≡ some b) =
        write_there c cert [] made (put_same s.disk c (some [])) in
      elim (Outcome-cases put.0) [
        | inr (x, e) ↦ rw e (unlink-Restores c s u new touches)
        | inl (w, e) ↦ rw e (elim (Outcome-cases (h.mkstemp u.now u.disk (codes ".pem"))) [
          | inr (x, failed) ↦
              rw (failed, mkstemp, create)
                (unlink-Restores c s _ new
                  (Touches-trans c s u _ touches (now-Touches c u (u.now + 1))))
          | inl (k, second) ↦
              rw (second, mkstemp, create)
                (key_part c k key s u new (tidy.fresh _ _ _ _ second) touches there)
        ])
      ]

  pub validate-Restores :
      (cert key : Text) (s : State) → Restores s (validate_client_cert_key h cert key s).1
  unfolding validate_client_cert_key mkstemp create
  validate-Restores cert key s = elim (Outcome-cases (h.mkstemp s.now s.disk (codes ".crt"))) [
    | inr (x, e) ↦ rw e (record { files = λ f. refl; list = refl; same = refl })
    | inl (c, e) ↦ rw e (cert_part c cert key s (tidy.fresh _ _ _ _ e))
  ]
