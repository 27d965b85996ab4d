-- ===== src/Tls/Temp/Files.antt =====
-- What skywalking/utils/tls.py hands out: a pair of files for a client's identity, and a file for the
-- trusted roots.
use skywalking_python.Prelude.{
  ◌≡◌, refl, true, ◌&&◌, Option, none, some, arith, Text, text_eq_iff, is_some, Bool-cases, inl,
  inr, ap, sym, ◌∙◌, codes,
}
use skywalking_python.Tls.Env.{Outcome, Outcome-cases, done, is_os, Host, State, warn_once}
use skywalking_python.Tls.Temp.{
  write_pair, new_cert_key_files, mtls_cert_key_files, same_pair, same_text, cached_ca,
  new_ca_verify_temp_file, or_new_ca, ca_verify_temp_file, pem_bytes_to_temp_file,
}
use skywalking_python.Tls.Temp.Writing.{IsTidy, Caches, caches}
use skywalking_python.Tls.Temp.Owned.{Made, pem_bytes_to_temp_file-Made}
use skywalking_python.Tls.Temp.Caching.{
  IsCoherent, Extends-IsCoherent, Effect, Effect-self, Effect-trans, Calm-Effect, same-Effect,
  warn_once-Calm, Paired, write_pair-Paired,
}

same_pair_sound : (o : Option (Text × Text)) (a b : Text) → same_pair o a b ≡ true → o ≡ some (a, b)
unfolding same_pair
same_pair_sound none a b e = cc e
same_pair_sound (some (c, d)) a b e = ground (arith, text_eq_iff c a, text_eq_iff d b)

same_text_sound : (o : Option Text) (a : Text) → same_text o a ≡ true → o ≡ some a
unfolding same_text
same_text_sound none a e = cc e
same_text_sound (some c) a e = ground (arith, text_eq_iff c a)

-- A pair is handed out: it holds what was asked for.
abbrev pub Handout : Type 0
Handout = Outcome (Option (Text × Text))

abbrev pub HoldsPair : Text → Text → Handout → State → Type 0
HoldsPair cert key r t =
    (p q : Text) → r ≡ done (some (p, q)) → (t.disk p ≡ some cert) × (t.disk q ≡ some key)

pub record Handed (cert key : Text) (s : State) (r : Handout) (t : State) : Type 0 where
  pub effect : Effect s t
  pub holds : IsCoherent s.disk (caches s) → HoldsPair cert key r t

pub record GivenCa (root : Text) (s : State) (r : Outcome Text) (t : State) : Type 0 where
  pub effect : Effect s t
  pub holds : IsCoherent s.disk (caches s) → (p : Text) → r ≡ done p → t.disk p ≡ some root

module _ (h : Host) (tidy : IsTidy h) where
  -- The caches take a pair that was just written.
  cached-Effect :
      (cert key p q : Text) (s t : State)
      → Paired cert key s (done (p, q)) t
      → Effect s
          (record t { mtls_file_cache_key = some (cert, key); mtls_file_cache = some (p, q) })
  cached-Effect cert key p q s t made = record {
    keeps = made.keeps;
    extends = made.extends;
    coheres = λ c. record {
      of_pair = λ p' q' a b x y.
          let left : p ≡ p' = cc x in
          let right : q ≡ q' = cc x in
          let one : cert ≡ a = cc y in
          let two : key ≡ b = cc y in
          rw (← left) (rw (← right) (rw (← one) (rw (← two) (made.holds p q refl))));
      of_ca = λ p' a x y.
          (Extends-IsCoherent s.disk t.disk (caches s) made.extends c).of_ca p' a
            (ap Caches.ca (sym made.same) ∙ x) (ap Caches.ca_key (sym made.same) ∙ y);
    };
  }

  new_cert_key_files-Handed :
      (cert key : Text) (s : State)
      → Handed cert key s (new_cert_key_files h cert key s).0 (new_cert_key_files h cert key s).1
  unfolding new_cert_key_files warn_once
  new_cert_key_files-Handed cert key s =
      let made : Outcome (Text × Text) × State = write_pair h cert key s in
      let pair : Paired cert key s made.0 made.1 = write_pair-Paired h tidy cert key s in
      let alone : Effect s made.1 = same-Effect s made.1 pair.keeps pair.extends pair.same in
      elim (Outcome-cases made.0) [
        | inl ((p, q), written) ↦ rw written (record {
          effect = cached-Effect cert key p q s made.1 (rw written at pair);
          holds = λ _ p' q' e. pair.holds p' q' (written ∙ cc e);
        })
        | inr (e, failed) ↦ rw failed (elim (Bool-cases (is_os e)) [
          | inl caught ↦ rw caught (record {
            effect = Effect-trans s made.1 _ alone (Calm-Effect _ _ (warn_once-Calm _ _ made.1));
            holds = λ _ p q e. cc e;
          })
          | inr missed ↦ rw missed (record { effect = alone; holds = λ _ p q e. cc e })
        ])
      ]

  -- Whatever the cache holds, and whether files can be written or not: the operation leaves the files
  -- of others alone and the caches right, and a pair that it returns holds the certificate and the key.
  pub mtls_cert_key_files-Handed :
      (cert key : Text) (s : State)
      → Handed cert key s (mtls_cert_key_files h cert key s).0 (mtls_cert_key_files h cert key s).1
  unfolding mtls_cert_key_files
  mtls_cert_key_files-Handed cert key s =
      elim (Bool-cases (is_some s.mtls_file_cache && same_pair s.mtls_file_cache_key cert key)) [
        | inr new ↦ rw new (new_cert_key_files-Handed cert key s)
        | inl hit ↦ rw hit (record {
          effect = Effect-self s;
          holds = λ c p q e.
              c.of_pair p q cert key (cc e)
                (same_pair_sound s.mtls_file_cache_key cert key (ground arith));
        })
      ]

  new_ca-Given :
      (root : Text) (s : State)
      → GivenCa root s (new_ca_verify_temp_file h root s).0 (new_ca_verify_temp_file h root s).1
  unfolding new_ca_verify_temp_file
  new_ca-Given root s =
      let made : Outcome Text × State = pem_bytes_to_temp_file h root (codes ".crt") s in
      let file : Made root s made.0 made.1 =
        pem_bytes_to_temp_file-Made h tidy root (codes ".crt") s in
      elim (Outcome-cases made.0) [
        | inr (e, failed) ↦ rw failed (record {
          effect = same-Effect s made.1 file.keeps file.extends file.same;
          holds = λ _ p e. cc e;
        })
        | inl (path, written) ↦ rw written (record {
          effect = record {
            keeps = file.keeps;
            extends = file.extends;
            coheres = λ c. record {
              of_pair = λ p q a b x y.
                  (Extends-IsCoherent s.disk made.1.disk (caches s) file.extends c).of_pair p q a b
                    (ap Caches.pair (sym file.same) ∙ x) (ap Caches.pair_key (sym file.same) ∙ y);
              of_ca = λ p a x y.
                  let left : path ≡ p = cc x in
                  let one : root ≡ a = cc y in rw (← left) (rw (← one) (file.holds path written));
            };
          };
          holds = λ _ p e. file.holds p (written ∙ cc e);
        })
      ]

  given_by :
      (cache : Option Text) (root : Text) (s : State)
      → cache ≡ s.ca_file_cache
      → GivenCa root s
          (or_new_ca h (cached_ca h cache root s) root s).0
          (or_new_ca h (cached_ca h cache root s) root s).1
  unfolding cached_ca or_new_ca
  given_by none root s e = new_ca-Given root s
  given_by (some path) root s e =
      elim (Bool-cases (same_text s.ca_file_cache_key root && is_some (s.disk path))) [
        | inr new ↦ rw new (new_ca-Given root s)
        | inl hit ↦ rw hit (record {
          effect = Effect-self s;
          holds = λ c p x.
              let left : path ≡ p = cc x in
              rw (← left) (
                c.of_ca path root (sym e)
                  (same_text_sound s.ca_file_cache_key root (ground arith)));
        })
      ]

  pub ca_verify_temp_file-Given :
      (root : Text) (s : State)
      → GivenCa root s (ca_verify_temp_file h root s).0 (ca_verify_temp_file h root s).1
  unfolding ca_verify_temp_file
  ca_verify_temp_file-Given root s = given_by s.ca_file_cache root s refl
