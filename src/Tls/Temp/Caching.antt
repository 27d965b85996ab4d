-- ===== src/Tls/Temp/Caching.antt =====
-- The caches of temporary files in skywalking/utils/tls.py: the file that is handed out holds the
-- bytes that were asked for.
use skywalking_python.Prelude.{
  ◌≡◌, refl, Bool, true, false, none, some, [], ◌∷◌, ◌++◌, arith, if◌then◌else◌, Text, text_eq_iff,
  is_empty, Bool-cases, inl, inr, codes, ◌∙◌,
}
use skywalking_python.Tls.Env.{
  Warning, Outcome, Outcome-cases, done, is_os, Disk, Host, State, has_text, warn_once,
}
use skywalking_python.Tls.Temp.{unlink, discard_mtls_temp_path, pem_bytes_to_temp_file, write_pair}
use skywalking_python.Tls.Temp.Writing.{IsTidy, Caches, caches}
use skywalking_python.Tls.Temp.Owned.{
  Keeps, Keeps-trans, Extends, Made, pem_bytes_to_temp_file-Made, Calm, Calm-Keeps, has_text-remove,
}

-- The cached files are there, and hold what the keys of the caches say.
pub record IsCoherent (d : Disk) (c : Caches) : Type 0 where
  pub of_pair :
      (p q a b : Text)
      → c.pair ≡ some (p, q)
      → c.pair_key ≡ some (a, b)
      → (d p ≡ some a) × (d q ≡ some b)
  pub of_ca : (p a : Text) → c.ca ≡ some p → c.ca_key ≡ some a → d p ≡ some a

pub Extends-IsCoherent : (d e : Disk) (c : Caches) → Extends d e → IsCoherent d c → IsCoherent e c
Extends-IsCoherent d e c extends h = record {
  of_pair = λ p q a b x y. let (l, r) = h.of_pair p q a b x y in (extends p a l, extends q b r);
  of_ca = λ p a x y. extends p a (h.of_ca p a x y);
}

-- What an operation leaves of the disk and the caches.
pub record Effect (s t : State) : Type 0 where
  pub keeps : Keeps s t
  pub extends : Extends s.disk t.disk
  pub coheres : IsCoherent s.disk (caches s) → IsCoherent t.disk (caches t)

pub same-Effect :
    (s t : State) → Keeps s t → Extends s.disk t.disk → caches t ≡ caches s → Effect s t
same-Effect s t keeps extends same = record {
  keeps = keeps;
  extends = extends;
  coheres = λ h. rw same (Extends-IsCoherent s.disk t.disk (caches s) extends h);
}

pub Effect-self : (s : State) → Effect s s
Effect-self s = record { keeps = λ f. refl; extends = λ f a e. e; coheres = λ h. h }

pub Effect-trans : (s t u : State) → Effect s t → Effect t u → Effect s u
Effect-trans s t u p q = record {
  keeps = Keeps-trans s t u p.keeps q.keeps;
  extends = λ f a e. q.extends f a (p.extends f a e);
  coheres = λ h. q.coheres (p.coheres h);
}

pub Calm-Effect : (s t : State) → Calm s t → Effect s t
Calm-Effect s t calm =
    same-Effect s t (Calm-Keeps s t calm) (λ f a e. rw calm.same_disk e) calm.same_caches

pub warn_once-Calm : (key : Text) (w : Warning) (s : State) → Calm s (warn_once key w s).1
unfolding warn_once
warn_once-Calm key w s = by_flag (has_text key s.warned_keys)
  where
    by_flag :
        (b : Bool)
        → Calm s
            (if b then s else record s { warned_keys = key ∷ s.warned_keys; log = s.log ++ w ∷ [] })
    by_flag true = record { same_disk = refl; same_files = refl; same_caches = refl }
    by_flag false = record { same_disk = refl; same_files = refl; same_caches = refl }

-- The pair of files, once it is made.
pub record Paired (cert key : Text) (s : State) (r : Outcome (Text × Text)) (t : State)
    : Type 0 where
  pub keeps : Keeps s t
  pub extends : Extends s.disk t.disk
  pub same : caches t ≡ caches s
  pub holds : (p q : Text) → r ≡ done (p, q) → (t.disk p ≡ some cert) × (t.disk q ≡ some key)

module _ (h : Host) (tidy : IsTidy h) where
  -- The certificate's file is new, the key's failed: the first goes too.
  module _ (path : Text) (s t : State) (named : is_empty path ≡ false)
      (new : s.disk path ≡ none) where
    discard-Keeps : Keeps s t → Keeps s (discard_mtls_temp_path h path t)
    unfolding discard_mtls_temp_path unlink
    discard-Keeps keeps f = rw named (
        rw (tidy.unlinks t.now path) (
          ground
            (arith, keeps f, text_eq_iff path f, has_text-remove f path t.mtls_temp_files, new)))

    discard-Extends : Extends s.disk t.disk → Extends s.disk (discard_mtls_temp_path h path t).disk
    unfolding discard_mtls_temp_path unlink
    discard-Extends extends f a e =
        rw named
          (rw (tidy.unlinks t.now path) (ground (arith, extends f a e, text_eq_iff path f, new)))

    discard_same : caches (discard_mtls_temp_path h path t) ≡ caches t
    unfolding discard_mtls_temp_path unlink
    discard_same = rw named refl

  pub write_pair-Paired :
      (certificate private_key : Text) (s : State)
      → Paired certificate private_key s
          (write_pair h certificate private_key s).0
          (write_pair h certificate private_key s).1
  unfolding write_pair
  write_pair-Paired certificate private_key s =
      let first : Outcome Text × State = pem_bytes_to_temp_file h certificate (codes ".crt") s in
      let one : Made certificate s first.0 first.1 =
        pem_bytes_to_temp_file-Made h tidy certificate (codes ".crt") s in
      elim (Outcome-cases first.0) [
        | inr (e, failed) ↦ rw failed (record {
          keeps = one.keeps;
          extends = one.extends;
          same = one.same;
          holds = λ p q e. cc e;
        })
        | inl (path, made) ↦
            let second : Outcome Text × State =
              pem_bytes_to_temp_file h private_key (codes ".pem") first.1 in
            let two : Made private_key first.1 second.0 second.1 =
              pem_bytes_to_temp_file-Made h tidy private_key (codes ".pem") first.1 in
            let keeps : Keeps s second.1 = Keeps-trans s first.1 second.1 one.keeps two.keeps in
            let extends : Extends s.disk second.1.disk =
              λ f a e. two.extends f a (one.extends f a e) in
            let same : caches second.1 ≡ caches s = cc (one.same, two.same) in
            let (new, named) = one.was_new path made in
            elim (Outcome-cases second.0) [
              | inl (other, also) ↦ rw made (
                  rw also (record {
                    keeps = keeps;
                    extends = extends;
                    same = same;
                    holds = λ p q e.
                        let left : path ≡ p = cc e in
                        let right : other ≡ q = cc e in
                        rw (← left) (
                          rw (← right) (
                            two.extends path certificate (one.holds path made),
                            two.holds other also,
                          ));
                  }))
              | inr (e, failed) ↦ rw made (
                  rw failed (elim (Bool-cases (is_os e)) [
                    | inl caught ↦ rw caught (record {
                      keeps = discard-Keeps path s second.1 named new keeps;
                      extends = discard-Extends path s second.1 named new extends;
                      same = discard_same path s second.1 named new ∙ same;
                      holds = λ p q e. cc e;
                    })
                    | inr missed ↦ rw missed (record {
                      keeps = keeps;
                      extends = extends;
                      same = same;
                      holds = λ p q e. cc e;
                    })
                  ]))
            ]
      ]
