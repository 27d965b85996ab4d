-- ===== src/Trace/Carrier/RoundTrip.antt =====
-- About the header `sw8` of skywalking/trace/carrier.py.
use skywalking_python.Prelude.{
  ◌≡◌, refl, none, some, List, [], ◌∷◌, Text, codes, join, split-join, Avoids, AllAvoid, sym,
  Option-cases, inl, inr,
}
use skywalking_python.Prelude.Result.{ok, err, attribute_error}
use skywalking_python.Trace.Carrier.{Base64, Carrier, val, set_val, assign_parts, assign}

module _ (b : Base64) where
  -- The parts of the header.
  abbrev parts : Carrier → Text → List Text
  parts c a =
      codes "1"
      ∷ b.encode c.trace_id
      ∷ b.encode c.segment_id
      ∷ c.span_id
      ∷ b.encode c.service
      ∷ b.encode c.service_instance
      ∷ b.encode c.endpoint
      ∷ b.encode a
      ∷ []

  val-eq-join :
      (c : Carrier) (a : Text)
      → c.client_address ≡ some a
      → val b c ≡ ok (join (codes "-") (parts c a))
  unfolding val
  val-eq-join c a e = rw e refl

  val-unset : (c : Carrier) → c.client_address ≡ none → val b c ≡ err attribute_error
  unfolding val
  val-unset c e = rw e refl

  parts-AllAvoid : (c : Carrier) (a : Text) → Avoids b'-' c.span_id → AllAvoid b'-' (parts c a)
  parts-AllAvoid c a h = (
    (refl, tt),
    (
      b.no_dash c.trace_id,
      (
        b.no_dash c.segment_id,
        (
          h,
          (
            b.no_dash c.service,
            (b.no_dash c.service_instance, (b.no_dash c.endpoint, (b.no_dash a, tt))),
          ),
        ),
      ),
    ),
  )

  assign-encode :
      (t : Text) (store : Text → Carrier → Carrier) (c : Carrier)
      → assign b (b.encode t) store c ≡ (ok tt, store t c)
  unfolding assign
  assign-encode t store c = rw (b.decode-encode t)

  assign_parts-parts :
      (c d : Carrier) (a : Text)
      → assign_parts b (parts c a) d
        ≡ (ok tt, record c { client_address = some a; correlation = d.correlation; raw = d.raw })
  unfolding assign_parts
  assign_parts-parts c d a = simp assign-encode

  set_val-join :
      (c d : Carrier) (a : Text)
      → Avoids b'-' c.span_id
      → c.client_address ≡ some a
      → let t = join (codes "-") (parts c a) in
        set_val b t d ≡ (ok tt, record c { correlation = d.correlation; raw = some t })
  unfolding set_val
  set_val-join c d a h e = rw (split-join b'-' _ _ (parts-AllAvoid c a h)) (
      rw (sym e) at
        (assign_parts-parts c (record d { raw = some (join (codes "-") (parts c a)) }) a))

  -- When the span id of a carrier has no dash and `val` writes a header, the setter recovers from
  -- the header each field of the carrier that was written, whatever the other carrier held; the
  -- dict of the other stays its own.
  pub set_val-val :
      (c d : Carrier) (t : Text)
      → Avoids b'-' c.span_id
      → val b c ≡ ok t
      → set_val b t d ≡ (ok tt, record c { correlation = d.correlation; raw = some t })
  set_val-val c d t h e = elim (Option-cases c.client_address) [
    | inl unset ↦ absurd (not_written unset)
    | inr (a, set_to) ↦ rw (written a set_to) (set_val-join c d a h set_to)
  ]
    where
      not_written : c.client_address ≡ none → ⊥
      not_written unset = cc (e, val-unset c unset)

      written : (a : Text) → c.client_address ≡ some a → t ≡ join (codes "-") (parts c a)
      written a set_to = cc (e, val-eq-join c a set_to)
