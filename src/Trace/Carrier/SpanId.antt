-- ===== src/Trace/Carrier/SpanId.antt =====
-- About the span id of a carrier, a number in decimal, in skywalking/trace/carrier.py.
use skywalking_python.Prelude.{
  ℕ, zero, suc, ◌+◌, ◌*◌, ◌/◌, ◌%◌, ◌<◌, ◌≡◌, refl, true, false, [], ◌∷◌, arith, ltb, Text,
  is_empty, ◌∙◌, ap, Bool-cases, inl, inr,
}
use skywalking_python.Prelude.Int.{pos}
use skywalking_python.Prelude.Decimal.{print_digits, decimal}
use skywalking_python.Prelude.Result.{ok}
use skywalking_python.Trace.Carrier.{Unicode, digits, int_of_text, isnumeric, all_numeric}

one_digit : (n : ℕ) → ltb n 10 ≡ true → 0 * 10 + n % 10 ≡ n
one_digit n h = ground arith

shorter : (f n : ℕ) → n < suc f → ltb n 10 ≡ false → n / 10 < f
shorter f n h e = ground arith

module _ (u : Unicode) where
  digits-cons :
      (n d : ℕ) (s : Text) → d < 10 → digits u n ((b'0' + d) ∷ s) ≡ digits u (n * 10 + d) s
  unfolding digits
  digits-cons n d s h = rw (u.ascii_digit d h)

  digits-print : (f n : ℕ) (acc : Text) → n < f → digits u 0 (print_digits f n acc) ≡ digits u n acc
  unfolding print_digits
  digits-print zero n acc h = elim h [ ]
  digits-print (suc f) n acc h = elim (Bool-cases (ltb n 10)) [
    | inl small ↦
        rw small
          (digits-cons 0 (n % 10) acc (omega arith) ∙ ap (λ m. digits u m acc) (one_digit n small))
    | inr large ↦ rw large (
        digits-print f (n / 10) ((b'0' + n % 10) ∷ acc) (shorter f n h large)
        ∙ digits-cons (n / 10) (n % 10) acc (omega arith)
        ∙ ap (λ m. digits u m acc) (omega arith))
  ]

  digit-all_numeric :
      (d : ℕ) (acc : Text)
      → d < 10
      → all_numeric u acc ≡ true
      → all_numeric u ((b'0' + d) ∷ acc) ≡ true
  unfolding all_numeric
  digit-all_numeric d acc lt h = rw (u.digit_numeric (b'0' + d) d (u.ascii_digit d lt)) h

  all_numeric-print :
      (f n : ℕ) (acc : Text)
      → all_numeric u acc ≡ true
      → all_numeric u (print_digits f n acc) ≡ true
  unfolding print_digits all_numeric
  all_numeric-print zero n acc h = h
  all_numeric-print (suc f) n acc h =
      let seen = digit-all_numeric (n % 10) acc (omega arith) h in
      elim (Bool-cases (ltb n 10)) [
        | inl small ↦ rw small seen
        | inr large ↦ rw large (all_numeric-print f (n / 10) ((b'0' + n % 10) ∷ acc) seen)
      ]

  not_empty-print : (f n c : ℕ) (acc : Text) → is_empty (print_digits f n (c ∷ acc)) ≡ false
  unfolding print_digits
  not_empty-print zero n c acc = refl
  not_empty-print (suc f) n c acc =
      ground (arith, not_empty-print f (n / 10) (b'0' + n % 10) (c ∷ acc))

  not_empty-print_first : (f n : ℕ) → is_empty (print_digits (suc f) n []) ≡ false
  unfolding print_digits
  not_empty-print_first f n = ground (arith, not_empty-print f (n / 10) (b'0' + n % 10) [])

  -- A span id of zero or more is written as a numeric text, and `int` reads it back.
  pub int_of_text-decimal :
      (n : ℕ) → (isnumeric u (decimal n) ≡ true) × (int_of_text u (decimal n) ≡ ok (pos n))
  unfolding isnumeric int_of_text decimal
  int_of_text-decimal n = (
    rw (not_empty-print_first n n) (all_numeric-print (suc n) n [] (unfold all_numeric in refl)),
    rw (not_empty-print_first n n)
        (rw (digits-print (suc n) n [] (omega arith)) (unfold digits in refl)),
  )
