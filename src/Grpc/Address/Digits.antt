-- ===== src/Grpc/Address/Digits.antt =====
-- The digits of a port in skywalking/utils/grpc_channel.py, and cutting a text at a character.
use skywalking_python.Prelude.{
  ℕ, zero, suc, ◌+◌, ◌/◌, ◌%◌, ◌<◌, ◌≤◌, ◌≡◌, refl, some, [], ◌∷◌, ◌++◌, arith, All, ltb, Text,
  Avoids, Bool-cases, inl, inr,
}
use skywalking_python.Prelude.Int.{pos}
use skywalking_python.Prelude.Result.{ok}
use skywalking_python.Prelude.Decimal.{decimal, print_digits}
use skywalking_python.Trace.Carrier.{Unicode}
use skywalking_python.Trace.Carrier.SpanId.{int_of_text-decimal}
use skywalking_python.Command.{signed_int}
use skywalking_python.Grpc.Address.{cut, cut_from}

-- A text of decimal digits.
abbrev pub IsDigits : Text → Type 0
IsDigits = All (λ c. (b'0' ≤ c) × (c < b'0' + 10))

print_digits-IsDigits : (f n : ℕ) (acc : Text) → IsDigits acc → IsDigits (print_digits f n acc)
unfolding print_digits
print_digits-IsDigits zero n acc h = h
print_digits-IsDigits (suc f) n acc h =
    let d = b'0' + n % 10 in
    let more : IsDigits (d ∷ acc) = ((omega arith, omega arith), h) in
    ground (arith, more, print_digits-IsDigits f (n / 10) (d ∷ acc) more)

pub decimal-IsDigits : (n : ℕ) → IsDigits (decimal n)
unfolding decimal
decimal-IsDigits n = print_digits-IsDigits (suc n) n [] tt

print_digits-cons :
    (f n c : ℕ) (acc : Text) → (x : ℕ) × (t : Text) × (print_digits f n (c ∷ acc) ≡ x ∷ t)
unfolding print_digits
print_digits-cons zero n c acc = (c, acc, refl)
print_digits-cons (suc f) n c acc = elim (Bool-cases (ltb n 10)) [
  | inl small ↦ (b'0' + n % 10, c ∷ acc, rw small refl)
  | inr large ↦ rw large (print_digits-cons f (n / 10) (b'0' + n % 10) (c ∷ acc))
]

pub decimal-cons : (n : ℕ) → (x : ℕ) × (t : Text) × (decimal n ≡ x ∷ t)
unfolding decimal print_digits
decimal-cons n = elim (Bool-cases (ltb n 10)) [
  | inl small ↦ (b'0' + n % 10, [], rw small refl)
  | inr large ↦ rw large (print_digits-cons n (n / 10) (b'0' + n % 10) [])
]

pub digits-Avoids : (c : ℕ) (s : Text) → (b'0' + 10 ≤ c) → IsDigits s → Avoids c s
digits-Avoids c [] h k = tt
digits-Avoids c (x ∷ s) h k = (ground (arith, k.0), digits-Avoids c s h k.1)

pub digits-Avoids_below : (c : ℕ) (s : Text) → (suc c ≤ b'0') → IsDigits s → Avoids c s
digits-Avoids_below c [] h k = tt
digits-Avoids_below c (x ∷ s) h k = (ground (arith, k.0), digits-Avoids_below c s h k.1)

-- The port as it is written is read as it was.
pub signed_int-decimal : (u : Unicode) (n : ℕ) → signed_int u (decimal n) ≡ ok (pos n)
unfolding signed_int
signed_int-decimal u n =
    let (x, t, e) = decimal-cons n in
    let digit = rw e at (decimal-IsDigits n) in
    let read = rw e at ((int_of_text-decimal u n).1) in rw e (ground (arith, digit.0, read))

pub cut-append : (c : ℕ) (s t : Text) → Avoids c s → cut c (s ++ c ∷ t) ≡ some (s, t)
unfolding cut cut_from
cut-append c [] t h = ground arith
cut-append c (x ∷ s) t h = ground (arith, h.0, cut-append c s t h.1)
