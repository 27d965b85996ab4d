-- ===== src/Prelude/Decimal.antt =====
-- `str(n)` of an integer.
use Prim.Native.Nat.{ℕ, zero, suc, ◌+◌, ◌/◌, ◌%◌}
use mathlib.Core.List.{[], ◌∷◌}
use native.Mathlib.Omega.{arith}
use skywalking_python.Prelude.Tests.{ltb, if◌then◌else◌}
use skywalking_python.Prelude.Texts.{Text, Avoids}
use skywalking_python.Prelude.Int.{ℤ, pos, negsuc}

-- The digits of n in front of what is written; one round for each digit, and one more than n is
-- enough.
unfoldable pub print_digits : ℕ → ℕ → Text → Text
print_digits zero n acc = acc
print_digits (suc f) n acc =
    let rest = print_digits f (n / 10) ((b'0' + n % 10) ∷ acc) in
    if ltb n 10 then (b'0' + n % 10) ∷ acc else rest

unfoldable pub decimal : ℕ → Text
unfolding print_digits
decimal n = print_digits (suc n) n []

unfoldable pub text_of_int : ℤ → Text
unfolding decimal
text_of_int (pos n) = decimal n
text_of_int (negsuc n) = b'-' ∷ decimal (suc n)

print_digits-Avoids : (f n : ℕ) (acc : Text) → Avoids b'-' acc → Avoids b'-' (print_digits f n acc)
unfolding print_digits
print_digits-Avoids zero n acc h = h
print_digits-Avoids (suc f) n acc h =
    ground (arith, print_digits-Avoids f (n / 10) ((b'0' + n % 10) ∷ acc))

-- A number of zero or more is written without a dash.
pub decimal-Avoids : (n : ℕ) → Avoids b'-' (decimal n)
unfolding decimal
decimal-Avoids n = print_digits-Avoids (suc n) n [] tt
