-- ===== src/Prelude/Weights.antt =====
-- Payloads weighed, by any weight: with the weight 1 they are counted, and with a weight that is 1 for
-- one payload and 0 for the others, the occurrences of that one are.
use Prim.Native.Nat.{ℕ, ◌+◌}
use mathlib.Core.Path.{◌≡◌}
use mathlib.Core.List.{List, [], ◌∷◌, ◌++◌}
use native.Mathlib.Omega.{arith}

abbrev pub Weight : Type 0
Weight = ℕ → ℕ

abbrev pub one : Weight
one x = 1

abbrev pub weigh : Weight → List ℕ → ℕ
weigh w [] = 0
weigh w (x ∷ l) = w x + weigh w l

pub weigh-append : (w : Weight) (l m : List ℕ) → weigh w (l ++ m) ≡ weigh w l + weigh w m
weigh-append w [] m = omega arith
weigh-append w (x ∷ l) m = omega (arith, weigh-append w l m)

pub weigh-append_one : (w : Weight) (l : List ℕ) (x : ℕ) → weigh w (l ++ x ∷ []) ≡ weigh w l + w x
weigh-append_one w l x = omega (arith, weigh-append w l (x ∷ []))
