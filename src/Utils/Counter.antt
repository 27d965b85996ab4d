-- ===== src/Utils/Counter.antt =====
-- skywalking/utils/counter.py. The lock of `AtomicCounter.next` makes each call one step.
use skywalking_python.Prelude.{ℕ, suc, zero, List, [], ◌∷◌}
use skywalking_python.Prelude.Int.{ℤ, pos, negsuc, ◌+ℤ◌, ◌<ℤ◌, int_laws}

pub record Counter : Type 0 where
  pub value : ℤ

-- `Counter.__init__`
abbrev pub init : Counter
init = record { value = negsuc 0 }

-- `Counter.next`: the new counter and the number returned.
unfoldable pub next : Counter → ℤ × Counter
next c = let v = c.value +ℤ pos 1 in (v, record { value = v })

-- The numbers that n calls in a row return.
unfoldable pub issue : ℕ → Counter → List ℤ
issue zero c = []
issue (suc n) c = (next c).0 ∷ issue n (next c).1

abbrev pub Above : ℤ → List ℤ → Type 0
Above b [] = Unit
Above b (x ∷ xs) = (b <ℤ x) × Above b xs

abbrev pub Rising : List ℤ → Type 0
Rising [] = Unit
Rising (x ∷ xs) = Above x xs × Rising xs

issue-Above : (b : ℤ) (n : ℕ) (c : Counter) → Above b ((next c).0 ∷ []) → Above b (issue n c)
unfolding issue next
issue-Above b zero c h = tt
issue-Above b (suc n) c h = (omega int_laws, issue-Above b n (next c).1 (omega int_laws))

-- The numbers that a counter hands out rise strictly, so no two are the same.
pub issue-Rising : (n : ℕ) (c : Counter) → Rising (issue n c)
unfolding issue next
issue-Rising zero c = tt
issue-Rising (suc n) c =
    (issue-Above (next c).0 n (next c).1 (omega int_laws), issue-Rising n (next c).1)
