-- ===== src/Utils/Tests.antt =====
-- Runs of the cells at concrete inputs.
use skywalking_python.Prelude.{ℕ, ◌≡◌, refl, [], ◌∷◌, Bool, true, false, Option, some, none, ◌==◌}
use skywalking_python.Prelude.Int.{pos, ◌+ℤ◌}
use skywalking_python.Prelude.Result.{ok}
use skywalking_python.Utils.Counter
use skywalking_python.Utils.AtomicArray.{AtomicArray, get}

issue_three : Counter.issue 3 Counter.init ≡ pos 0 ∷ pos 1 ∷ pos 2 ∷ []
unfolding Counter.issue Counter.next ◌+ℤ◌
issue_three = refl

-- `==` of what a slot holds
abbrev same : Option ℕ → Option ℕ → Bool
same none none = true
same (some a) (some b) = a == b
same _ _ = false

-- Slot 1 is free.
abbrev slots : AtomicArray ℕ
slots = record { size = 2; array = some 5 ∷ none ∷ [] }

second_free : get (pos 1) slots ≡ ok none
unfolding get
second_free = refl
