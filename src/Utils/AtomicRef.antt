-- ===== src/Utils/AtomicRef.antt =====
-- skywalking/utils/atomic_ref.py and integer.py. Each method holds the lock throughout, so it is
-- one step; `beq` is the `==` of the values held.
use skywalking_python.Prelude.{Bool, true, false, if◌then◌else◌}
use skywalking_python.Prelude.Int.{ℤ, ◌+ℤ◌}

pub record AtomicRef (A : Type 0) : Type 0 where
  pub var : A

module _ {A : Type 0} where
  -- `AtomicRef.get`
  abbrev pub get : AtomicRef A → A
  get r = r.var

  -- `AtomicRef.set`
  abbrev pub set : A → AtomicRef A → AtomicRef A
  set a r = record r { var = a }

  -- `AtomicRef.compare_and_set`
  abbrev pub compare_and_set : (A → A → Bool) → A → A → AtomicRef A → Bool × AtomicRef A
  compare_and_set beq expect update r =
      if beq r.var expect then (true, record r { var = update }) else (false, r)

-- `AtomicInteger.add_and_get`
abbrev pub add_and_get : ℤ → AtomicRef ℤ → ℤ × AtomicRef ℤ
add_and_get delta r = let v = r.var +ℤ delta in (v, record r { var = v })
