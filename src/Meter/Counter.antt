-- ===== src/Meter/Counter.antt =====
-- skywalking/meter/counter.py. `increment` holds the lock, so it is one step; values are whole
-- numbers.
use skywalking_python.Prelude.{◌≡◌, refl, List, [], ◌∷◌, arith}
use skywalking_python.Prelude.Int.{ℤ, pos, ◌+ℤ◌, ◌-ℤ◌, int_laws}

pub data CounterMode : Type 0 where
  increment_mode rate_mode : CounterMode

pub record Counter : Type 0 where
  pub count : ℤ
  pub previous : ℤ
  pub mode : CounterMode

-- `Counter.__init__`
abbrev pub new : CounterMode → Counter
new mode = record { count = pos 0; previous = pos 0; mode = mode }

-- `Counter.increment`
unfoldable pub increment : ℤ → Counter → Counter
increment value c = record c { count = c.count +ℤ value }

transform_by : CounterMode → Counter → ℤ × Counter
transform_by rate_mode c = (c.count -ℤ c.previous, record c { previous = c.count })
transform_by increment_mode c = (c.count, c)

-- `Counter.transform`: the value that is sent.
unfoldable pub transform : Counter → ℤ × Counter
unfolding transform_by
transform c = transform_by c.mode c

-- Increments by the program, and transforms by the service, in any order.
pub data Event : Type 0 where
  increments : ℤ → Event
  sends : Event

-- The sum of what is sent.
pub run : List Event → Counter → ℤ × Counter
run [] c = (pos 0, c)
run (increments v ∷ es) c = run es (increment v c)
run (sends ∷ es) c = let (v, d) = transform c in let (rest, e) = run es d in (v +ℤ rest, e)

transform_by-rate :
    (mode : CounterMode) (c : Counter)
    → mode ≡ rate_mode
    → transform_by mode c ≡ (c.count -ℤ c.previous, record c { previous = c.count })
unfolding transform_by
transform_by-rate rate_mode c h = refl
transform_by-rate increment_mode c h = ground arith

-- In the rate mode a send sends exactly what the counter has not sent yet, in any run: what is sent
-- over the run is the difference of what counts as sent after it and before it.
pub run_sends :
    (es : List Event) (c : Counter)
    → c.mode ≡ rate_mode
    → (run es c).0 ≡ (run es c).1.previous -ℤ c.previous
unfolding run transform increment transform_by
run_sends [] c h = grind int_laws
run_sends (increments v ∷ es) c h = run_sends es (increment v c) h
run_sends (sends ∷ es) c h =
    let d = record c { previous = c.count } in
    rw (transform_by-rate c.mode c h) (grind (int_laws, run_sends es d h))
