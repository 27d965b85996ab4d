-- ===== src/Trace/Snapshots/Continuing.antt =====
-- About the correlation of a context in skywalking/trace/context.py.
use skywalking_python.Prelude.{
  ℕ, suc, ◌≤◌, ◌≡◌, Option, none, some, arith, if◌then◌else◌, Text, length, text_eq,
}
use skywalking_python.Prelude.Int.{ℤ, pos, ◌≤ℤ◌}
use skywalking_python.Prelude.Dict.{Dict, lookup, lookup-insert, length-insert, length-erase}
use skywalking_python.Prelude.Result.{ok}
use skywalking_python.Trace.Env.{Env, State}
use skywalking_python.Trace.Snapshots.{put_correlation, get_correlation, put_entry}

-- `put_entry` keeps a dict of at most one entry more than the maximum at that.
put_entry-length :
    (m : ℕ) (max_length : ℤ) (key : Text) (value : Option Text) (d : Dict Text)
    → length d ≤ suc m
    → length (put_entry (pos m) max_length key value d) ≤ suc m
unfolding put_entry
put_entry-length m max_length key none d h = omega (arith, length-erase key d)
put_entry-length m max_length key (some value) d h = ground (arith, length-insert key value d)

module _ (env : Env) (self : ℕ) (w : State env) where
  abbrev correlation : State env → Dict Text
  correlation v = v.dicts (v.contexts self).correlation

  -- With a maximum of m, `put_correlation` keeps a dict of at most m + 1 entries at m + 1 entries
  -- or fewer, whatever the key and the value.
  pub put_correlation-length :
      (m : ℕ) (key value : Option Text)
      → env.correlation_element_max_number ≡ pos m
      → length (correlation w) ≤ suc m
      → length (correlation (put_correlation env self key value w).1) ≤ suc m
  unfolding put_correlation
  put_correlation-length m none value e h = h
  put_correlation-length m (some key) value e h = rw e (
      ground
        (arith, put_entry-length m env.correlation_value_max_length key value (correlation w) h))

  -- An entry whose value is no longer than the maximal length, put into a dict with no more
  -- entries than the maximal number, is what `get_correlation` answers for its key, and the
  -- answers for other keys are as they were.
  pub get-put_correlation :
      (key value other : Text)
      → pos (length value) ≤ℤ env.correlation_value_max_length
      → pos (length (correlation w)) ≤ℤ env.correlation_element_max_number
      → let v = (put_correlation env self (some key) (some value) w).1 in
        (get_correlation env self other v).0
        ≡ ok (if text_eq key other then some value else lookup other (correlation w))
  unfolding put_correlation get_correlation put_entry
  get-put_correlation key value other short room =
      ground (arith, lookup-insert key other value (correlation w))
