-- ===== src/Prelude/Queue.antt =====
-- `queue.Queue` as the agent uses it: bounded, first in first out, with the count of unfinished
-- tasks that `join` waits for. A `maxsize` of 0 means that there is no bound.
use Prim.Native.Nat.{ℕ, ◌+◌, ◌-◌, ◌≤◌, ◌<◌}
use mathlib.Core.Path.{◌≡◌}
use mathlib.Core.Bool.{Bool, ◌&&◌}
use mathlib.Core.Option.{Option, none, some}
use mathlib.Core.List.{List, [], ◌∷◌, ◌++◌}
use native.Mathlib.Omega.{arith}
use skywalking_python.Prelude.Tests.{ltb, leb, if◌then◌else◌}
use skywalking_python.Prelude.Lists.{length, length-append}

pub record Queue (A : Type 0) : Type 0 where
  pub maxsize : ℕ
  pub items : List A
  pub unfinished : ℕ

module _ {A : Type 0} where
  abbrev pub fresh : ℕ → Queue A
  fresh n = record { maxsize = n; items = []; unfinished = 0 }

  abbrev pub empty : Queue A → Bool
  empty q = leb (length q.items) 0

  abbrev pub full : Queue A → Bool
  full q = ltb 0 q.maxsize && leb q.maxsize (length q.items)

  -- `put(item, block=False)`; `none` is `queue.Full`.
  abbrev pub put : A → Queue A → Option (Queue A)
  put a q =
      if full q
      then none
      else some (record q { items = q.items ++ a ∷ []; unfinished = q.unfinished + 1 })

  abbrev pub get_from : Queue A → List A → Option (A × Queue A)
  get_from q [] = none
  get_from q (a ∷ rest) = some (a, record q { items = rest })

  -- `get_nowait()`; `none` is `queue.Empty`.
  abbrev pub get : Queue A → Option (A × Queue A)
  get q = get_from q q.items

  -- `task_done()`, where something is unfinished; else the source raises `ValueError`, and here the
  -- count stays 0.
  abbrev pub task_done : Queue A → Queue A
  task_done q = record q { unfinished = q.unfinished - 1 }

  -- The queue keeps to its bound.
  abbrev pub IsBounded : Queue A → Type 0
  IsBounded q = 0 < q.maxsize → length q.items ≤ q.maxsize

  pub put-IsBounded : (a : A) (q r : Queue A) → IsBounded q → put a q ≡ some r → IsBounded r
  put-IsBounded a q r h e = ground (arith, length-append q.items (a ∷ []))

  pub length-put : (a : A) (q r : Queue A) → put a q ≡ some r → length r.items ≡ length q.items + 1
  length-put a q r e = ground (arith, length-append q.items (a ∷ []))
