-- ===== src/Command/Dispatch.antt =====
-- About the cache of serial numbers and dispatch in skywalking/command/command_service.py.
use skywalking_python.Prelude.{
  ℕ, ◌-◌, ◌≤◌, ◌≡◌, ◌∙◌, refl, true, false, ◌||◌, Option, none, some, List, [], ◌∷◌, ◌++◌, arith,
  Bool-cases, inl, inr, length, length-append, ltb, text_eq_self, text_eq_iff,
}
use skywalking_python.Prelude.Int.{ℤ}
use skywalking_python.Prelude.Result.{Result, ok, err}
use skywalking_python.Trace.Carrier.{Unicode}
use skywalking_python.Profile.Task.{ProfileTask}
use skywalking_python.Command.{
  Message, CommandService, ProfileTaskCommand, Cache, add, drop_first, contains, same_serial,
  receive_command, accept, deserialize, dispatch, dispatch_from, execute_task, task_of_command,
}

-- No serial number stands twice in the cache, and it keeps to its bound.
abbrev pub IsDistinct : Cache → Type 0
IsDistinct [] = Unit
IsDistinct (x ∷ xs) = (contains x xs ≡ false) × IsDistinct xs

pub record IsSound (q : Cache) : Type 0 where
  pub distinct : IsDistinct q
  pub bounded : length q ≤ 64

same_serial_comm : (a b : Option (List ℕ)) → same_serial a b ≡ same_serial b a
unfolding same_serial
same_serial_comm none none = refl
same_serial_comm none (some b) = refl
same_serial_comm (some a) none = refl
same_serial_comm (some a) (some b) = ground (arith, text_eq_iff a b, text_eq_iff b a)

same_serial_self : (a : Option (List ℕ)) → same_serial a a ≡ true
unfolding same_serial
same_serial_self none = refl
same_serial_self (some a) = text_eq_self a

contains-append :
    (n x : Option (List ℕ)) (q : Cache)
    → contains n (q ++ x ∷ []) ≡ (contains n q || same_serial x n)
unfolding contains
contains-append n x [] = ground arith
contains-append n x (y ∷ q) = ground (arith, contains-append n x q)

append-IsDistinct :
    (n : Option (List ℕ)) (q : Cache)
    → IsDistinct q
    → contains n q ≡ false
    → IsDistinct (q ++ n ∷ [])
unfolding contains
append-IsDistinct n [] h e = (refl, tt)
append-IsDistinct n (x ∷ q) h e = (
  ground (arith, contains-append x n q, same_serial_comm x n, h.0),
  append-IsDistinct n q h.1 (ground arith),
)

drop_first-contains :
    (n : Option (List ℕ)) (q : Cache) → contains n q ≡ false → contains n (drop_first q) ≡ false
unfolding contains drop_first
drop_first-contains n [] e = refl
drop_first-contains n (x ∷ q) e = ground arith

drop_first-IsDistinct : (q : Cache) → IsDistinct q → IsDistinct (drop_first q)
unfolding drop_first
drop_first-IsDistinct [] h = tt
drop_first-IsDistinct (x ∷ q) h = h.1

length-drop_first : (q : Cache) → length (drop_first q) ≡ length q - 1
unfolding drop_first
length-drop_first [] = refl
length-drop_first (x ∷ q) = omega arith

add-IsSound :
    (n : Option (List ℕ)) (q : Cache) → IsSound q → contains n q ≡ false → IsSound (add n q)
unfolding add
add-IsSound n q h e = elim (Bool-cases (ltb (length q) 64)) [
  | inl room ↦ rw room (record {
    distinct = append-IsDistinct n q h.distinct e;
    bounded = ground (arith, length-append q (n ∷ []));
  })
  | inr full ↦ rw full (record {
    distinct =
        append-IsDistinct n (drop_first q) (drop_first-IsDistinct q h.distinct)
          (drop_first-contains n q e);
    bounded = ground (arith, h.bounded, length-append (drop_first q) (n ∷ []), length-drop_first q);
  })
]

add-contains : (n : Option (List ℕ)) (q : Cache) → contains n (add n q) ≡ true
unfolding add
add-contains n q = elim (Bool-cases (ltb (length q) 64)) [
  | inl room ↦ rw room (ground (arith, contains-append n n q, same_serial_self n))
  | inr full ↦ rw full (ground (arith, contains-append n n (drop_first q), same_serial_self n))
]

-- Commands that come in, and rounds of the dispatching thread, in any order.
pub data Event : Type 0 where
  receives : List Message → Event
  dispatches : ℤ → Event

module _ (u : Unicode) where
  pub apply : Event → CommandService → CommandService
  apply (receives ms) s = receive_command ms s
  apply (dispatches now) s = (dispatch u now s).1

  pub traffic : List Event → CommandService → CommandService
  traffic [] s = s
  traffic (e ∷ es) s = traffic es (apply e s)

  accept-cache : (o : Option ProfileTaskCommand) (s : CommandService) → (accept o s).cache ≡ s.cache
  unfolding accept
  accept-cache none s = refl
  accept-cache (some c) s = ground arith

  receive_command-cache :
      (ms : List Message) (s : CommandService) → (receive_command ms s).cache ≡ s.cache
  unfolding receive_command
  receive_command-cache [] s = refl
  receive_command-cache (m ∷ ms) s =
      receive_command-cache ms (accept (deserialize m) s) ∙ accept-cache (deserialize m) s

  execute_task-IsSound :
      (n : Option (List ℕ)) (now : ℤ) (r : Result ProfileTask) (s : CommandService)
      → IsSound s.cache
      → contains n s.cache ≡ false
      → IsSound (execute_task u n now r s).1.cache
  unfolding execute_task
  execute_task-IsSound n now (err x) s h e = h
  execute_task-IsSound n now (ok t) s h e = add-IsSound n s.cache h e

  dispatch_from-IsSound :
      (now : ℤ) (cs : List ProfileTaskCommand) (s : CommandService)
      → IsSound s.cache
      → IsSound (dispatch_from u now cs s).1.cache
  unfolding dispatch_from
  dispatch_from-IsSound now [] s h = h
  dispatch_from-IsSound now (c ∷ rest) s h = elim (Bool-cases (contains c.serial_number s.cache)) [
    | inl old ↦ rw old h
    | inr new ↦ rw new (
        execute_task-IsSound c.serial_number now (task_of_command u c)
          (record s { commands = rest }) h new)
  ]

  -- What a round that raises nothing leaves: the rest of the queue, and a cache with the number.
  execute_task-done :
      (n : Option (List ℕ)) (now : ℤ) (r : Result ProfileTask) (s : CommandService)
      → (execute_task u n now r s).0 ≡ ok tt
      → (contains n (execute_task u n now r s).1.cache ≡ true)
        × ((execute_task u n now r s).1.commands ≡ s.commands)
  unfolding execute_task
  execute_task-done n now (err x) s e = ground arith
  execute_task-done n now (ok t) s e = (add-contains n s.cache, refl)

  dispatch_from-done :
      (now : ℤ) (c : ProfileTaskCommand) (rest : List ProfileTaskCommand) (s : CommandService)
      → (dispatch_from u now (c ∷ rest) s).0 ≡ ok tt
      → (contains c.serial_number (dispatch_from u now (c ∷ rest) s).1.cache ≡ true)
        × ((dispatch_from u now (c ∷ rest) s).1.commands ≡ rest)
  unfolding dispatch_from
  dispatch_from-done now c rest s e = elim (Bool-cases (contains c.serial_number s.cache)) [
    | inl old ↦ rw old (old, refl)
    | inr new ↦ rw new (
        execute_task-done c.serial_number now (task_of_command u c) (record s { commands = rest })
          (rw new at e))
  ]

  dispatch-IsSound :
      (now : ℤ) (s : CommandService) → IsSound s.cache → IsSound (dispatch u now s).1.cache
  unfolding dispatch
  dispatch-IsSound now s h = dispatch_from-IsSound now s.commands s h

  -- From a cache of at most 64 serial numbers that are all different, after any commands received
  -- and dispatched in any order, the cache again holds at most 64 serial numbers, all different.
  pub traffic-IsSound :
      (es : List Event) (s : CommandService) → IsSound s.cache → IsSound (traffic es s).cache
  unfolding traffic apply
  traffic-IsSound [] s h = h
  traffic-IsSound (receives ms ∷ es) s h =
      traffic-IsSound es (receive_command ms s) (rw (receive_command-cache ms s) h)
  traffic-IsSound (dispatches now ∷ es) s h =
      traffic-IsSound es (dispatch u now s).1 (dispatch-IsSound now s h)

  -- When a round of dispatching raises nothing, a command with the same serial number that stands
  -- directly behind in the queue is not executed: the next round takes it out and changes nothing
  -- else.
  pub dispatch_repeated :
      (now later : ℤ) (c d : ProfileTaskCommand) (rest : List ProfileTaskCommand)
      (s : CommandService)
      → s.commands ≡ c ∷ d ∷ rest
      → d.serial_number ≡ c.serial_number
      → (dispatch u now s).0 ≡ ok tt
      → let t = (dispatch u now s).1 in dispatch u later t ≡ (ok tt, record t { commands = rest })
  unfolding dispatch
  dispatch_repeated now later c d rest s e same done =
      let k = dispatch_from-done now c (d ∷ rest) s (rw e at done) in ground (arith, e, same, k)
