-- ===== src/Profile/Context/Attempting.antt =====
-- The steps of `attempt_profiling` in skywalking/profile/profile_context.py.
use skywalking_python.Prelude.{
  ℕ, suc, ◌<◌, ◌≡◌, refl, Bool, true, false, ◌||◌, not, Option, none, some, arith, if◌then◌else◌,
  ltb, Text, text_eq, get_elem?, set, ap, ◌∙◌, sym, get_elem?_lt,
}
use skywalking_python.Prelude.Int.{ℤ, pos, ◌+ℤ◌, ltb_ℤ, leb_ℤ, eqb_ℤ}
use skywalking_python.Prelude.Result.{Result, ok}
use skywalking_python.Utils.AtomicRef
use skywalking_python.Utils.AtomicArray.{AtomicArray, compare_and_set_at}
use skywalking_python.Profile.Task.{ProfileTask}
use skywalking_python.Profile.Context.{
  Shared, Stage, entered, counted, allowed, seeking, returned, raised, finished, Attempt, same_slot,
  return_none, new_profiler, pending_status, occupy, take_slot, recheck_by, store_status, update_by,
  begin_attempt, enter, attempt_step,
}
use skywalking_python.Profile.Profiler.{System}
use skywalking_python.Profile.Context.Slots.{sum_by_elem, seeks}
use skywalking_python.Profile.Sharing.{
  IsSound, in_use, faults, slots, moved, Quiet, quiet-IsSound, joins-IsSound, takes-IsSound,
  passes-IsSound,
}

one_more : (u : ℤ) (m : ℕ) → u ≡ pos m → u +ℤ pos 1 ≡ pos (suc m)
unfolding ◌+ℤ◌
one_more u m e = rw e (ground arith)

room : (n : ℕ) (u : ℤ) (m : ℕ) → u ≡ pos m → faults n (allowed u) ≡ 0 → m < n
room n u m e z = ground arith

-- The parts of a step.
if-Quiet :
    (n : ℕ) (old : Stage) (s : Shared) (c : Bool) (x y : Stage × Shared)
    → Quiet n old s x
    → (c ≡ false → Quiet n old s y)
    → Quiet n old s (if c then x else y)
if-Quiet n old s true x y h k = h
if-Quiet n old s false x y h k = k refl

return_none-Quiet :
    (n : ℕ) (old : Stage) (s : Shared)
    → ((k : ℕ) → seeks k old ≡ 0)
    → Quiet n old s (return_none false s)
unfolding return_none
return_none-Quiet n old s z = (refl, refl, λ k. sym (z k), refl)

new_profiler-keeps :
    (c : ℕ) (s : Shared)
    → ((new_profiler c s).1.current_profiling_cnt ≡ s.current_profiling_cnt)
      × ((new_profiler c s).1.profiling_segment_slots ≡ s.profiling_segment_slots)
unfolding new_profiler
new_profiler-keeps c s = by_status (s.contexts c).profile_status
  where
    by_status :
        (o : Option ℕ)
        → ((pending_status o s).1.current_profiling_cnt ≡ s.current_profiling_cnt)
          × ((pending_status o s).1.profiling_segment_slots ≡ s.profiling_segment_slots)
    by_status none = (refl, refl)
    by_status (some r) = (refl, refl)

module _ (n : ℕ) (task : ProfileTask) where
  begin-Quiet : (op : Text) (s : Shared) → Quiet n entered s (begin_attempt n task op s)
  unfolding begin_attempt
  begin-Quiet op s =
      if-Quiet n entered s
        (leb_ℤ (pos n) s.current_profiling_cnt.var || not (text_eq task.first_span_op_name op))
        (return_none false s) (counted s.current_profiling_cnt.var, s)
        (return_none-Quiet n entered s (λ k. refl))
        (λ open_now. (refl, refl, λ k. refl, ground arith))

  enter-Quiet : (o : Option Bool) (op : Text) (s : Shared) → Quiet n entered s (enter n task o op s)
  unfolding enter
  enter-Quiet none op s = (refl, refl, λ k. refl, refl)
  enter-Quiet (some true) op s = (refl, refl, λ k. refl, refl)
  enter-Quiet (some false) op s = begin-Quiet op s

  store-Quiet :
      (lost recheck : Bool) (c r : ℕ) (s : Shared)
      → faults n (finished lost) ≡ 0
      → Quiet n (returned lost r) s (finished lost, store_status recheck c r s)
  unfolding store_status
  store-Quiet lost false c r s z = (refl, refl, λ k. refl, z)
  store-Quiet lost true c r s z = by_own (s.contexts c).profile_status
    where
      by_own :
          (o : Option ℕ) → Quiet n (returned lost r) s (finished lost, update_by o (s.statuses r) s)
      by_own none = (refl, refl, λ k. refl, z)
      by_own (some own) = (refl, refl, λ k. refl, z)

  abbrev stepped : ℕ → Attempt → System → System
  stepped i a s =
      moved i a (attempt_step n task a.trace_context a.first_span_opname a.recheck a.stage s.shared)
        s

  abbrev pub stepped_at : Stage → ℕ → Attempt → System → System
  stepped_at stage i a s =
      moved i a (attempt_step n task a.trace_context a.first_span_opname a.recheck stage s.shared) s

  module _ (i : ℕ) (a : Attempt) (s : System) (e : get_elem? s.attempts i ≡ some a)
      (h : IsSound n s) where
    quiet :
        (old : Stage) (r : Stage × Shared)
        → a.stage ≡ old
        → Quiet n old s.shared r
        → IsSound n (moved i a r s)
    quiet old r st (c, p, q, l) =
        quiet-IsSound n i a s e r (c, p, λ k. q k ∙ sym (ap (seeks k) st), l) h

    no_fault : (stage : Stage) → a.stage ≡ stage → faults n stage ≡ 0
    no_fault stage st =
        let one = sum_by_elem (λ b. faults n b.stage) s.attempts i a e in
        sym (ap (faults n) st) ∙ omega (arith, one, h.found)

    same_fault :
        (lost : Bool) (r : ℕ) → faults n (returned lost r) ≡ 0 → faults n (finished lost) ≡ 0
    same_fault true r z = z
    same_fault false r z = z

    -- After the swap of the count, which went through just when the count was still what was read.
    occupy-IsSound :
        (u : ℤ) (swapped : Bool)
        → a.stage ≡ allowed u
        → swapped ≡ eqb_ℤ s.shared.current_profiling_cnt.var u
        → let cnt = s.shared.current_profiling_cnt in
          let r : Bool × AtomicRef.AtomicRef ℤ =
            if swapped then (true, AtomicRef.set (u +ℤ pos 1) cnt) else (false, cnt) in
          IsSound n (moved i a (occupy a.trace_context r s.shared) s)
    unfolding occupy in_use
    occupy-IsSound u true st same =
        let read : u ≡ pos (in_use s) = ground (arith, h.counts) in
        let free = no_fault (allowed u) st in
        let t : Shared = record s.shared { current_profiling_cnt = record { var = u +ℤ pos 1 } } in
        let (c, q) = new_profiler-keeps a.trace_context t in
        let made = new_profiler a.trace_context t in
        joins-IsSound n i a s e made.0 made.1 (ap (λ r. r.var) c ∙ one_more u (in_use s) read) q
          (λ k. ap (seeks k) st) (room n u (in_use s) read free) h
    occupy-IsSound u false st same =
        quiet-IsSound n i a s e _ (return_none-Quiet n a.stage s.shared (λ k. ap (seeks k) st)) h

    -- After the swap of a slot, by what the slot held.
    take_slot-IsSound :
        (p idx : ℕ) (v : Option ℕ)
        → a.stage ≡ seeking p idx
        → idx < n
        → get_elem? (slots s) idx ≡ some v
        → let array = s.shared.profiling_segment_slots in
          let taken_array = record array { array = set (slots s) idx (some p) } in
          let r : Result (Bool × AtomicArray ℕ) =
            ok (same_slot v none, if same_slot v none then taken_array else array) in
          IsSound n (moved i a (take_slot p idx r s.shared) s)
    unfolding take_slot
    take_slot-IsSound p idx none st lt at = takes-IsSound n i a s e p idx _ _ st at refl refl h
    take_slot-IsSound p idx (some q) st lt at =
        passes-IsSound n i a s e p idx q _ st lt at refl refl h

    -- The loop does not end without a slot.
    in_range : (p idx : ℕ) → a.stage ≡ seeking p idx → idx < n
    in_range p idx st =
        let one = sum_by_elem (λ b. seeks n b.stage) s.attempts i a e in
        let here = ap (seeks n) st in ground (arith, one, here, h.fits n (omega arith))

    seeking-IsSound :
        (p idx : ℕ) → a.stage ≡ seeking p idx → IsSound n (stepped_at (seeking p idx) i a s)
    unfolding attempt_step
    seeking-IsSound p idx st =
        let lt = in_range p idx st in
        let array = s.shared.profiling_segment_slots in
        let inside : idx < array.size = rw h.size lt in
        let (v, at) = get_elem?_lt (slots s) idx (rw h.valid inside) in
        let going : ltb idx array.size ≡ true = ground (arith, inside) in
        rw going (
          rw (compare_and_set_at same_slot idx none (some p) v array inside at)
            (take_slot-IsSound p idx v st lt at))

    pub stepped-IsSound : (stage : Stage) → a.stage ≡ stage → IsSound n (stepped_at stage i a s)
    unfolding attempt_step
    stepped-IsSound entered st =
        let entry = recheck_by (s.shared.contexts a.trace_context).profile_status s.shared in
        quiet entered _ st (
          if-Quiet n entered s.shared a.recheck _ _ (enter-Quiet entry a.first_span_opname s.shared)
            (λ first. begin-Quiet a.first_span_opname s.shared))
    stepped-IsSound (counted u) st = quiet (counted u) _ st (
        if-Quiet n (counted u) s.shared
          (ltb_ℤ task.max_sampling_count s.shared.total_started_profiling_cnt.var) _ _
          (return_none-Quiet n (counted u) s.shared (λ k. refl))
          (λ within. (refl, refl, λ k. refl, no_fault (counted u) st)))
    stepped-IsSound (allowed u) st = occupy-IsSound u _ st refl
    stepped-IsSound (seeking p idx) st = seeking-IsSound p idx st
    stepped-IsSound (returned lost r) st = quiet (returned lost r) _ st (
        store-Quiet lost a.recheck a.trace_context r s.shared
          (same_fault lost r (no_fault (returned lost r) st)))
    stepped-IsSound raised st = quiet raised _ st (refl, refl, λ k. refl, refl)
    stepped-IsSound (finished lost) st =
        quiet (finished lost) _ st (refl, refl, λ k. refl, no_fault (finished lost) st)
