-- ===== src/Profile/Sharing.antt =====
-- What the count and the slots of skywalking/profile/profile_context.py have to do with each other,
-- and that each kind of step of an attempt keeps it.
use skywalking_python.Prelude.{
  ℕ, suc, ◌+◌, ◌≤◌, ◌<◌, ◌≡◌, refl, true, false, Option, none, some, List, arith, if◌then◌else◌,
  ◌==◌, get_elem?, set, length-set, ap, ◌∙◌, Bool-cases, inl, inr,
}
use skywalking_python.Prelude.Int.{pos, leb_ℤ}
use skywalking_python.Utils.AtomicArray
use skywalking_python.Utils.AtomicArray.{AtomicArray, compare_and_set_at, set_at, get_item_cases}
use skywalking_python.Profile.Context.{
  Shared, Stage, counted, allowed, seeking, returned, finished, Attempt,
}
use skywalking_python.Profile.Profiler.{Pc, releasing, ended, System}
use skywalking_python.Profile.Context.Slots.{
  sum_by, sum_by-set, occupied_from, occupied_from-set, occupied_from_at, seeks, seeking_from,
  seeking_from_next,
}

-- An attempt that counted itself in and found no slot, or that would count itself in although all
-- slots were in use when it read the count.
abbrev pub faults : ℕ → Stage → ℕ
faults n (counted u) = if leb_ℤ (pos n) u then 1 else 0
faults n (allowed u) = if leb_ℤ (pos n) u then 1 else 0
faults n (returned true r) = 1
faults n (finished true) = 1
faults n _ = 0

-- A slot that the profiling thread cleared and that still counts.
abbrev pub held_by : Pc → ℕ
held_by (releasing resume) = 1
held_by (ended true) = 1
held_by _ = 0

abbrev pub slots : System → List (Option ℕ)
slots s = s.shared.profiling_segment_slots.array

-- What counts: the occupied slots, the attempts that look for one, and the slot being released.
unfoldable pub in_use : System → ℕ
in_use s = occupied_from 0 (slots s) + (seeking_from 0 s.attempts + held_by s.thread)

pub record IsSound (n : ℕ) (s : System) : Type 0 where
  pub size : s.shared.profiling_segment_slots.size ≡ n
  pub valid : AtomicArray.IsValid s.shared.profiling_segment_slots
  pub counts : s.shared.current_profiling_cnt.var ≡ pos (in_use s)
  pub limited : in_use s ≤ n
  pub fits : (k : ℕ) → k ≤ n → occupied_from k (slots s) + seeking_from k s.attempts + k ≤ n
  pub found : sum_by (λ a. faults n a.stage) s.attempts ≡ 0

abbrev pub moved : ℕ → Attempt → Stage × Shared → System → System
moved i a r s = record s { shared = r.1; attempts = set s.attempts i (record a { stage = r.0 }) }

-- A step that leaves the count and the slots alone.
abbrev pub Quiet : ℕ → Stage → Shared → Stage × Shared → Type 0
Quiet n old s r =
    (r.1.current_profiling_cnt ≡ s.current_profiling_cnt)
    × (r.1.profiling_segment_slots ≡ s.profiling_segment_slots)
    × ((k : ℕ) → seeks k r.0 ≡ seeks k old)
    × (faults n r.0 ≡ 0)

module _ (n : ℕ) (i : ℕ) (a : Attempt) (s : System) (e : get_elem? s.attempts i ≡ some a) where
  seeking_from-moved :
      (k : ℕ) (r : Stage × Shared)
      → seeking_from k (moved i a r s).attempts + seeks k a.stage
        ≡ seeking_from k s.attempts + seeks k r.0
  seeking_from-moved k r =
      sum_by-set (λ b. seeks k b.stage) s.attempts i a (record a { stage = r.0 }) e

  faults-moved :
      (r : Stage × Shared)
      → faults n r.0 ≡ 0
      → sum_by (λ b. faults n b.stage) s.attempts ≡ 0
      → sum_by (λ b. faults n b.stage) (moved i a r s).attempts ≡ 0
  faults-moved r z h =
      let one = sum_by-set (λ b. faults n b.stage) s.attempts i a (record a { stage = r.0 }) e in
      omega (arith, one, z, h)

  pub quiet-IsSound :
      (r : Stage × Shared) → Quiet n a.stage s.shared r → IsSound n s → IsSound n (moved i a r s)
  unfolding in_use
  quiet-IsSound (stage, t) (c, p, q, l) h =
      let same : (k : ℕ)
          → seeking_from k (moved i a (stage, t) s).attempts ≡ seeking_from k s.attempts =
        λ k. omega (arith, seeking_from-moved k (stage, t), q k) in
      record {
        size = rw p h.size;
        valid = rw p h.valid;
        counts = rw c (rw p (rw (same 0) h.counts));
        limited = rw p (rw (same 0) h.limited);
        fits = λ k b. rw p (rw (same k) (h.fits k b));
        found = faults-moved (stage, t) l h.found;
      }

  -- An attempt counts itself in.
  pub joins-IsSound :
      (p : ℕ) (t : Shared)
      → t.current_profiling_cnt.var ≡ pos (suc (in_use s))
      → t.profiling_segment_slots ≡ s.shared.profiling_segment_slots
      → ((k : ℕ) → seeks k a.stage ≡ 0)
      → in_use s < n
      → IsSound n s
      → IsSound n (moved i a (seeking p 0, t) s)
  unfolding in_use
  joins-IsSound p t c q z room h =
      let more = λ (k : ℕ). seeking_from-moved k (seeking p 0, t) in
      record {
        size = rw q h.size;
        valid = rw q h.valid;
        counts = rw q (rw c (ap pos (omega (arith, more 0, z 0))));
        limited = rw q (omega (arith, more 0, z 0, room));
        fits = λ k b. rw q (ground (arith, more k, z k, room, h.fits k b));
        found = faults-moved (seeking p 0, t) refl h.found;
      }

  -- An attempt takes a free slot.
  pub takes-IsSound :
      (p idx status : ℕ) (t : Shared)
      → a.stage ≡ seeking p idx
      → get_elem? (slots s) idx ≡ some none
      → t.current_profiling_cnt ≡ s.shared.current_profiling_cnt
      → t.profiling_segment_slots
        ≡ record s.shared.profiling_segment_slots { array = set (slots s) idx (some p) }
      → IsSound n s
      → IsSound n (moved i a (returned false status, t) s)
  unfolding in_use
  takes-IsSound p idx status t st free c q h =
      let r : Stage × Shared = (returned false status, t) in
      let fewer = λ (k : ℕ). seeking_from-moved k r in
      let fuller = λ (k : ℕ). occupied_from-set k idx (slots s) none (some p) free in
      let was = λ (k : ℕ). ap (seeks k) st in
      record {
        size = rw q h.size;
        valid = rw q (length-set (slots s) idx (some p) ∙ h.valid);
        counts = rw c (rw q (h.counts ∙ ap pos (ground (arith, fewer 0, was 0, fuller 0))));
        limited = rw q (ground (arith, fewer 0, was 0, fuller 0, h.limited));
        fits = λ k b. rw q (ground (arith, fewer k, was k, fuller k, h.fits k b));
        found = faults-moved r refl h.found;
      }

  -- From the index that it passes on, there is one slot less and one occupied slot less.
  passes_fits :
      (p idx other : ℕ)
      → a.stage ≡ seeking p idx
      → idx < n
      → get_elem? (slots s) idx ≡ some (some other)
      → IsSound n s
      → (k : ℕ) → k ≤ n
      → occupied_from k (slots s)
          + seeking_from k (set s.attempts i (record a { stage = seeking p (suc idx) }))
          + k
        ≤ n
  passes_fits p idx other st lt full h k b =
      let r : Stage × Shared = (seeking p (suc idx), s.shared) in
      let fewer = seeking_from_next idx (moved i a r s).attempts in
      let here = occupied_from_at idx other (slots s) full in
      let old = seeking_from-moved idx r in
      let was = ap (seeks idx) st in
      elim (Bool-cases (k == suc idx)) [
        | inl same ↦
            let at : k ≡ suc idx = ground arith in
            rw at (ground (arith, fewer, here, old, was, h.fits idx (omega (arith, lt))))
        | inr other_k ↦ ground (arith, seeking_from-moved k r, ap (seeks k) st, h.fits k b)
      ]

  -- An attempt passes an occupied slot.
  pub passes-IsSound :
      (p idx other : ℕ) (t : Shared)
      → a.stage ≡ seeking p idx
      → idx < n
      → get_elem? (slots s) idx ≡ some (some other)
      → t.current_profiling_cnt ≡ s.shared.current_profiling_cnt
      → t.profiling_segment_slots ≡ s.shared.profiling_segment_slots
      → IsSound n s
      → IsSound n (moved i a (seeking p (suc idx), t) s)
  unfolding in_use
  passes-IsSound p idx other t st lt full c q h =
      let r : Stage × Shared = (seeking p (suc idx), t) in
      let next = λ (k : ℕ). seeking_from-moved k r in
      let was = λ (k : ℕ). ap (seeks k) st in
      record {
        size = rw q h.size;
        valid = rw q h.valid;
        counts = rw c (rw q (h.counts ∙ ap pos (ground (arith, next 0, was 0))));
        limited = rw q (ground (arith, next 0, was 0, h.limited));
        fits = λ k b. rw q (passes_fits p idx other st lt full h k b);
        found = faults-moved r refl h.found;
      }
