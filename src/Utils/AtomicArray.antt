-- ===== src/Utils/AtomicArray.antt =====
-- skywalking/utils/array.py: an array of slots, each empty (`None`) or holding a value.
use skywalking_python.Prelude.{
  ℕ, ◌-◌, ◌<◌, ◌≡◌, ◌≢◌, ◌∙◌, ◌⊎◌, refl, Bool, true, false, ◌||◌, Option, none, some, List, arith,
  ltb, if◌then◌else◌, length, get_elem?, set as list_set, replicate, length-set, length-replicate,
  get_elem?-set_self, get_elem?-set_ne, Bool-cases, Option-cases, inl, inr,
}
use skywalking_python.Prelude.Int.{ℤ, pos, negsuc, leb_ℤ, ltb_ℤ, pos_part}
use skywalking_python.Prelude.Result.{Result, ok, err, index_error}

pub record AtomicArray (A : Type 0) : Type 0 where
  pub size : ℕ
  pub array : List (Option A)

module _ {A : Type 0} where
  -- `AtomicArray.__init__`
  unfoldable pub create : ℕ → AtomicArray A
  create n = record { size = n; array = replicate n none }

  or_index_error : Option (Option A) → Result (Option A)
  or_index_error none = err index_error
  or_index_error (some v) = ok v

  -- `AtomicArray.__getitem__`, with Python's negative indices.
  unfoldable pub get_item : ℤ → AtomicArray A → Result (Option A)
  unfolding or_index_error
  get_item (pos i) a = or_index_error (get_elem? a.array i)
  get_item (negsuc n) a =
      if ltb n (length a.array)
      then or_index_error (get_elem? a.array (length a.array - n - 1))
      else err index_error

  -- The test `idx < 0 or idx >= self.length()`.
  abbrev out_of_range : ℤ → AtomicArray A → Bool
  out_of_range idx a = ltb_ℤ idx (pos 0) || leb_ℤ (pos a.size) idx

  -- `AtomicArray.set`
  unfoldable pub set : ℤ → Option A → AtomicArray A → Result (AtomicArray A)
  set idx v a =
      if out_of_range idx a
      then err index_error
      else ok (record a { array = list_set a.array (pos_part idx) v })

  -- `AtomicArray.get`
  unfoldable pub get : ℤ → AtomicArray A → Result (Option A)
  unfolding or_index_error
  get idx a =
      if out_of_range idx a
      then err index_error
      else or_index_error (get_elem? a.array (pos_part idx))

  swap_slot :
      (Option A → Option A → Bool)
      → ℕ
      → Option A
      → Option A
      → AtomicArray A
      → Option (Option A)
      → Result (Bool × AtomicArray A)
  swap_slot beq i expect update a none = err index_error
  swap_slot beq i expect update a (some v) =
      if beq v expect
      then ok (true, record a { array = list_set a.array i update })
      else ok (false, a)

  -- `AtomicArray.compare_and_set`
  unfoldable pub compare_and_set :
      (Option A → Option A → Bool)
      → ℤ
      → Option A
      → Option A
      → AtomicArray A
      → Result (Bool × AtomicArray A)
  unfolding swap_slot
  compare_and_set beq idx expect update a =
      if out_of_range idx a
      then err index_error
      else swap_slot beq (pos_part idx) expect update a (get_elem? a.array (pos_part idx))

  -- The declared length is the length.
  abbrev pub IsValid : AtomicArray A → Type 0
  IsValid a = length a.array ≡ a.size

  set_get :
      (idx : ℕ) (v : Option A) (a : AtomicArray A)
      → IsValid a
      → idx < a.size
      → get (pos idx) (record a { array = list_set a.array idx v }) ≡ ok v
  unfolding get
  set_get idx v a h lt = ground (arith, get_elem?-set_self a.array idx v, length-set a.array idx v)

  get_other :
      (idx j : ℕ) (v : Option A) (a : AtomicArray A)
      → idx ≢ j
      → get (pos j) (record a { array = list_set a.array idx v }) ≡ get (pos j) a
  unfolding get
  get_other idx j v a ne = rw (get_elem?-set_ne a.array v ne)

  in_range : (idx : ℕ) (v : Option A) (a : AtomicArray A) → get (pos idx) a ≡ ok v → idx < a.size
  unfolding get
  in_range idx v a h = ground arith

  swapped :
      (beq : Option A → Option A → Bool) (idx : ℕ) (expect update v : Option A) (a : AtomicArray A)
      → get (pos idx) a ≡ ok v
      → compare_and_set beq (pos idx) expect update a
        ≡ ok (
          beq v expect,
          if beq v expect then record a { array = list_set a.array idx update } else a,
        )
  unfolding get compare_and_set
  swapped beq idx expect update v a e = ground arith

  -- A compare-and-set in range swaps exactly when the slot holds the expected value: then the
  -- slot holds the update, every other slot and the length are as before, and else nothing
  -- changes.
  pub compare_and_set_lem :
      (beq : Option A → Option A → Bool) (idx : ℕ) (expect update v : Option A) (a : AtomicArray A)
      → IsValid a
      → get (pos idx) a ≡ ok v
      → (b : AtomicArray A) × (compare_and_set beq (pos idx) expect update a ≡ ok (beq v expect, b))
        × (get (pos idx) b ≡ ok (if beq v expect then update else v))
        × ((j : ℕ) → idx ≢ j → get (pos j) b ≡ get (pos j) a)
        × IsValid b
  compare_and_set_lem beq idx expect update v a valid e = elim (Bool-cases (beq v expect)) [
    | inl same ↦ (
      record a { array = list_set a.array idx update },
      swapped beq idx expect update v a e ∙ rw same,
      rw same (set_get idx update a valid (in_range idx v a e)),
      λ j ne. get_other idx j update a ne,
      length-set a.array idx update ∙ valid,
    )
    | inr other ↦
        (a, swapped beq idx expect update v a e ∙ rw other, rw other e, λ j ne. refl, valid)
  ]

  -- Outside the array `set`, `get` and `compare_and_set` raise `IndexError`, below and above alike.
  pub out_of_range_raises :
      (beq : Option A → Option A → Bool) (idx : ℤ) (expect update : Option A) (a : AtomicArray A)
      → out_of_range idx a ≡ true
      → (set idx update a ≡ err index_error)
        × (get idx a ≡ err index_error)
        × (compare_and_set beq idx expect update a ≡ err index_error)
  unfolding set get compare_and_set
  out_of_range_raises beq idx expect update a h = (rw h, rw h, rw h)

  -- The same by the place in the list.
  pub compare_and_set_at :
      (beq : Option A → Option A → Bool) (idx : ℕ) (expect update v : Option A) (a : AtomicArray A)
      → idx < a.size
      → get_elem? a.array idx ≡ some v
      → compare_and_set beq (pos idx) expect update a
        ≡ ok (
          beq v expect,
          if beq v expect then record a { array = list_set a.array idx update } else a,
        )
  unfolding compare_and_set
  compare_and_set_at beq idx expect update v a lt e = ground arith

  pub set_at :
      (idx : ℕ) (v : Option A) (a : AtomicArray A)
      → idx < a.size
      → set (pos idx) v a ≡ ok (record a { array = list_set a.array idx v })
  unfolding set
  set_at idx v a lt = ground arith

  pub get_item_cases :
      (idx : ℕ) (a : AtomicArray A)
      → (get_item (pos idx) a ≡ err index_error)
        ⊎ ((v : Option A) × (get_item (pos idx) a ≡ ok v) × (get_elem? a.array idx ≡ some v))
  unfolding get_item
  get_item_cases idx a = elim (Option-cases (get_elem? a.array idx)) [
    | inl e ↦ inl (rw e refl)
    | inr (v, e) ↦ inr (v, rw e refl, e)
  ]

pub create-IsValid : (A : Type 0) (n : ℕ) → IsValid (create {A = A} n)
unfolding create
create-IsValid A n = length-replicate n none
