-- ===== src/App/Load/Sizes.antt =====
-- The size of the structure and the buffer that is allocated for it.
use rteget_data_linux_compat.App.Load.{
  allocate, allocated_or_error, max_buffer_size, min_buffer_size, set_size, structure_size,
  take_over_size,
}
use rteget_data_linux_compat.Prelude.{
  Bool, Option, ap, arith, false, if◌then◌else◌, ltb, none, not, some, true, ℕ, ◌<◌, ◌==◌, ◌||◌,
  ◌↔◌, ◌≡◌, ◌≢◌, ◌≤◌,
}
use rteget_data_linux_compat.State.{Block, State, Status, error, ok, pop_or}
use mathlib.Core.Path.{subst}

-- The buffer holds the whole structure.
abbrev pub HoldsBytes : ℕ → Option Block → Type 0
HoldsBytes n none = Unit {0}
HoldsBytes n (some b) = n ≤ b.allocated

abbrev pub HoldsStructure : State → Type 0
HoldsStructure s = HoldsBytes s.parameters.size s.p_rtedbg_structure

-- The size is within the bounds that are checked.
abbrev pub InBounds : ℕ → Type 0
InBounds n = (min_buffer_size ≤ n) × (n ≤ max_buffer_size)

-- A header with a new size: the size is taken over, and the status is ok exactly if it is in bounds.
pub take_over_size_new :
    (s : State)
    → structure_size s.rtedbg_header ≢ s.parameters.size
    → ((take_over_size s).1.parameters.size ≡ structure_size s.rtedbg_header)
      × (((take_over_size s).0 ≡ ok) ↔ InBounds (structure_size s.rtedbg_header))
unfolding take_over_size
take_over_size_new s h = (ground arith, (λ e. ground arith, λ b. ground arith))

-- The branches of the allocation: without a size, with a buffer, and by malloc.
allocation-HoldsStructure :
    (no_size : Bool) (p : Option Block) (granted : Bool) (s : State)
    → HoldsStructure s
    → HoldsStructure
        (if◌then◌else◌ {A = Bool × State} no_size
          (false, s)
          (elim p [ some b ↦ (true, s) | none ↦ allocate s.parameters.size granted s ])).1
unfolding allocate
allocation-HoldsStructure true p granted s h = h
allocation-HoldsStructure false (some c) granted s h = h
allocation-HoldsStructure false none false s h = h
allocation-HoldsStructure false none true s h = omega arith

allocated_or_error-HoldsStructure :
    (s : State) → HoldsStructure s → HoldsStructure (allocated_or_error s).1
unfolding allocated_or_error
allocated_or_error-HoldsStructure s h =
    allocation-HoldsStructure (s.parameters.size == 0) s.p_rtedbg_structure
      (pop_or true s.host.mallocs) s h

-- The branches: a size that is new or not, and out of bounds or not.
taken_over-HoldsStructure :
    (is_new bad : Bool) (n : ℕ) (s : State) {s1 : State}
    → HoldsStructure s
    → if◌then◌else◌ {A = Status × State} is_new
        (if bad
          then (error, set_size n s)
          else (ok, record (set_size n s) { p_rtedbg_structure = none }))
        (ok, s)
      ≡ (ok, s1)
    → HoldsStructure s1
taken_over-HoldsStructure false bad n s h e =
    subst HoldsStructure (ap (λ (r : Status × State). r.1) e) h
taken_over-HoldsStructure true false n s h e =
    subst HoldsStructure (ap (λ (r : Status × State). r.1) e) tt
taken_over-HoldsStructure true true n s h e = absurd (ground arith)

-- From a state whose buffer holds the structure, a header that is taken over with status ok leaves a
-- state whose buffer holds the structure of the size that is then in force, once the missing buffer is
-- allocated.
pub take_over_size-HoldsStructure :
    (s s1 : State)
    → HoldsStructure s
    → take_over_size s ≡ (ok, s1)
    → HoldsStructure (allocated_or_error s1).1
unfolding take_over_size
take_over_size-HoldsStructure s s1 h e =
    let n = structure_size s.rtedbg_header in
    allocated_or_error-HoldsStructure s1 (
      taken_over-HoldsStructure (s.parameters.size == 0 || not (n == s.parameters.size))
        (ltb n min_buffer_size || ltb max_buffer_size n) n s h e)

-- The same header loaded twice, where its size is too large and not the one in force: the first load is
-- refused, but the size is stored and the old buffer kept, and so the second load is accepted, with the
-- old buffer for the size that was refused.
pub refused_size_accepted_later :
    (s : State) (old : Block)
    → s.p_rtedbg_structure ≡ some old
    → structure_size s.rtedbg_header ≢ s.parameters.size
    → max_buffer_size < structure_size s.rtedbg_header
    → ((take_over_size s).0 ≡ error)
      × ((take_over_size (take_over_size s).1).0 ≡ ok)
      × ((allocated_or_error (take_over_size (take_over_size s).1).1).0 ≡ ok)
      × ((allocated_or_error (take_over_size (take_over_size s).1).1).1.p_rtedbg_structure
          ≡ some old)
      × ((allocated_or_error (take_over_size (take_over_size s).1).1).1.parameters.size
          ≡ structure_size s.rtedbg_header)
unfolding take_over_size allocated_or_error structure_size
refused_size_accepted_later s old p n big =
    (ground arith, ground arith, ground arith, ground arith, ground arith)
