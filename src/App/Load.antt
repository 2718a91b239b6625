-- ===== src/App/Load.antt =====
-- Loading the header of g_rtedbg and allocating the buffer for the structure.
pub mod Sizes
use rteget_data_linux_compat.App.Header.{header_bytes, header_of, header_size}
use rteget_data_linux_compat.Bridge.{port_read_memory}
use rteget_data_linux_compat.Prelude.{
  Bool, List, [], add32, blit, false, if◌then◌else◌, ltb, mul32, none, not, some, true, ℕ, ◌==◌,
  ◌||◌,
}
use rteget_data_linux_compat.State.{
  Header, M, State, Status, error, if_ok, ok, pop_or, pop_rest, ◌>>=◌, ◌>>◌,
}

abbrev pub min_buffer_size : ℕ
min_buffer_size = 80

abbrev pub max_buffer_size : ℕ
max_buffer_size = 2100000

-- malloc: what a new block holds is not known, and nothing reads it before it is filled.
allocate : ℕ → Bool → State → Bool × State
allocate size granted s =
    let s1 = record s { host = record s.host { mallocs = pop_rest s.host.mallocs } } in
    if granted
    then (
      true,
      record s1 { p_rtedbg_structure = some (record { allocated = size; contents = [] }) },
    )
    else (false, s1)

unfoldable pub allocate_memory_for_g_rtedbg_structure : M Bool
unfolding allocate
allocate_memory_for_g_rtedbg_structure s =
    if s.parameters.size == 0 then (false, s) else (elim s.p_rtedbg_structure [
      | some b ↦ (true, s)
      | none ↦ allocate s.parameters.size (pop_or true s.host.mallocs) s
    ])

-- The bytes of a read into `rtedbg_header`; after an error some of it may be overwritten.
unfoldable pub store_header : List ℕ → State → State
unfolding header_bytes header_of
store_header bs s = record s {
  rtedbg_header = header_of (blit (header_bytes s.rtedbg_header) 0 bs);
}

abbrev pub set_size : ℕ → State → State
set_size n s = record s { parameters = record s.parameters { size = n } }

-- rtedbg_header.buffer_size * 4U + sizeof(rtedbg_header_t), in `unsigned`.
unfoldable pub structure_size : Header → ℕ
structure_size h = add32 (mul32 h.buffer_size 4) header_size

-- The size is taken over, and the old buffer is released, if the size is new. A size out of bounds is
-- taken over too, but the buffer stays.
unfoldable pub take_over_size : M Status
unfolding structure_size
take_over_size s =
    let new_size = structure_size s.rtedbg_header in
    if s.parameters.size == 0 || not (new_size == s.parameters.size)
    then (if ltb new_size min_buffer_size || ltb max_buffer_size new_size
        then (error, set_size new_size s)
        else (ok, record (set_size new_size s) { p_rtedbg_structure = none }))
    else (ok, s)

unfoldable pub allocated_or_error : M Status
unfolding allocate_memory_for_g_rtedbg_structure
allocated_or_error s = (
  (if (allocate_memory_for_g_rtedbg_structure s).0 then ok else error),
  (allocate_memory_for_g_rtedbg_structure s).1,
)

-- What is done with the bytes that were read.
unfoldable pub header_loaded : Status × List ℕ → M Status
unfolding store_header take_over_size allocated_or_error
header_loaded (error, bs) s = (error, store_header bs s)
header_loaded (ok, bs) s =
    if_ok (take_over_size (store_header bs s)).0 allocated_or_error
      (take_over_size (store_header bs s)).1

unfoldable pub load_rtedbg_structure_header : M Status
unfolding port_read_memory header_loaded
load_rtedbg_structure_header s =
    (do r ← port_read_memory s.parameters.start_address header_size; header_loaded r) s
