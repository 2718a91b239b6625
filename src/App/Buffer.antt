-- ===== src/App/Buffer.antt =====
-- The circular buffer: erasing and resetting it, initialising the structure, and saving it to a file.
pub mod File
pub mod Frame
use rteget_data_linux_compat.App.Filter.{pause_data_logging, write_word}
use rteget_data_linux_compat.App.Header.{
  header_bytes, header_size, message_filter_address, single_shot_logging_enabled,
  single_shot_was_active,
}
use rteget_data_linux_compat.Bridge.{port_read_memory, port_write_memory}
use rteget_data_linux_compat.Prelude.{
  Bool, List, add32, blit, false, if◌then◌else◌, min, none, replicate, some, sub32, suc, take, true,
  word_bytes, zero, ℕ, ◌&&◌, ◌+◌, ◌/◌, ◌==◌, ◌||◌,
}
use rteget_data_linux_compat.State.{
  Block, Header, M, State, Status, error, if_ok, ok, pop_or, pop_rest, pure, ◌>>=◌, ◌>>◌,
}

unfoldable pub erase_buffer_index : M Status
unfolding port_write_memory word_bytes
erase_buffer_index s = write_word 0 s.parameters.start_address s

unfoldable pub single_shot_active : Header → Bool
single_shot_active h = single_shot_was_active h && single_shot_logging_enabled h

-- malloc and free of a block that is only written to the target.
unfoldable pub borrow_memory : M Bool
borrow_memory s = (
  pop_or true s.host.mallocs,
  record s { host = record s.host { mallocs = pop_rest s.host.mallocs } },
)

unfoldable pub circular_buffer_size : State → ℕ
circular_buffer_size s = sub32 s.parameters.size header_size

-- The buffer is filled with 0xFF.
unfoldable pub clear_circular_buffer : M Status
unfolding borrow_memory port_write_memory circular_buffer_size
clear_circular_buffer s =
    (do
      granted ← borrow_memory
      if granted
          then port_write_memory (replicate (circular_buffer_size s) 0xFF)
              (add32 s.parameters.start_address header_size) (circular_buffer_size s)
          else pure error)
      s

unfoldable pub reset_circular_buffer : M Status
unfolding clear_circular_buffer erase_buffer_index single_shot_active
reset_circular_buffer s =
    if s.parameters.clear_buffer
    then (do cleared ← clear_circular_buffer; if_ok cleared erase_buffer_index) s
    else if single_shot_active s.rtedbg_header
    then erase_buffer_index s
    else (ok, s)

abbrev pub initial_header : ℕ → ℕ → State → Header
initial_header cfg_word timestamp_frequency s = record {
  last_index = 0;
  filter = 0;
  rte_cfg = cfg_word;
  timestamp_frequency = timestamp_frequency;
  filter_copy = s.parameters.filter;
  buffer_size = circular_buffer_size s / 4;
}

-- The status is that of the last write; the function itself returns nothing.
unfoldable pub initialize_data_logging_structure : ℕ → ℕ → M Status
unfolding pause_data_logging header_bytes reset_circular_buffer port_write_memory word_bytes
initialize_data_logging_structure cfg_word timestamp_frequency s =
    if timestamp_frequency == 0 || s.parameters.size == 0
    then (error, s)
    else (do
      paused ← pause_data_logging
      if_ok paused (do
        written ←
            port_write_memory (header_bytes (initial_header cfg_word timestamp_frequency s))
              s.parameters.start_address header_size
        if_ok written (do
          cleared ← reset_circular_buffer
          if_ok cleared (λ s1.
              if s1.parameters.filter == 0
              then (ok, s1)
              else write_word s1.parameters.filter (message_filter_address s1) s1))))
        s

-- One fopen_s of the binary file: its `errno`, 0 for success.
unfoldable pub open_bin_file : M ℕ
open_bin_file s = (
  pop_or 0 s.host.bin_opens,
  record s { host = record s.host { bin_opens = pop_rest s.host.bin_opens } },
)

-- Up to `n` more attempts, 100 ms apart.
unfoldable pub retry_open : ℕ → ℕ → M ℕ
unfolding open_bin_file
retry_open zero rez s = (rez, s)
retry_open (suc n) rez s =
    let s1 = record s { now = s.now + 100 } in
    elim ((open_bin_file s1).0 == 0) [
      | true ↦ open_bin_file s1
      | false ↦ retry_open n (open_bin_file s1).0 (open_bin_file s1).1
    ]

-- EACCES
abbrev pub access_denied : ℕ
access_denied = 13

unfoldable pub open_with_retries : M ℕ
unfolding open_bin_file retry_open
open_with_retries = do
  rez ← open_bin_file
  if rez == access_denied then retry_open 9 rez else pure rez

-- p_rtedbg_structure[1] = old_msg_filter, and then the file is written.
unfoldable pub write_bin_file : List ℕ → M Status
unfolding word_bytes
write_bin_file bs s =
    let image = take s.parameters.size (blit bs 4 (word_bytes s.old_msg_filter)) in
    elim s.host.bin_room [
      | none ↦ (ok, record s { host = record s.host { bin_file = some image } })
      | some n ↦ (
        (if min n s.parameters.size == s.parameters.size then ok else error),
        record s { host = record s.host { bin_file = some (take n image) } },
      )
    ]

unfoldable pub store_block : Block → List ℕ → State → State
store_block b bs s = record s {
  p_rtedbg_structure = some (record b { contents = blit b.contents 0 bs });
}

unfoldable pub delay_before_data_transfer : M (Unit {0})
delay_before_data_transfer s = (tt, record s { now = s.now + s.parameters.delay })

-- Behind the read into the block.
unfoldable pub save_block : Block → Status × List ℕ → M Status
unfolding store_block open_with_retries write_bin_file
save_block b (error, bs) s = (error, store_block b bs s)
save_block b (ok, bs) s =
    (do
      rez ← open_with_retries
      if rez == 0 then write_bin_file (blit b.contents 0 bs) else pure error)
      (store_block b bs s)

unfoldable pub save_rtedbg_structure : M Status
unfolding delay_before_data_transfer port_read_memory save_block
save_rtedbg_structure s = elim s.p_rtedbg_structure [
  | none ↦ (error, s)
  | some b ↦
      (do
        delay_before_data_transfer
        r ← port_read_memory s.parameters.start_address s.parameters.size
        save_block b r)
        s
]
