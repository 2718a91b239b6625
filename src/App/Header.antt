-- ===== src/App/Header.antt =====
-- The header of g_rtedbg: its 24 bytes, and the fields of the word `rte_cfg` (Code/rtedbg.h).
use rteget_data_linux_compat.Prelude.{
  Bool, List, add32, bit, drop, if◌then◌else◌, not, word_at, word_bytes, ℕ, ◌%◌, ◌*◌, ◌++◌, ◌+◌,
  ◌/◌, ◌==◌, ◌^◌, ◌||◌,
}
use rteget_data_linux_compat.State.{Header, M, State, Status, error, ok}

abbrev pub header_size : ℕ
header_size = 24

-- The fields in the order of the `struct`, each as a little-endian word: the copy in the target's memory.
unfoldable pub header_bytes : Header → List ℕ
unfolding word_bytes
header_bytes h =
    word_bytes h.last_index
    ++ (word_bytes h.filter
        ++ (word_bytes h.rte_cfg
            ++ (word_bytes h.timestamp_frequency
                ++ (word_bytes h.filter_copy ++ word_bytes h.buffer_size))))

unfoldable pub header_of : List ℕ → Header
unfolding word_at
header_of p = record {
  last_index = word_at p;
  filter = word_at (drop 4 p);
  rte_cfg = word_at (drop 8 p);
  timestamp_frequency = word_at (drop 12 p);
  filter_copy = word_at (drop 16 p);
  buffer_size = word_at (drop 20 p);
}

abbrev pub single_shot_was_active : Header → Bool
single_shot_was_active h = bit h.rte_cfg 0 == 1

abbrev pub msg_filtering_enabled : Header → Bool
msg_filtering_enabled h = bit h.rte_cfg 1 == 1

abbrev pub filter_off_enabled : Header → Bool
filter_off_enabled h = bit h.rte_cfg 2 == 1

abbrev pub single_shot_logging_enabled : Header → Bool
single_shot_logging_enabled h = bit h.rte_cfg 3 == 1

abbrev pub cfg_reserved_bits : Header → ℕ
cfg_reserved_bits h = h.rte_cfg / 2 ^ 5 % 8

abbrev pub cfg_reserved2 : Header → ℕ
cfg_reserved2 h = h.rte_cfg / 2 ^ 15 % 2

-- RTE_HEADER_SIZE, in bytes.
abbrev pub announced_header_size : Header → ℕ
announced_header_size h = h.rte_cfg / 2 ^ 24 % 128 * 4

-- rte_cfg |= 1 and rte_cfg &= ~1
abbrev pub enable_single_shot_mode : Header → Header
enable_single_shot_mode h = record h { rte_cfg = h.rte_cfg / 2 * 2 + 1 }

abbrev pub disable_single_shot_mode : Header → Header
disable_single_shot_mode h = record h { rte_cfg = h.rte_cfg / 2 * 2 }

-- MESSAGE_FILTER_ADDRESS and RTE_CFG_WORD_ADDRESS
abbrev pub message_filter_address : State → ℕ
message_filter_address s = add32 s.parameters.start_address 4

abbrev pub rte_cfg_word_address : State → ℕ
rte_cfg_word_address s = add32 s.parameters.start_address 8

unfoldable pub check_header_info : M Status
check_header_info s =
    if not (announced_header_size s.rtedbg_header == header_size)
      || (not (cfg_reserved_bits s.rtedbg_header == 0) || not (cfg_reserved2 s.rtedbg_header == 0))
    then (error, s)
    else (ok, s)
