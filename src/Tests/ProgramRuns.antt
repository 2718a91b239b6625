-- ===== src/Tests/ProgramRuns.antt =====
-- The theorems on the displays, the keys, the benchmark and the log at concrete inputs.
use rteget_data_linux_compat.App.Display.{filter_title, print_filter_info}
use rteget_data_linux_compat.App.Display.Numbers.{
  numbers_text, print_filter_info-numbers, set_positions, word_of_bits,
}
use rteget_data_linux_compat.App.Header.{
  enable_single_shot_mode, header_bytes, single_shot_logging_enabled, single_shot_was_active,
}
use rteget_data_linux_compat.App.Load.{load_rtedbg_structure_header}
use rteget_data_linux_compat.App.Modes.{
  switch_to_post_mortem_logging, switch_to_single_shot_logging,
}
use rteget_data_linux_compat.App.Modes.Switched.{
  switch_to_post_mortem_logging-inactive, switch_to_single_shot_logging-active,
}
use rteget_data_linux_compat.Com.Linux.{com_read_memory_linux, com_write_memory_linux}
use rteget_data_linux_compat.Hex.{get_hex_digit}
use rteget_data_linux_compat.Logger.{hex_dump}
use rteget_data_linux_compat.Logger.Dump.{get_hex_digit-hex_dump}
use rteget_data_linux_compat.Prelude.{
  Bool, List, [], arith, drop, false, get_or, refl, replicate, some, true, ℕ, ◌%◌, ◌*◌, ◌++◌, ◌<◌,
  ◌∷◌, ◌≡◌,
}
use rteget_data_linux_compat.State.{State, chunk, com_port, ok}
use rteget_data_linux_compat.Tests.{fresh, no_header, no_parameters, open_com}

get_hex_digit-hex_dump_example :
    get_hex_digit (drop (1 * 3) (hex_dump (0x52 ∷ 0xA0 ∷ [])))
    ≡ some (get_or (0x52 ∷ 0xA0 ∷ []) 1 0 % 256)
get_hex_digit-hex_dump_example = get_hex_digit-hex_dump (0x52 ∷ 0xA0 ∷ []) 1 (omega arith)

-- The filters 1, 4 and 31.
abbrev some_filters : List Bool
some_filters = false ∷ true ∷ false ∷ false ∷ true ∷ (replicate 26 false ++ (true ∷ []))

abbrev filtering : State
filtering = record fresh {
  rtedbg_header = record no_header { filter = word_of_bits 31 some_filters };
}

some_filters_positive : 0 < word_of_bits 31 some_filters
unfolding word_of_bits
some_filters_positive = omega arith

print_filter_info-numbers_example :
    (print_filter_info filtering).0
    ≡ some (
        filter_title (word_of_bits 31 some_filters)
        ++ numbers_text false (set_positions 0 some_filters))
print_filter_info-numbers_example =
    print_filter_info-numbers some_filters filtering refl refl some_filters_positive refl

-- A firmware with this configuration word and a structure of 80 bytes, on the COM port under Linux.
abbrev firmware : ℕ → State
firmware rte_cfg = record fresh {
  parameters = record no_parameters { active_interface = com_port };
  com_link = record open_com {
    com_reads =
        chunk (header_bytes (record no_header { rte_cfg = rte_cfg; buffer_size = 14 })) ∷ [];
  };
}

single_shot_succeeds : (switch_to_single_shot_logging (firmware 0x06000008)).0 ≡ ok
unfolding switch_to_single_shot_logging com_read_memory_linux com_write_memory_linux
single_shot_succeeds = refl

switch_to_single_shot_logging-active_example :
    ((switch_to_single_shot_logging (firmware 0x06000008)).1.rtedbg_header
      ≡ enable_single_shot_mode
          (load_rtedbg_structure_header (firmware 0x06000008)).1.rtedbg_header)
    × (single_shot_was_active (switch_to_single_shot_logging (firmware 0x06000008)).1.rtedbg_header
        ≡ true)
    × (single_shot_logging_enabled
          (switch_to_single_shot_logging (firmware 0x06000008)).1.rtedbg_header
        ≡ true)
switch_to_single_shot_logging-active_example =
    switch_to_single_shot_logging-active (firmware 0x06000008) single_shot_succeeds

post_mortem_succeeds : (switch_to_post_mortem_logging (firmware 0x06000009)).0 ≡ ok
unfolding switch_to_post_mortem_logging com_read_memory_linux com_write_memory_linux
post_mortem_succeeds = refl

switch_to_post_mortem_logging-inactive_example :
    single_shot_was_active (switch_to_post_mortem_logging (firmware 0x06000009)).1.rtedbg_header
    ≡ false
switch_to_post_mortem_logging-inactive_example =
    switch_to_post_mortem_logging-inactive (firmware 0x06000009) post_mortem_succeeds

-- The answers to a whole transfer: the filter, the header, the structure of 80 bytes, and the filter that
-- is off meanwhile.
abbrev whole_transfer : State
whole_transfer = record fresh {
  parameters = record no_parameters { active_interface = com_port };
  com_link = record open_com {
    com_reads =
        chunk (5 ∷ 0 ∷ 0 ∷ 0 ∷ [])
        ∷ chunk
            (header_bytes (record no_header { filter = 5; rte_cfg = 0x06000002; buffer_size = 14 }))
        ∷ chunk (replicate 80 7)
        ∷ chunk (0 ∷ 0 ∷ 0 ∷ 0 ∷ [])
        ∷ [];
  };
}
