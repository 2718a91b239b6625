-- ===== src/App/Modes.antt =====
-- Switching between single shot and post-mortem logging, and the display of the logging state. The
-- status says whether the message of success is printed; the functions themselves return nothing.
pub mod Usage
pub mod Switched
use rteget_data_linux_compat.App.Buffer.{erase_buffer_index, reset_circular_buffer}
use rteget_data_linux_compat.App.Filter.{
  pause_data_logging, set_or_restore_message_filter, write_word,
}
use rteget_data_linux_compat.App.Header.{
  disable_single_shot_mode, enable_single_shot_mode, rte_cfg_word_address,
  single_shot_logging_enabled, single_shot_was_active,
}
use rteget_data_linux_compat.App.Load.{load_rtedbg_structure_header}
use rteget_data_linux_compat.Bridge.{port_handle_unexpected_messages, port_write_memory}
use rteget_data_linux_compat.Logger.{enable_logging}
use rteget_data_linux_compat.Prelude.{
  Option, add32, false, if◌then◌else◌, ltb, min, mul32, none, some, sub32, true, word_bytes, ℕ, ◌+◌,
  ◌-◌, ◌/◌, ◌==◌,
}
use rteget_data_linux_compat.State.{Header, M, Status, error, if_ok, ok, pure, ◌>>=◌, ◌>>◌}
use mathlib.Core.Option

unfoldable pub write_cfg_word : M Status
unfolding port_write_memory word_bytes
write_cfg_word s = write_word s.rtedbg_header.rte_cfg (rte_cfg_word_address s) s

abbrev pub change_header : (Header → Header) → M (Unit {0})
change_header f s = (tt, record s { rtedbg_header = f s.rtedbg_header })

unfoldable pub start_single_shot : M Status
unfolding pause_data_logging write_cfg_word reset_circular_buffer set_or_restore_message_filter
start_single_shot = do
  pause_data_logging
  change_header enable_single_shot_mode
  written ← write_cfg_word
  if_ok written (do cleared ← reset_circular_buffer; if_ok cleared set_or_restore_message_filter)

unfoldable pub switch_to_single_shot_logging : M Status
unfolding load_rtedbg_structure_header start_single_shot
switch_to_single_shot_logging = do
  loaded ← load_rtedbg_structure_header
  if_ok loaded
      (λ s. if single_shot_logging_enabled s.rtedbg_header then start_single_shot s else (error, s))

unfoldable pub leave_single_shot : M Status
unfolding write_cfg_word
leave_single_shot s =
    if single_shot_was_active s.rtedbg_header
    then (do change_header disable_single_shot_mode; write_cfg_word) s
    else (ok, s)

-- A failure of the last two writes is reported, and the mode counts as switched all the same.
unfoldable pub switch_to_post_mortem_logging : M Status
unfolding load_rtedbg_structure_header pause_data_logging leave_single_shot reset_circular_buffer
    erase_buffer_index set_or_restore_message_filter
switch_to_post_mortem_logging = do
  loaded ← load_rtedbg_structure_header
  if_ok loaded (do
    pause_data_logging
    left ← leave_single_shot
    if_ok left (do
      cleared ← reset_circular_buffer
      if_ok cleared (do erase_buffer_index; set_or_restore_message_filter; pure ok)))

-- A division of the source; C leaves a division by zero undefined, and here it has no result.
unfoldable pub divided : ℕ → ℕ → Option ℕ
divided n m = if m == 0 then none else some (n / m)

-- (100 * last_index + size / 2) / size in `unsigned`.
unfoldable pub buffer_usage : Header → Option ℕ
unfolding divided
buffer_usage h =
    let size = sub32 h.buffer_size 4 in
    Option.map (min 100) (divided (add32 (mul32 100 h.last_index) (size / 2)) size)

-- The log is off meanwhile, unless all communication is logged.
unfoldable pub quiet_log : M (Unit {0})
unfolding enable_logging
quiet_log s = if s.parameters.debug_mode then (tt, s) else enable_logging false s

-- At most every 350 ms the header is loaded; the usage is computed whether or not that succeeds. The
-- result is the usage that may be displayed and the time of the last display; what is printed is left out.
unfoldable pub display_logging_state : ℕ → M (Option (Option ℕ) × ℕ)
unfolding port_handle_unexpected_messages load_rtedbg_structure_header buffer_usage quiet_log
    enable_logging
display_logging_state start_time s =
    if ltb (s.now - start_time) 350
    then ((none, start_time), record s { now = s.now + 50 })
    else (do
      quiet_log
      port_handle_unexpected_messages
      load_rtedbg_structure_header
      enable_logging true
      λ s1. ((some (buffer_usage s1.rtedbg_header), s.now), s1))
        s
