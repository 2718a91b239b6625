-- ===== src/App/Transfer.antt =====
-- One transfer of the structure from the target to the file: `single_data_transfer`.
pub mod Restore
pub mod Saved
use rteget_data_linux_compat.App.Buffer.{reset_circular_buffer, save_rtedbg_structure}
use rteget_data_linux_compat.App.Filter.{
  data_logging_disabled, pause_data_logging, set_or_restore_message_filter,
}
use rteget_data_linux_compat.App.Header.{check_header_info, message_filter_address}
use rteget_data_linux_compat.App.Load.{load_rtedbg_structure_header}
use rteget_data_linux_compat.Bridge.{port_handle_unexpected_messages, port_read_memory}
use rteget_data_linux_compat.Prelude.{
  List, blit, if◌then◌else◌, none, not, some, word_at, word_bytes, ℕ, ◌+◌, ◌==◌,
}
use rteget_data_linux_compat.State.{M, State, Status, error, if_ok, ok, pure, ◌>>=◌, ◌>>◌}

unfoldable pub execute_decode_batch_file : M (Unit {0})
execute_decode_batch_file s = elim s.parameters.decode_file [
  | none ↦ (tt, s)
  | some f ↦ (tt, record s { host = record s.host { decode_runs = s.host.decode_runs + 1 } })
]

-- The bytes of a read into `old_msg_filter`.
unfoldable pub store_old_filter : List ℕ → State → State
unfolding word_at word_bytes
store_old_filter bs s = record s {
  old_msg_filter = word_at (blit (word_bytes s.old_msg_filter) 0 bs);
}

-- Logging is paused unless it is off already.
unfoldable pub pause_if_logging : M Status
unfolding pause_data_logging
pause_if_logging s = if s.old_msg_filter == 0 then (ok, s) else pause_data_logging s

-- After the structure has been saved.
unfoldable pub finish_transfer : M Status
unfolding data_logging_disabled set_or_restore_message_filter reset_circular_buffer
    execute_decode_batch_file
finish_transfer = do
  disabled ← data_logging_disabled
  if not disabled then (do set_or_restore_message_filter; pure error) else (do
    reset_circular_buffer
    restored ← set_or_restore_message_filter
    if_ok restored (do execute_decode_batch_file; pure ok))

unfoldable pub save_and_finish : Status → M Status
unfolding finish_transfer set_or_restore_message_filter
save_and_finish ok = finish_transfer
save_and_finish error = do set_or_restore_message_filter; pure error

-- The steps behind the first read of the filter.
unfoldable pub transfer_structure : Status × List ℕ → M Status
unfolding store_old_filter pause_if_logging load_rtedbg_structure_header check_header_info
    save_rtedbg_structure save_and_finish
transfer_structure (error, bs) s = (error, store_old_filter bs s)
transfer_structure (ok, bs) s =
    (do
      paused ← pause_if_logging
      if_ok paused (do
        loaded ← load_rtedbg_structure_header
        if_ok loaded (do
          checked ← check_header_info
          if_ok checked (do saved ← save_rtedbg_structure; save_and_finish saved))))
      (store_old_filter bs s)

unfoldable pub single_data_transfer : M Status
unfolding port_handle_unexpected_messages port_read_memory transfer_structure
single_data_transfer s =
    (do
      port_handle_unexpected_messages
      r ← port_read_memory (message_filter_address s) 4
      transfer_structure r)
      s
