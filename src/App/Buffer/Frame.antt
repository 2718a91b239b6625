-- ===== src/App/Buffer/Frame.antt =====
-- The writes to the target change nothing but the variables of the link, the time, the error code and the
-- answers of `malloc`.
use rteget_data_linux_compat.App.Buffer.{
  borrow_memory, circular_buffer_size, clear_circular_buffer, erase_buffer_index,
  reset_circular_buffer, single_shot_active,
}
use rteget_data_linux_compat.App.Filter.{
  pause_data_logging, restored_filter, set_or_restore_message_filter, write_word,
}
use rteget_data_linux_compat.App.Header.{header_size, message_filter_address}
use rteget_data_linux_compat.Bridge.{port_write_memory}
use rteget_data_linux_compat.Bridge.Frame.{port_write_memory-Frame}
use rteget_data_linux_compat.Keeps.{
  IsComFrame, IsFrame, IsHostFrame, Keeps, Keeps-if, Keeps-if_at, Keeps-if_ok,
}
use rteget_data_linux_compat.Prelude.{add32, if◌then◌else◌, refl, replicate, word_bytes, ℕ}
use rteget_data_linux_compat.State.{State, error, if_ok, ok, pure}

module _ {κ} (P : State → Type κ) (f : IsFrame P) (g : IsComFrame P) (m : IsHostFrame P) where
  pub write_word-Frame : (word address : ℕ) → Keeps P (write_word word address)
  write_word-Frame word address = port_write_memory-Frame P f g (word_bytes word) address 4

  pub pause_data_logging-Frame : Keeps P pause_data_logging
  unfolding pause_data_logging
  pause_data_logging-Frame s h = write_word-Frame 0 (message_filter_address s) s h

  pub set_or_restore_message_filter-Frame : Keeps P set_or_restore_message_filter
  unfolding set_or_restore_message_filter
  set_or_restore_message_filter-Frame s h =
      write_word-Frame (restored_filter s) (message_filter_address s) s h

  pub erase_buffer_index-Frame : Keeps P erase_buffer_index
  unfolding erase_buffer_index
  erase_buffer_index-Frame s h = write_word-Frame 0 s.parameters.start_address s h

  clear_circular_buffer-Frame : Keeps P clear_circular_buffer
  unfolding clear_circular_buffer borrow_memory
  clear_circular_buffer-Frame s h =
      let size = circular_buffer_size s in
      let address = add32 s.parameters.start_address header_size in
      Keeps-if P (borrow_memory s).0 (port_write_memory (replicate size 0xFF) address size)
        (pure error) (port_write_memory-Frame P f g (replicate size 0xFF) address size) (λ s1 k. k)
        (borrow_memory s).1 (m.keeps_host s _ refl h)

  pub reset_circular_buffer-Frame : Keeps P reset_circular_buffer
  unfolding reset_circular_buffer
  reset_circular_buffer-Frame s h =
      let r = clear_circular_buffer s in
      Keeps-if_at P s.parameters.clear_buffer (if_ok r.0 erase_buffer_index r.1)
        (if single_shot_active s.rtedbg_header then erase_buffer_index s else (ok, s))
        (Keeps-if_ok P r.0 erase_buffer_index erase_buffer_index-Frame r.1
          (clear_circular_buffer-Frame s h))
        (Keeps-if_at P (single_shot_active s.rtedbg_header) (erase_buffer_index s) (ok, s)
          (erase_buffer_index-Frame s h) h)
