-- ===== src/App/Filter.antt =====
-- The message filter: pausing the logging, restoring and setting the filter.
use rteget_data_linux_compat.App.Header.{
  filter_off_enabled, message_filter_address, msg_filtering_enabled,
}
use rteget_data_linux_compat.Bridge.{port_read_memory, port_write_memory}
use rteget_data_linux_compat.Prelude.{
  Bool, List, Option, [], false, if◌then◌else◌, none, not, some, true, word_at, word_bytes, ℕ, ◌&&◌,
  ◌==◌,
}
use rteget_data_linux_compat.Scan.{scan_word}
use rteget_data_linux_compat.State.{M, State, Status, error, ok, pop_or, pop_rest, pure, ◌>>=◌}

-- Writes one word.
abbrev pub write_word : ℕ → ℕ → M Status
write_word word address = port_write_memory (word_bytes word) address 4

unfoldable pub pause_data_logging : M Status
unfolding port_write_memory word_bytes
pause_data_logging s = write_word 0 (message_filter_address s) s

-- The value that the filter gets: the new one, if there is one, or the old one, or the firmware's copy
-- where the old one is zero and the firmware can switch the filter off.
unfoldable pub restored_filter : State → ℕ
restored_filter s =
    if s.parameters.set_filter
    then s.parameters.filter
    else if s.old_msg_filter == 0 && filter_off_enabled s.rtedbg_header
    then s.rtedbg_header.filter_copy
    else s.old_msg_filter

unfoldable pub set_or_restore_message_filter : M Status
unfolding restored_filter port_write_memory word_bytes
set_or_restore_message_filter s = write_word (restored_filter s) (message_filter_address s) s

-- The four bytes that a read stored over an uninitialised word count only if the read succeeds.
unfoldable pub filter_is_zero : Status × List ℕ → Bool
unfolding word_at
filter_is_zero (error, bs) = false
filter_is_zero (ok, bs) = word_at bs == 0

unfoldable pub data_logging_disabled : M Bool
unfolding port_read_memory filter_is_zero
data_logging_disabled s =
    (do r ← port_read_memory (message_filter_address s) 4; pure (filter_is_zero r)) s

-- A new filter is the hexadecimal number in a text, or in the next line of input.
abbrev pub entered_line : List ℕ → M (List ℕ)
entered_line text s = (text, s)

unfoldable pub next_line : M (List ℕ)
next_line s =
    (pop_or [] s.host.lines, record s { host = record s.host { lines = pop_rest s.host.lines } })

take_filter : Option (ℕ × List ℕ) → State → State
take_filter none s = record s { parameters = record s.parameters { set_filter = true } }
take_filter (some (n, rest)) s = record s {
  parameters = record s.parameters { filter = n; set_filter = true };
}

unfoldable pub set_new_filter_value : Option (List ℕ) → M (Unit {0})
unfolding scan_word next_line take_filter set_or_restore_message_filter
set_new_filter_value filter_value s =
    if not (msg_filtering_enabled s.rtedbg_header)
    then (tt, s)
    else (do
      text ← elim filter_value [ none ↦ next_line | some t ↦ entered_line t ]
      λ s1. (tt, (set_or_restore_message_filter (take_filter (scan_word 16 text) s1)).1))
        s
