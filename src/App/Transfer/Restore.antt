-- ===== src/App/Transfer/Restore.antt =====
-- The end of a transfer.
use rteget_data_linux_compat.App.Filter.{restored_filter, set_or_restore_message_filter}
use rteget_data_linux_compat.App.Header.{filter_off_enabled}
use rteget_data_linux_compat.App.Transfer.{execute_decode_batch_file}
use rteget_data_linux_compat.Bridge.{port_write_memory}
use rteget_data_linux_compat.Prelude.{add32, arith, false, refl, true, word_bytes, ℕ, ◌<◌, ◌≡◌, ◌⊎◌}
use rteget_data_linux_compat.State.{State, Status, if_ok, ok, pure, ◌>>◌}

-- The value that the filter gets: a new filter, where one was given; else the old one, unless it is zero
-- and the firmware can switch the filter off: then the firmware's copy.
pub record IsRestoredFilter (s : State) (v : ℕ) : Type 0 where
  pub given : s.parameters.set_filter ≡ true → v ≡ s.parameters.filter
  pub old : s.parameters.set_filter ≡ false → 0 < s.old_msg_filter → v ≡ s.old_msg_filter
  pub copied :
      s.parameters.set_filter ≡ false
      → s.old_msg_filter ≡ 0
      → filter_off_enabled s.rtedbg_header ≡ true
      → v ≡ s.rtedbg_header.filter_copy
  pub zero_kept :
      s.parameters.set_filter ≡ false
      → s.old_msg_filter ≡ 0
      → filter_off_enabled s.rtedbg_header ≡ false
      → v ≡ 0

restored_filter-IsRestoredFilter : (s : State) → IsRestoredFilter s (restored_filter s)
unfolding restored_filter
restored_filter-IsRestoredFilter s = record {
  given = λ g. rw (g, restored_filter) refl;
  old = λ g o. ground arith;
  copied = λ g o f. ground arith;
  zero_kept = λ g o f. ground arith;
}

-- The state behind a write of the four bytes of a filter to the address of the message filter.
abbrev pub filter_written : State → ℕ → State
filter_written s v = (port_write_memory (word_bytes v) (add32 s.parameters.start_address 4) 4 s).1

-- The state behind the write of the restored filter, with or without the decoder run behind it.
abbrev pub IsRestored : State → Type 0
IsRestored s =
    (s0 : State) × ((v : ℕ) × (IsRestoredFilter s0 v
        × ((s ≡ filter_written s0 v) ⊎ (s ≡ (execute_decode_batch_file (filter_written s0 v)).1))))

restored :
    (s0 s : State)
    → ((s ≡ (set_or_restore_message_filter s0).1)
        ⊎ (s ≡ (execute_decode_batch_file (set_or_restore_message_filter s0).1).1))
    → IsRestored s
unfolding set_or_restore_message_filter
restored s0 s h = (s0, (restored_filter s0, (restored_filter-IsRestoredFilter s0, h)))

decoded_if : Status → State → Status × State
decoded_if restored s1 = if_ok restored (execute_decode_batch_file >> pure ok) s1
