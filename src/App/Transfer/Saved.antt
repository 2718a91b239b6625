-- ===== src/App/Transfer/Saved.antt =====
-- A transfer that succeeds, from the first step to the last.
use rteget_data_linux_compat.App.Buffer.{save_rtedbg_structure}
use rteget_data_linux_compat.App.Header.{
  announced_header_size, cfg_reserved2, cfg_reserved_bits, check_header_info,
  message_filter_address,
}
use rteget_data_linux_compat.App.Load.{load_rtedbg_structure_header}
use rteget_data_linux_compat.App.Transfer.{pause_if_logging, save_and_finish, store_old_filter}
use rteget_data_linux_compat.App.Transfer.Restore.{IsRestored}
use rteget_data_linux_compat.Bridge.{port_handle_unexpected_messages, port_read_memory}
use rteget_data_linux_compat.Keeps.{Keeps}
use rteget_data_linux_compat.Prelude.{List, Option, ℕ, ◌≡◌}
use rteget_data_linux_compat.State.{Header, M, State, Status, if_ok, ok, ◌>>=◌, ◌>>◌}

-- The binary file is `file`.
HasFile : Option (List ℕ) → State → Type 0
HasFile file s = s.host.bin_file ≡ file

-- What a success tells: the structure was saved from the state `t`, its file is still there, and the
-- filter was written last.
Ends : State → Status × State → Type 0
Ends t r =
    r.0 ≡ ok
    → ((save_rtedbg_structure t).0 ≡ ok)
      × (r.1.host.bin_file ≡ (save_rtedbg_structure t).1.host.bin_file)
      × IsRestored r.1

-- The three steps behind the pause, each with what follows it.
abbrev save_and_end : M Status
save_and_end = do saved ← save_rtedbg_structure; save_and_finish saved

abbrev check_and_save : M Status
check_and_save = do checked ← check_header_info; if_ok checked save_and_end

abbrev check_and_save_loaded : M Status
check_and_save_loaded = do loaded ← load_rtedbg_structure_header; if_ok loaded check_and_save

-- The state in which the structure is saved, behind the filter that was read.
unfoldable pub before_save : List ℕ → State → State
unfolding store_old_filter pause_if_logging load_rtedbg_structure_header check_header_info
before_save bs s =
    (check_header_info
      (load_rtedbg_structure_header (pause_if_logging (store_old_filter bs s)).1).1).1

-- The header has the size that the program knows, and its reserved bits are clear.
abbrev pub IsKnown : Header → Type 0
IsKnown h = (announced_header_size h ≡ 24) × (cfg_reserved_bits h ≡ 0) × (cfg_reserved2 h ≡ 0)

-- The read of the filter with which a transfer begins.
pub read_old_filter : State → (Status × List ℕ) × State
unfolding port_handle_unexpected_messages port_read_memory
read_old_filter s =
    port_read_memory (message_filter_address s) 4 (port_handle_unexpected_messages s).1
