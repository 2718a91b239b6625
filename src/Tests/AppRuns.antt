-- ===== src/Tests/AppRuns.antt =====
-- Runs of the program's transfer, its command line and the COM port.
use rteget_data_linux_compat.App.Buffer.{
  open_bin_file, open_with_retries, retry_open, save_block, store_block,
}
use rteget_data_linux_compat.App.Buffer.File.{file_image, save_block-image}
use rteget_data_linux_compat.App.Load.{
  allocated_or_error, max_buffer_size, structure_size, take_over_size,
}
use rteget_data_linux_compat.App.Load.Sizes.{
  HoldsStructure, refused_size_accepted_later, take_over_size-HoldsStructure,
}
use rteget_data_linux_compat.App.Modes.{buffer_usage}
use rteget_data_linux_compat.Bridge.{com_read_memory, port_read_memory}
use rteget_data_linux_compat.Bridge.Sound.{port_read_memory-ok}
use rteget_data_linux_compat.CmdLine.{
  process_command_line_parameters, process_options, set_defaults, set_start_address,
  set_structure_size,
}
use rteget_data_linux_compat.CmdLine.Check.{check_parameters, is_com_port}
use rteget_data_linux_compat.CmdLine.Options.{
  process_flag, process_one_cmd_line_parameter, remove_quotation_marks, with_text,
}
use rteget_data_linux_compat.CmdLine.Options.Limits.{InLimits}
use rteget_data_linux_compat.CmdLine.Port.{
  is_serial_name, process_port_type, set_gdb_port, upper_prefix,
}
use rteget_data_linux_compat.CmdLine.Valid.{IsValid, process_command_line_parameters-IsValid}
use rteget_data_linux_compat.Com.Port.{
  at_most, clear_comm_error, com_log_error, com_purge_and_log, com_receive_bytes, com_send,
  discard_queue, flush_file_buffers, log_errors, more_bytes, read_file, receive_loop, received_all,
  write_file, written_all,
}
use rteget_data_linux_compat.Com.Protocol.{
  after_block, check_echo, com_read_loop, com_read_memory_block, com_read_memory_win32,
  com_send_command, com_write_memory_win32, command_bytes,
}
use rteget_data_linux_compat.Com.Protocol.Sound.{com_read_memory_win32-ok}
use rteget_data_linux_compat.Com.Protocol.Write.{
  acks, com_write_memory_win32-acknowledged, listening, write_commands,
}
use rteget_data_linux_compat.Hex.{hex_value}
use rteget_data_linux_compat.Prelude.{
  List, [], arith, codes, inl, length, none, refl, same_text, some, starts_with, toupper, true, ℕ,
  ◌*◌, ◌++◌, ◌<◌, ◌∷◌, ◌≡◌, ◌≢◌,
}
use rteget_data_linux_compat.Scan.{
  clamp_long, digit_value, is_space, scan_digits, scan_long, scan_prefixed, scan_unsigned,
  scan_word, skip_space,
}
use rteget_data_linux_compat.State.{
  Block, Header, Parameters, State, chunk, com_port, error, ok, win32,
}
use rteget_data_linux_compat.Tests.{fresh, fresh_host, no_header, no_parameters, open_com}

abbrev header_400 : Header
header_400 = record no_header { rte_cfg = 0x06000005; buffer_size = 100 }

abbrev old_block : Block
old_block = record { allocated = 80; contents = [] }

-- A buffer of 80 bytes, and a header that has come.
abbrev loaded : Header → State
loaded h = record fresh {
  rtedbg_header = h;
  parameters = record no_parameters { size = 80 };
  p_rtedbg_structure = some old_block;
}

abbrev released : State
released = record (loaded header_400) {
  parameters = record no_parameters { size = 424 };
  p_rtedbg_structure = none;
}

take_over_size_runs : take_over_size (loaded header_400) ≡ (ok, released)
unfolding take_over_size structure_size
take_over_size_runs = refl

take_over_size-HoldsStructure_example : HoldsStructure (allocated_or_error released).1
take_over_size-HoldsStructure_example =
    take_over_size-HoldsStructure (loaded header_400) released (omega arith) take_over_size_runs

abbrev huge : Header
huge = record header_400 { buffer_size = 1000000 }

huge_size : (structure_size huge ≢ 80) × (max_buffer_size < structure_size huge)
unfolding structure_size
huge_size = (λ e. absurd (omega (arith, e)), omega arith)

refused_size_accepted_later_example :
    ((take_over_size (loaded huge)).0 ≡ error)
    × ((take_over_size (take_over_size (loaded huge)).1).0 ≡ ok)
    × ((allocated_or_error (take_over_size (take_over_size (loaded huge)).1).1).0 ≡ ok)
    × ((allocated_or_error (take_over_size (take_over_size (loaded huge)).1).1).1.p_rtedbg_structure
        ≡ some old_block)
    × ((allocated_or_error (take_over_size (take_over_size (loaded huge)).1).1).1.parameters.size
        ≡ structure_size huge)
refused_size_accepted_later_example =
    refused_size_accepted_later (loaded huge) old_block refl huge_size.0 huge_size.1

-- A file that is open elsewhere at first.
abbrev twelve : State
twelve = record (loaded header_400) {
  parameters = record no_parameters { size = 12 };
  old_msg_filter = 0x01020304;
  host = record fresh_host { bin_opens = 13 ∷ 13 ∷ 0 ∷ [] };
}

abbrev twelve_bytes : List ℕ
twelve_bytes = 10 ∷ 11 ∷ 12 ∷ 13 ∷ 0 ∷ 0 ∷ 0 ∷ 0 ∷ 18 ∷ 19 ∷ 20 ∷ 21 ∷ []

file_opens : (open_with_retries (store_block old_block twelve_bytes twelve)).0 ≡ 0
unfolding open_with_retries open_bin_file retry_open store_block
file_opens = refl

save_block-image_example :
    ((save_block old_block (ok, twelve_bytes) twelve).0 ≡ ok)
    × ((save_block old_block (ok, twelve_bytes) twelve).1.host.bin_file
        ≡ some (file_image twelve_bytes 0x01020304))
save_block-image_example =
    save_block-image old_block twelve_bytes twelve refl (omega arith) file_opens refl

half_full : buffer_usage (record header_400 { last_index = 48 }) ≡ some 50
unfolding buffer_usage
half_full = refl

-- Two bytes in two pieces.
abbrev com_state : State
com_state = record fresh {
  parameters = record no_parameters { max_message_size = 65520 };
  com_link = record open_com { com_reads = chunk (7 ∷ []) ∷ chunk (9 ∷ []) ∷ [] };
}

com_reads_two : (com_read_memory_win32 0 2 com_state).0 ≡ (ok, 7 ∷ 9 ∷ [])
unfolding command_bytes com_read_memory_win32 com_read_loop com_read_memory_block after_block
    com_send_command com_purge_and_log clear_comm_error discard_queue com_send write_file
    written_all flush_file_buffers check_echo com_receive_bytes receive_loop read_file at_most
    more_bytes received_all log_errors com_log_error
com_reads_two = refl

com_read_memory_win32-ok_example : length {A = ℕ} (7 ∷ 9 ∷ []) ≡ 2
com_read_memory_win32-ok_example = com_read_memory_win32-ok 0 2 com_state (7 ∷ 9 ∷ []) com_reads_two

abbrev arguments : List (List ℕ)
arguments = codes "3333" ∷ codes "20000000" ∷ codes "100" ∷ codes "-bin=x.bin" ∷ codes "-clear" ∷ []

abbrev accepted_parameters : Parameters
accepted_parameters = record no_parameters {
  start_address = 0x20000000;
  size = 0x100;
  bin_file_name = codes "x.bin";
  ip_address = codes "127.0.0.1";
  gdb_port = 3333;
  clear_buffer = true;
}

arguments_accepted :
    process_command_line_parameters arguments no_parameters ≡ some accepted_parameters
unfolding process_command_line_parameters set_defaults process_port_type is_serial_name upper_prefix
    starts_with toupper set_gdb_port set_start_address set_structure_size process_options
    process_one_cmd_line_parameter with_text remove_quotation_marks process_flag same_text
    check_parameters is_com_port scan_word scan_long skip_space is_space clamp_long scan_prefixed
    scan_unsigned scan_digits digit_value hex_value
arguments_accepted = refl

no_parameters-InLimits : InLimits no_parameters
no_parameters-InLimits = record { drivers = omega arith; message = inl refl }

process_command_line_parameters-IsValid_example : IsValid accepted_parameters
process_command_line_parameters-IsValid_example =
    process_command_line_parameters-IsValid arguments no_parameters accepted_parameters
      no_parameters-InLimits arguments_accepted

-- The same over the port in use.
abbrev com_in_use : State
com_in_use = record com_state {
  platform = win32;
  parameters = record no_parameters { max_message_size = 65520; active_interface = com_port };
}

port_reads_two : (port_read_memory 0 2 com_in_use).0 ≡ (ok, 7 ∷ 9 ∷ [])
unfolding port_read_memory com_read_memory command_bytes com_read_memory_win32 com_read_loop
    com_read_memory_block after_block com_send_command com_purge_and_log clear_comm_error
    discard_queue com_send write_file written_all flush_file_buffers check_echo com_receive_bytes
    receive_loop read_file at_most more_bytes received_all log_errors com_log_error
port_reads_two = refl

port_read_memory-ok_example : (length {A = ℕ} (7 ∷ 9 ∷ []) ≡ 2) × (0 < 2)
port_read_memory-ok_example = port_read_memory-ok 0 2 com_in_use (7 ∷ 9 ∷ []) port_reads_two

com_write_memory_win32-acknowledged_example :
    com_write_memory_win32
      (1 ∷ 2 ∷ 3 ∷ 4 ∷ 5 ∷ 6 ∷ 7 ∷ 8 ∷ [])
      8
      (2 * 4)
      (listening fresh (acks 2 []) [])
    ≡ (ok, listening fresh [] ([] ++ write_commands (1 ∷ 2 ∷ 3 ∷ 4 ∷ 5 ∷ 6 ∷ 7 ∷ 8 ∷ []) 8))
com_write_memory_win32-acknowledged_example =
    com_write_memory_win32-acknowledged 2 (1 ∷ 2 ∷ 3 ∷ 4 ∷ 5 ∷ 6 ∷ 7 ∷ 8 ∷ []) 8 [] [] fresh
      (omega arith) refl
      (
        omega arith,
        (
          omega arith,
          (
            omega arith,
            (omega arith, (omega arith, (omega arith, (omega arith, (omega arith, tt))))),
          ),
        ),
      )
