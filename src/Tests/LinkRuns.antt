-- ===== src/Tests/LinkRuns.antt =====
-- The theorems on the links at concrete inputs.
use rteget_data_linux_compat.Bridge.{com_open}
use rteget_data_linux_compat.Bridge.Handles.{com_close_win32-stale, com_open-Balances}
use rteget_data_linux_compat.Bridge.Priority.{decrease_priorities, increase_priorities}
use rteget_data_linux_compat.Bridge.Priority.Restore.{decrease_priorities-increase_priorities}
use rteget_data_linux_compat.Com.Open.{
  close_handle, com_close_win32, com_open_win32, configure_port, create_file, max_port_name_len,
  named_port, opened_port, prepare_com_port_name, upper_name, upper_text,
}
use rteget_data_linux_compat.Com.Open.Handles.{Balances, held}
use rteget_data_linux_compat.Com.Serial.{device_path, open_device, settings_call}
use rteget_data_linux_compat.Com.Serial.Names.{device_path-numbered}
use rteget_data_linux_compat.Gdb.Console.{gdb_execute_command}
use rteget_data_linux_compat.Gdb.Memory.{gdb_read_memory, gdb_write_memory}
use rteget_data_linux_compat.Gdb.Memory.Answers.{server_answers}
use rteget_data_linux_compat.Gdb.Memory.Block.{memory_block}
use rteget_data_linux_compat.Gdb.Memory.Read.{Reads}
use rteget_data_linux_compat.Gdb.Memory.Server.{gdb_read_memory-memory_block, server_requests}
use rteget_data_linux_compat.Gdb.Memory.Stored.{gdb_read_memory-gdb_write_memory, write_and_read}
use rteget_data_linux_compat.Gdb.Message.Limits.{InBuffer}
use rteget_data_linux_compat.Gdb.Safety.{Steps-InBuffer, executes, no_step, one_more, writes}
use rteget_data_linux_compat.Gdb.Sizes.{parse_capability_data}
use rteget_data_linux_compat.Gdb.Sizes.Announced.{parse_capability_data-announced}
use rteget_data_linux_compat.Hex.{hex_char, hex_fixed, hex_value, print_decimal}
use rteget_data_linux_compat.Prelude.{
  List, [], arith, behind, codes, false, min, none, refl, some, starts_with, suc, toupper, true, ℕ,
  ◌%◌, ◌++◌, ◌==◌, ◌∷◌, ◌≡◌,
}
use rteget_data_linux_compat.Scan.{digit_value}
use rteget_data_linux_compat.State.{
  Parameters, State, com_port, error, normal, odd_parity, ok, two_stop_bits, win32,
}
use rteget_data_linux_compat.Tests.{
  comes, fresh, fresh_gdb, no_com_port, no_parameters, open_com, reading,
}

abbrev low_byte : ℕ → ℕ
low_byte a = a % 256

-- A server that holds the low byte of each address, and a client that reads four bytes a time.
abbrev counting_server : State
counting_server = reading 4 (server_answers low_byte (server_requests 250 4 10 0 10) [])

gdb_read_memory-memory_block_example :
    Reads
      (gdb_read_memory 250 10 counting_server)
      (memory_block low_byte 250 0 10)
      (server_requests 250 4 10 0 10)
      []
      counting_server
gdb_read_memory-memory_block_example =
    gdb_read_memory-memory_block low_byte 250 4 10 [] counting_server (λ a. omega arith)
      (omega arith) (omega arith) (omega arith)
      (record { accepts = refl; quiet = refl; comes = refl; packet = refl })

-- A command whose answer is console output, and a write of three bytes behind it.
abbrev console_server : State
console_server = reading 100 (comes (codes "$O4869#35") ∷ [])

abbrev after_command : State
after_command = (gdb_execute_command (codes "qRcmd") console_server).1

abbrev after_write : State
after_write = (gdb_write_memory (1 ∷ 2 ∷ 3 ∷ []) 4096 3 after_command).1

Steps-InBuffer_example : InBuffer after_write
Steps-InBuffer_example =
    Steps-InBuffer console_server after_write
      (one_more (one_more no_step (executes (codes "qRcmd") refl))
        (writes (1 ∷ 2 ∷ 3 ∷ []) 4096 3 (omega arith) refl))
      (omega arith)

semicolon_no_digit : digit_value 16 b';' ≡ none
unfolding digit_value hex_value
semicolon_no_digit = refl

semicolon_no_x : (toupper b';' == b'X') ≡ false
unfolding toupper
semicolon_no_x = refl

abbrev capabilities : List ℕ
capabilities = codes "$PacketSize=" ++ (hex_fixed false 4 0x3FFF ++ codes ";QStartNoAckMode+#00")

no_ack_mode : behind (codes "QStartNoAckMode+") capabilities ≡ some (codes "#00")
unfolding behind hex_fixed hex_char
no_ack_mode = refl

parse_capability_data-announced_example :
    ((parse_capability_data capabilities fresh).0 ≡ ok)
    × ((parse_capability_data capabilities fresh).1.gdb.max_gdb_send_message_size
        ≡ min 0x3FFF 65535)
parse_capability_data-announced_example =
    parse_capability_data-announced false 3 0x3FFF (codes ";QStartNoAckMode+#00") (codes "#00")
      fresh (omega arith) (omega arith)
      (record { no_digit = semicolon_no_digit; no_x = semicolon_no_x }) no_ack_mode

-- A port with odd parity and two stop bits, 115200 baud.
abbrev serial_parameters : Parameters
serial_parameters = record no_parameters {
  active_interface = com_port;
  com_port = record no_com_port {
    name = codes "COM3";
    baudrate = 115200;
    recv_start_timeout = 250;
    stop_bits = two_stop_bits;
    parity = odd_parity;
  };
}

abbrev serial_start : State
serial_start = record fresh { parameters = serial_parameters }

device_path-numbered_example :
    device_path (codes "COM" ++ print_decimal 12) ≡ some (codes "/dev/ttyS" ++ print_decimal 11)
device_path-numbered_example = device_path-numbered 11 (omega arith)

-- Windows: the port is granted, and its settings are refused.
abbrev refused_settings : State
refused_settings = record serial_start {
  platform = win32;
  com_link = record open_com { port_is_open = false; com_settings = true ∷ false ∷ [] };
}

com_open-Balances_example :
    Balances (held (com_open refused_settings).0) refused_settings (com_open refused_settings).1
com_open-Balances_example = com_open-Balances refused_settings

failed_open : (com_open_win32 refused_settings).0 ≡ error
unfolding com_open_win32 upper_name upper_text toupper prepare_com_port_name named_port create_file
    open_device opened_port configure_port settings_call close_handle starts_with
failed_open = refl

good_name :
    prepare_com_port_name (upper_text refused_settings.parameters.com_port.name) max_port_name_len
    ≡ some (codes "\\\\.\\COM3")
unfolding upper_text toupper prepare_com_port_name starts_with
good_name = refl

com_close_win32-stale_example :
    (com_close_win32 (com_open_win32 refused_settings).1).1.com_link.handles_closed
    ≡ suc (com_close_win32 (com_open_win32 refused_settings).1).1.com_link.handles_opened
com_close_win32-stale_example =
    com_close_win32-stale refused_settings (codes "\\\\.\\COM3") refl good_name refl failed_open

-- Windows: a driver that runs as process 7, and the program as process 1.
abbrev elevated : State
elevated = record fresh {
  platform = win32;
  parameters = record no_parameters { elevated_priority = true; driver_names = codes "jlink" ∷ [] };
  processes = record {
    running = (codes "shell", 5) ∷ (codes "jlink", 7) ∷ [];
    refuses = λ id. id == 1;
    priority = λ id. normal;
    own_id = 1;
  };
}

decrease_priorities-increase_priorities_example :
    (decrease_priorities (increase_priorities elevated).1).1.processes.priority 7 ≡ normal
decrease_priorities-increase_priorities_example =
    decrease_priorities-increase_priorities elevated 7 refl

-- Five bytes are written in packets of two, and read in packets of three.
abbrev five : List ℕ
five = 7 ∷ 255 ∷ 0 ∷ 16 ∷ 9 ∷ []

abbrev storing : State
storing = record fresh {
  gdb = record fresh_gdb {
    max_memo_write_packet_size = 2;
    max_memo_read_packet_size = 3;
    recv_events = server_answers low_byte (write_and_read 2 3 300 five) [];
  };
}

gdb_read_memory-gdb_write_memory_example :
    ((gdb_write_memory five 300 5 storing).0 ≡ ok)
    × ((gdb_read_memory 300 5 (gdb_write_memory five 300 5 storing).1).0 ≡ (ok, five))
    × ((gdb_read_memory 300 5 (gdb_write_memory five 300 5 storing).1).1.gdb.sent
        ≡ [] ++ write_and_read 2 3 300 five)
gdb_read_memory-gdb_write_memory_example =
    gdb_read_memory-gdb_write_memory low_byte 300 five storing (λ a. omega arith)
      (omega arith, (omega arith, (omega arith, (omega arith, (omega arith, tt))))) (omega arith)
      (omega arith)
      (record {
        accepts = refl;
        quiet = refl;
        write_limit = (omega arith, omega arith);
        read_limit = (omega arith, omega arith);
        comes = refl;
      })

-- No socket, and a server that does not accept the connection.
abbrev unreachable : State
unreachable = record fresh { gdb = record fresh_gdb { connect_answers = false ∷ [] } }
