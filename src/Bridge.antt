-- ===== src/Bridge.antt =====
-- Code/bridge.cpp: each call goes to the interface that is in use.
pub mod Priority
pub mod Sound
pub mod Handles
pub mod Frame
use rteget_data_linux_compat.Bridge.Priority.{decrease_priorities, increase_priorities}
use rteget_data_linux_compat.Com.ErrorText.{
  com_display_errors_linux, com_display_errors_win32, com_get_error_text_linux,
  com_get_error_text_win32,
}
use rteget_data_linux_compat.Com.Linux.{com_read_memory_linux, com_write_memory_linux}
use rteget_data_linux_compat.Com.Open.{com_close_win32, com_open_win32}
use rteget_data_linux_compat.Com.Protocol.{com_read_memory_win32, com_write_memory_win32}
use rteget_data_linux_compat.Com.Serial.{com_close_linux, com_open_linux}
use rteget_data_linux_compat.Gdb.Console.{gdb_execute_command}
use rteget_data_linux_compat.Gdb.ErrorText.{gdb_display_errors, gdb_get_error_text}
use rteget_data_linux_compat.Gdb.Memory.{gdb_read_memory, gdb_write_memory}
use rteget_data_linux_compat.Gdb.Session.{
  gdb_connect, gdb_detach, gdb_handle_unexpected_messages, gdb_socket_cleanup,
}
use rteget_data_linux_compat.Gdb.Socket.{gdb_flush_socket}
use rteget_data_linux_compat.Prelude.{List, [], codes, if◌then◌else◌, none, some, ℕ, ◌==◌}
use rteget_data_linux_compat.State.{
  M, State, Status, bad_input_data, com_port, error, gdb_port, linux, no_error, ok, unset, win32,
  ◌>>=◌, ◌>>◌,
}

-- The implementation that is compiled.
unfoldable pub com_open : M Status
unfolding com_open_win32 com_open_linux
com_open s = elim s.platform [ win32 ↦ com_open_win32 s | linux ↦ com_open_linux s ]

unfoldable pub com_close : M (Unit {0})
unfolding com_close_win32 com_close_linux
com_close s = elim s.platform [ win32 ↦ com_close_win32 s | linux ↦ com_close_linux s ]

unfoldable pub com_display_errors : List ℕ → M (List ℕ)
unfolding com_display_errors_win32 com_display_errors_linux
com_display_errors message s = elim s.platform [
  | win32 ↦ com_display_errors_win32 message s
  | linux ↦ com_display_errors_linux message s
]

unfoldable pub com_get_error_text : List ℕ → State → List ℕ
unfolding com_get_error_text_win32 com_get_error_text_linux
com_get_error_text linux_error_buffer s = elim s.platform [
  | win32 ↦ com_get_error_text_win32 s.last_error
  | linux ↦ com_get_error_text_linux linux_error_buffer s
]

unfoldable pub com_read_memory : ℕ → ℕ → M (Status × List ℕ)
com_read_memory address size s = elim s.platform [
  | win32 ↦ com_read_memory_win32 address size s
  | linux ↦ com_read_memory_linux address size s
]

unfoldable pub com_write_memory : List ℕ → ℕ → ℕ → M Status
com_write_memory buffer address size s = elim s.platform [
  | win32 ↦ com_write_memory_win32 buffer address size s
  | linux ↦ com_write_memory_linux buffer address size s
]

unfoldable pub port_read_memory : ℕ → ℕ → M (Status × List ℕ)
unfolding com_read_memory
port_read_memory address size s =
    let s1 = record s { last_error = no_error } in
    if size == 0
    then ((error, []), record s { last_error = bad_input_data })
    else (elim s1.parameters.active_interface [
      | gdb_port ↦ gdb_read_memory address size s1
      | com_port ↦ com_read_memory address size s1
      | unset ↦ ((error, []), s1)
    ])

unfoldable pub port_write_memory : List ℕ → ℕ → ℕ → M Status
unfolding com_write_memory
port_write_memory buffer address size s =
    let s1 = record s { last_error = no_error } in
    if size == 0
    then (error, record s { last_error = bad_input_data })
    else (elim s1.parameters.active_interface [
      | gdb_port ↦ gdb_write_memory buffer address size s1
      | com_port ↦ com_write_memory buffer address size s1
      | unset ↦ (error, s1)
    ])

unfoldable pub port_flush : M (Unit {0})
port_flush s = elim s.parameters.active_interface [
  | gdb_port ↦ gdb_flush_socket s
  | com_port ↦ (tt, s)
  | unset ↦ (tt, s)
]

unfoldable pub port_handle_unexpected_messages : M (Unit {0})
port_handle_unexpected_messages s = elim s.parameters.active_interface [
  | gdb_port ↦ gdb_handle_unexpected_messages s
  | com_port ↦ (tt, s)
  | unset ↦ (tt, s)
]

unfoldable pub port_execute_command : List ℕ → M Status
port_execute_command command s = elim s.parameters.active_interface [
  | gdb_port ↦ gdb_execute_command command s
  | com_port ↦ (error, s)
  | unset ↦ (error, s)
]

open_interface : M Status
unfolding com_open
open_interface s = elim s.parameters.active_interface [
  | gdb_port ↦ gdb_connect s
  | com_port ↦ com_open s
  | unset ↦ (error, s)
]

-- The priorities are raised once the connection stands.
raise_if_ok : Status → M Status
unfolding increase_priorities
raise_if_ok ok s = (ok, (increase_priorities s).1)
raise_if_ok error s = (error, s)

unfoldable pub port_open : M Status
unfolding open_interface raise_if_ok
port_open = do opened ← open_interface; raise_if_ok opened

unfoldable pub close_interface : M (Unit {0})
unfolding com_close
close_interface s = elim s.parameters.active_interface [
  | gdb_port ↦ gdb_socket_cleanup (gdb_detach s).1
  | com_port ↦ com_close s
  | unset ↦ (tt, s)
]

unfoldable pub port_close : M (Unit {0})
unfolding decrease_priorities close_interface
port_close = do decrease_priorities; close_interface

-- The interface that is left is not detached.
reopen_interface : M Status
unfolding com_open com_close
reopen_interface s = elim s.parameters.active_interface [
  | gdb_port ↦ gdb_connect (gdb_socket_cleanup s).1
  | com_port ↦ com_open (com_close s).1
  | unset ↦ (error, s)
]

-- The status says whether OK is printed.
unfoldable pub port_reconnect : M Status
unfolding decrease_priorities reopen_interface raise_if_ok
port_reconnect = do decrease_priorities; opened ← reopen_interface; raise_if_ok opened

-- What the program does before it exits; the text is printed.
unfoldable pub port_close_files_and_exit : M (List ℕ)
unfolding decrease_priorities close_interface
port_close_files_and_exit = do
  decrease_priorities
  close_interface
  λ s. (
    elim s.parameters.log_file [
      | none ↦ []
      | some name ↦
          codes
            "\n\nAn error occurred during the transfer of data from the embedded system.\nThe log file contains further details.\n\n"
    ],
    s,
  )

-- The text that is printed.
unfoldable pub port_display_errors : List ℕ → M (List ℕ)
unfolding gdb_display_errors com_display_errors
port_display_errors message s = elim s.parameters.active_interface [
  | gdb_port ↦ gdb_display_errors message s
  | com_port ↦ com_display_errors message s
  | unset ↦ ([], s)
]

unfoldable pub port_get_error_text : List ℕ → State → List ℕ
unfolding gdb_get_error_text com_get_error_text
port_get_error_text linux_error_buffer s = elim s.parameters.active_interface [
  | gdb_port ↦ gdb_get_error_text s.last_error
  | com_port ↦ com_get_error_text linux_error_buffer s
  | unset ↦ []
]
