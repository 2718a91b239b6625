-- ===== src/Gdb/ErrorText.antt =====
-- The error texts of the GDB client: `gdb_get_error_text` and `gdb_display_errors` of Code/gdb_lib.cpp.
use rteget_data_linux_compat.Logger.{show_error}
use rteget_data_linux_compat.Prelude.{List, [], codes, ℕ}
use rteget_data_linux_compat.State.{
  ErrCode, M, bad_input_data, bad_msg_checksum, bad_msg_format, bad_response, com_buffer_overrun,
  com_cannot_open_port, com_receive, connection_closed, gdb_reported_error, msg_not_sent_completely,
  no_error, rcv_timeout, run_length_encoding_not_implemented, send_timeout, socket,
}

unfoldable pub gdb_get_error_text : ErrCode → List ℕ
gdb_get_error_text connection_closed = codes "GDB server disconnected   "
gdb_get_error_text rcv_timeout = codes "GDB server error          "
gdb_get_error_text send_timeout = codes "GDB server error          "
gdb_get_error_text socket = codes "GDB server error          "
gdb_get_error_text bad_msg_format = codes "GDB server error          "
gdb_get_error_text bad_msg_checksum = codes "GDB server error          "
gdb_get_error_text run_length_encoding_not_implemented = codes "GDB server error          "
gdb_get_error_text bad_input_data = codes "GDB server error          "
gdb_get_error_text msg_not_sent_completely = codes "GDB server error          "
gdb_get_error_text bad_response = codes "GDB server error          "
gdb_get_error_text no_error = codes "                          "
gdb_get_error_text gdb_reported_error = codes "                          "
gdb_get_error_text com_cannot_open_port = codes "                          "
gdb_get_error_text com_receive = codes "                          "
gdb_get_error_text com_buffer_overrun = codes "                          "

-- What stands behind the message.
gdb_error_reason : ErrCode → List ℕ
gdb_error_reason connection_closed = codes "connection to GDB server closed."
gdb_error_reason rcv_timeout = codes "can not communicate with the GDB server."
gdb_error_reason send_timeout = codes "can not communicate with the GDB server."
gdb_error_reason socket = codes "can not communicate with the GDB server."
gdb_error_reason bad_msg_format = codes "problem communicating with the GDB server."
gdb_error_reason bad_msg_checksum = codes "problem communicating with the GDB server."
gdb_error_reason run_length_encoding_not_implemented =
    codes "problem communicating with the GDB server."
gdb_error_reason bad_input_data = codes "problem communicating with the GDB server."
gdb_error_reason msg_not_sent_completely = codes "problem communicating with the GDB server."
gdb_error_reason bad_response = codes "problem communicating with the GDB server."
gdb_error_reason gdb_reported_error = codes "GDB server reported error."
gdb_error_reason no_error = []
gdb_error_reason com_cannot_open_port = []
gdb_error_reason com_receive = []
gdb_error_reason com_buffer_overrun = []

-- The text that is printed; `message` has no conversions.
unfoldable pub gdb_display_errors : List ℕ → M (List ℕ)
unfolding gdb_error_reason show_error
gdb_display_errors message s = show_error message (gdb_error_reason s.last_error) s
