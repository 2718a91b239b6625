-- ===== src/Com/ErrorText.antt =====
-- The error texts of the COM port: `com_get_error_text` and `com_display_errors` of Code/com_lib.cpp, for
-- either system.
use rteget_data_linux_compat.Hex.{print_decimal, print_hex}
use rteget_data_linux_compat.Logger.{show_error}
use rteget_data_linux_compat.Prelude.{
  List, Option, [], c_str, codes, if◌then◌else◌, length, none, not, peek, some, take, true, ℕ, ◌&&◌,
  ◌++◌, ◌==◌, ◌∷◌,
}
use rteget_data_linux_compat.Scan.{is_space}
use rteget_data_linux_compat.State.{
  ErrCode, M, State, bad_input_data, bad_msg_checksum, bad_msg_format, bad_response,
  com_buffer_overrun, com_cannot_open_port, com_receive, connection_closed, gdb_reported_error,
  msg_not_sent_completely, no_error, rcv_timeout, run_length_encoding_not_implemented, send_timeout,
  socket,
}

unfoldable pub com_get_error_text_win32 : ErrCode → List ℕ
com_get_error_text_win32 com_cannot_open_port = codes "COM port closed           "
com_get_error_text_win32 com_buffer_overrun = codes "buffer overrun            "
com_get_error_text_win32 rcv_timeout = codes "receive timeout           "
com_get_error_text_win32 com_receive = codes "receive error             "
com_get_error_text_win32 send_timeout = codes "send timeout              "
com_get_error_text_win32 no_error = codes "                          "
com_get_error_text_win32 bad_input_data = codes "                          "
com_get_error_text_win32 socket = codes "                          "
com_get_error_text_win32 bad_msg_format = codes "                          "
com_get_error_text_win32 bad_msg_checksum = codes "                          "
com_get_error_text_win32 run_length_encoding_not_implemented = codes "                          "
com_get_error_text_win32 connection_closed = codes "                          "
com_get_error_text_win32 msg_not_sent_completely = codes "                          "
com_get_error_text_win32 bad_response = codes "                          "
com_get_error_text_win32 gdb_reported_error = codes "                          "

com_error_reason : List ℕ → ErrCode → List ℕ
com_error_reason name com_cannot_open_port = codes "cannot open port " ++ name
com_error_reason name com_buffer_overrun = codes "buffer overrun"
com_error_reason name rcv_timeout = codes "receive timeoout"
com_error_reason name com_receive = codes "receive error"
com_error_reason name send_timeout = codes "send timeout"
com_error_reason name bad_input_data = codes "bad function parameter"
com_error_reason name no_error = []
com_error_reason name socket = []
com_error_reason name bad_msg_format = []
com_error_reason name bad_msg_checksum = []
com_error_reason name run_length_encoding_not_implemented = []
com_error_reason name connection_closed = []
com_error_reason name msg_not_sent_completely = []
com_error_reason name bad_response = []
com_error_reason name gdb_reported_error = []

unfoldable pub com_display_errors_win32 : List ℕ → M (List ℕ)
unfolding com_error_reason show_error
com_display_errors_win32 message s =
    show_error message (com_error_reason s.parameters.com_port.name s.last_error) s

-- On Linux the error is neither tested nor forgotten.
unfoldable pub com_display_errors_linux : List ℕ → M (List ℕ)
com_display_errors_linux message s =
    (if s.com_link.port_is_open then message else message ++ codes " (Serial port not open)", s)

-- `linux_error_buffer` is the text of the last failure.
unfoldable pub com_get_error_text_linux : List ℕ → State → List ℕ
com_get_error_text_linux linux_error_buffer s =
    if not s.com_link.port_is_open
    then codes "Serial port not open"
    else if peek linux_error_buffer == 0
    then codes "No error"
    else c_str linux_error_buffer

-- White space at the end is cut off.
unfoldable pub trim_end : List ℕ → List ℕ
unfolding is_space
trim_end [] = []
trim_end (c ∷ p) = let rest = trim_end p in if is_space c && length rest == 0 then [] else c ∷ rest

-- `system_text` is the text of FormatMessage, `none` if there is none. The buffer holds 511 characters.
unfoldable pub get_error_message_text : Option (List ℕ) → ℕ → List ℕ
unfolding trim_end print_decimal print_hex
get_error_message_text none error_code =
    codes "Unknown error code: "
    ++ (print_decimal error_code ++ (codes " (0x" ++ (print_hex true 8 error_code ++ codes ")")))
get_error_message_text (some system_text) error_code = take 511 (trim_end system_text)

-- What is logged behind a failed call of the system: nothing without an error.
unfoldable pub log_api_error : List ℕ → Option (List ℕ) → ℕ → List ℕ
unfolding get_error_message_text
log_api_error text system_text error_code =
    if error_code == 0
    then []
    else codes "\n" ++ (text ++ (codes ": " ++ get_error_message_text system_text error_code))
