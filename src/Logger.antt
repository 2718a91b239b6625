-- ===== src/Logger.antt =====
-- Code/logger.cpp: where the log goes, and what is written to it. Times and the flushing of the file are
-- not modelled; the formats of `fprintf` with a number are an argument.
pub mod Dump
use rteget_data_linux_compat.Hex.{hex_fixed, print_decimal}
use rteget_data_linux_compat.Prelude.{
  Bool, List, Option, [], c_str, codes, false, if◌then◌else◌, none, not, some, take, true, ℕ, ◌%◌,
  ◌++◌, ◌||◌, ◌∷◌,
}
use rteget_data_linux_compat.State.{
  Log, M, Platform, State, is_no_error, linux, no_error, pop_or, pop_rest, win32,
}

-- What a call writes: nothing, or a text to the file or to the console.
pub data Logged : Type 0 where
  dropped : Logged
  to_log_file : List ℕ → Logged
  to_console : List ℕ → Logged

unfoldable pub enable_logging : Bool → M (Unit {0})
enable_logging on_off s = (tt, record s { log = record s.log { enabled = on_off } })

unfoldable pub logging_to_file : State → Bool
logging_to_file s = s.log.to_file

-- A log file that cannot be opened leaves the console.
open_log : Option (List ℕ) → Log → Log
open_log none l = record l { to_file = false }
open_log (some name) l = record l {
  to_file = pop_or true l.log_opens;
  log_opens = pop_rest l.log_opens;
}

unfoldable pub create_log_file : Option (List ℕ) → M (Unit {0})
unfolding open_log
create_log_file file_name s = (tt, record s { log = open_log file_name s.log })

-- The L key; the text says what is printed.
unfoldable pub disable_enable_logging_to_file : M (List ℕ)
unfolding create_log_file logging_to_file
disable_enable_logging_to_file s = elim s.parameters.log_file [
  | none ↦ (codes "\nLog file not defined.\n", s)
  | some name ↦
      if logging_to_file s
      then (
        codes "\nLogging to file disabled.\n",
        record s { log = record s.log { to_file = false } },
      )
      else (codes "\nLogging to file enabled.\n", (create_log_file (some name) s).1)
]

-- fprintf(log_output, …)
unfoldable pub write_log : State → List ℕ → Logged
unfolding logging_to_file
write_log s text = if logging_to_file s then to_log_file text else to_console text

unfoldable pub is_logged : State → Bool
is_logged s = s.log.enabled || s.parameters.debug_mode

unfoldable pub log_data : (List ℕ → ℕ → List ℕ) → List ℕ → ℕ → State → Logged
unfolding is_logged write_log
log_data fprintf text value s = if is_logged s then write_log s (fprintf text value) else dropped

-- Without a string the text is printed as it is.
unfoldable pub log_string : (List ℕ → List ℕ → List ℕ) → List ℕ → Option (List ℕ) → State → Logged
unfolding is_logged write_log
log_string fprintf text string s =
    if is_logged s
    then write_log s (elim string [ none ↦ text | some str ↦ fprintf text str ])
    else dropped

-- "%02X " for every byte.
unfoldable pub hex_dump : List ℕ → List ℕ
unfolding hex_fixed
hex_dump [] = []
hex_dump (b ∷ bs) = hex_fixed true 2 (b % 256) ++ (32 ∷ hex_dump bs)

-- Behind the time: " ms [Send (hex): 52 4F ]".
unfoldable pub log_communication_hex : List ℕ → List ℕ → State → Logged
unfolding write_log hex_dump
log_communication_hex direction msg s =
    if s.parameters.debug_mode
    then write_log s
        (codes " ms [" ++ (direction ++ (codes " (hex): " ++ (hex_dump msg ++ codes "]\n"))))
    else dropped

-- "[%s: %.*s]": at most `length` bytes of the text.
unfoldable pub log_communication_text : List ℕ → List ℕ → ℕ → State → Logged
unfolding write_log c_str
log_communication_text direction msg n s =
    if s.parameters.debug_mode
    then write_log s
        (codes " ms [" ++ (direction ++ (codes ": " ++ (c_str (take n msg) ++ codes "]\n"))))
    else dropped

-- Without a log file, or without an error, only a newline is printed; else the error is forgotten.
unfoldable pub show_error : List ℕ → List ℕ → M (List ℕ)
unfolding logging_to_file is_no_error
show_error message reason s =
    if not (logging_to_file s) || is_no_error s.last_error then (codes "\n", s) else (
      message ++ (reason ++ codes "\nCheck the log file for details.\n"),
      record s { last_error = no_error },
    )

-- The errors of a socket that have a text of their own, with their numbers in the system's terms.
pub data NetError : Type 0 where
  net_timeout connection_reset connection_aborted connection_refused : NetError
  address_in_use net_unreachable is_connected host_down other_net_error : NetError

net_reason_win32 : NetError → List ℕ
net_reason_win32 net_timeout = codes " - (time-out). "
net_reason_win32 connection_reset = codes " - (an existing connection was forcibly closed). "
net_reason_win32 connection_aborted = codes " - (an established connection was aborted). "
net_reason_win32 connection_refused =
    codes " - (connection refused - i.e. no service at this port). "
net_reason_win32 address_in_use =
    codes
      " - (only one usage of each socket address (protocol/network address/port) is normally permitted)."
net_reason_win32 net_unreachable =
    codes " - (a socket operation was attempted to an unreachable network). "
net_reason_win32 is_connected =
    codes " - (a connect request was made on an already connected socket). "
net_reason_win32 host_down =
    codes " - (a socket operation failed because the destination host was down). "
net_reason_win32 other_net_error = []

net_reason_linux : NetError → List ℕ
net_reason_linux net_timeout = codes " - (time-out). "
net_reason_linux connection_reset = codes " - (connection reset by peer). "
net_reason_linux connection_aborted = codes " - (software caused connection abort). "
net_reason_linux connection_refused = codes " - (connection refused). "
net_reason_linux address_in_use = codes " - (address already in use). "
net_reason_linux net_unreachable = codes " - (network is unreachable). "
net_reason_linux is_connected = codes " - (transport endpoint is already connected). "
net_reason_linux host_down = codes " - (host is down). "
net_reason_linux other_net_error = []

-- `number` is the error's number, which is printed in decimal.
wsock_text : Platform → List ℕ → NetError → ℕ → List ℕ
unfolding net_reason_win32 net_reason_linux print_decimal
wsock_text win32 text e number =
    text
    ++ (codes " - Winsock error " ++ (print_decimal number ++ (net_reason_win32 e ++ codes "\n")))
wsock_text linux text e number =
    text
    ++ (codes " - Socket error " ++ (print_decimal number ++ (net_reason_linux e ++ codes "\n")))

unfoldable pub log_wsock_error : List ℕ → NetError → ℕ → State → Logged
unfolding is_logged write_log wsock_text
log_wsock_error text e number s =
    if is_logged s then write_log s (wsock_text s.platform text e number) else dropped
