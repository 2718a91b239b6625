-- ===== src/State.antt =====
-- The program's global variables and its surroundings, and the functions over them. The types of
-- Code/cmd_line.h, Code/rtedbg.h and Code/RTEgetData.h. A C function is an action `M A`: from the
-- globals to its result and the new globals. Logging and console output are not modelled.
--
-- What the operating system and the other side of a connection answer is a script in the state: each
-- call takes the next answer, so a theorem for all scripts is one for all behaviours.
use rteget_data_linux_compat.Prelude.{Bool, List, Option, [], false, true, ℕ, ◌∷◌}

-- RTE_OK and RTE_ERROR.
pub data Status : Type 0 where
  ok : Status
  error : Status

pub data ErrCode : Type 0 where
  no_error rcv_timeout send_timeout bad_input_data : ErrCode
  socket bad_msg_format bad_msg_checksum run_length_encoding_not_implemented : ErrCode
  connection_closed msg_not_sent_completely bad_response gdb_reported_error : ErrCode
  com_cannot_open_port com_receive com_buffer_overrun : ErrCode

-- last_error == 0
unfoldable pub is_no_error : ErrCode → Bool
is_no_error no_error = true
is_no_error other = false

-- `unset` is any value of `rte_port_t` that the enumeration does not name.
pub data RtePort : Type 0 where
  gdb_port com_port unset : RtePort

pub data Parity : Type 0 where
  no_parity odd_parity even_parity : Parity

pub data StopBits : Type 0 where
  one_stop_bit two_stop_bits : StopBits

pub record ComPortPars : Type 0 where
  pub name : List ℕ
  pub recv_start_timeout : ℕ
  pub baudrate : ℕ
  pub stop_bits : StopBits
  pub parity : Parity
  pub single_wire_communication : Bool

-- `number_of_drivers` is the length of `driver_names`.
pub record Parameters : Type 0 where
  pub start_address : ℕ
  pub size : ℕ
  pub filter : ℕ
  pub set_filter : Bool
  pub delay : ℕ
  pub log_file : Option (List ℕ)
  pub decode_file : Option (List ℕ)
  pub bin_file_name : List ℕ
  pub ip_address : List ℕ
  pub start_cmd_file : Option (List ℕ)
  pub filter_names : Option (List ℕ)
  pub gdb_port : ℕ
  pub driver_names : List (List ℕ)
  pub elevated_priority : Bool
  pub clear_buffer : Bool
  pub debug_mode : Bool
  pub persistent_connection : Bool
  pub detach : Bool
  pub active_interface : RtePort
  pub max_message_size : ℕ
  pub com_port : ComPortPars

-- rtedbg_header_t: six words.
pub record Header : Type 0 where
  pub last_index : ℕ
  pub filter : ℕ
  pub rte_cfg : ℕ
  pub timestamp_frequency : ℕ
  pub filter_copy : ℕ
  pub buffer_size : ℕ

-- ETIMEDOUT, EAGAIN and any other `errno` of a socket call.
pub data SockErr : Type 0 where
  timed_out would_block other_error : SockErr

-- What `recv` returns: some bytes, 0 after an orderly shutdown, or -1 with `errno`.
pub data Received : Type 0 where
  bytes : List ℕ → Received
  shut : Received
  failed : SockErr → Received

-- An answer of `recv`, and the milliseconds by which `clock_ms` has moved on when it comes.
pub record RecvEvent : Type 0 where
  pub after : ℕ
  pub what : Received

-- What `send` returns.
pub data Sent : Type 0 where
  accepted : ℕ → Sent
  refused : SockErr → Sent

-- The static variables of gdb_lib.cpp, and the socket that they stand on: the answers to come, the
-- messages handed to `send` so far, and the calls of `socket` and `closesocket`.
pub record Gdb : Type 0 where
  pub message_buffer : List ℕ
  pub data_received : ℕ
  pub ack_mode_enabled : Bool
  pub max_memo_read_packet_size : ℕ
  pub max_memo_write_packet_size : ℕ
  pub max_gdb_send_message_size : ℕ
  pub max_gdb_recv_message_size : ℕ
  pub recv_events : List RecvEvent
  pub send_events : List Sent
  pub startup_answers : List Bool
  pub socket_answers : List Bool
  pub connect_answers : List Bool
  pub sent : List (List ℕ)
  pub sockets_opened : ℕ
  pub sockets_closed : ℕ

-- What `ReadFile` on the COM port returns: a failure, or bytes (none after its timeout).
pub data ComRead : Type 0 where
  chunk : List ℕ → ComRead
  read_failed : ComRead

-- What `ClearCommError` reports: its error flags, and the bytes in the receive queue.
pub record ComStat : Type 0 where
  pub any_error : Bool
  pub overrun : Bool
  pub in_queue : ℕ

-- The fields of `struct termios` that Code/com_lib.cpp sets: flags, VTIME, VMIN and the speed. The other
-- flags, such as CMSPAR, INPCK, IGNPAR, IEXTEN and ECHONL, are `left_alone`.
pub record Tty : Type 0 where
  pub parenb : Bool
  pub parodd : Bool
  pub cstopb : Bool
  pub cs8 : Bool
  pub crtscts : Bool
  pub cread_clocal : Bool
  pub input_processing : Bool
  pub output_processing : Bool
  pub canonical_echo : Bool
  pub vtime : ℕ
  pub vmin : ℕ
  pub speed : ℕ
  pub left_alone : List Bool

-- com_lib.cpp: whether the port is open, and the answers of the system to come. `com_writes` holds the
-- number of bytes that `WriteFile` takes (`none` is a failure), `com_drains` the results of
-- `FlushFileBuffers`. `com_settings` holds the results of
-- the calls that configure the port. A script that has run dry takes all, reads nothing and reports no
-- error.
pub record Com : Type 0 where
  pub port_is_open : Bool
  pub com_opens : List Bool
  pub com_writes : List (Option ℕ)
  pub com_drains : List Bool
  pub com_reads : List ComRead
  pub com_stats : List (Option ComStat)
  pub com_sent : List (List ℕ)
  pub com_settings : List Bool
  pub handles_opened : ℕ
  pub handles_closed : ℕ
  pub tty : Tty

-- The buffer for the data structure: the size given to `malloc`, and what it holds.
pub record Block : Type 0 where
  pub allocated : ℕ
  pub contents : List ℕ

-- The rest of the system: `malloc`, the binary file (`errno` of each `fopen_s`, 0 for success, and how
-- much `fwrite` takes, `none` for all), the keyboard (each poll of the main loop finds a key or none, and
-- the polls of the benchmark), the lines of input, the text files by their names.
pub record Host : Type 0 where
  pub mallocs : List Bool
  pub bin_opens : List ℕ
  pub bin_room : Option ℕ
  pub bin_file : Option (List ℕ)
  pub keys : List (Option ℕ)
  pub benchmark_polls : List Bool
  pub lines : List (List ℕ)
  pub text_file : List ℕ → Option (List (List ℕ))
  pub decode_runs : ℕ

-- The implementation of com_lib.cpp that is compiled.
pub data Platform : Type 0 where
  win32 linux : Platform

-- The variables of Code/logger.cpp: whether the log goes to a file, and whether it is written at all; and
-- the results of opening the log file.
pub record Log : Type 0 where
  pub to_file : Bool
  pub enabled : Bool
  pub log_opens : List Bool

-- REALTIME_PRIORITY_CLASS and NORMAL_PRIORITY_CLASS.
pub data Priority : Type 0 where
  realtime normal : Priority

-- The processes of the system: their names and ids, the ids whose priority may not be set, the
-- priorities, and the id of the program itself.
pub record Processes : Type 0 where
  pub running : List (List ℕ × ℕ)
  pub refuses : ℕ → Bool
  pub priority : ℕ → Priority
  pub own_id : ℕ

pub record State : Type 0 where
  pub last_error : ErrCode
  pub parameters : Parameters
  pub now : ℕ
  pub log : Log
  pub processes : Processes
  pub platform : Platform
  pub old_msg_filter : ℕ
  pub rtedbg_header : Header
  pub p_rtedbg_structure : Option Block
  pub gdb : Gdb
  pub com_link : Com
  pub host : Host

-- sizeof(message_buffer)
abbrev pub tcp_buff_length : ℕ
tcp_buff_length = 65535

abbrev pub M {ℓ} : Type ℓ → Type ℓ
M A = State → A × State

module _ {ℓ} {A : Type ℓ} where
  abbrev pub pure : A → M A
  pure a s = (a, s)

module _ {ℓ κ} {A : Type ℓ} {B : Type κ} where
  infixl 5 ◌>>=◌ ◌>>◌
  abbrev pub ◌>>=◌ : M A → (A → M B) → M B
  ◌>>=◌ m f s = f (m s).0 (m s).1

  abbrev pub ◌>>◌ : M A → M B → M B
  ◌>>◌ m n s = n (m s).1

-- if (r != RTE_OK) return RTE_ERROR; ...
abbrev pub if_ok : Status → M Status → M Status
if_ok ok k s = k s
if_ok error k s = (error, s)

-- last_error = e
abbrev pub set_last_error : ErrCode → M (Unit {0})
set_last_error e s = (tt, record s { last_error = e })

-- last_error = e; return RTE_ERROR;
abbrev pub fail : ErrCode → M Status
fail e s = (error, record s { last_error = e })

abbrev pub modify_gdb : (Gdb → Gdb) → M (Unit {0})
modify_gdb f s = (tt, record s { gdb = f s.gdb })

abbrev pub modify_com : (Com → Com) → M (Unit {0})
modify_com f s = (tt, record s { com_link = f s.com_link })

-- The next answer of a script.
abbrev pub pop_or {ℓ} : {A : Type ℓ} → A → List A → A
pop_or d [] = d
pop_or d (x ∷ xs) = x

abbrev pub pop_rest {ℓ} : {A : Type ℓ} → List A → List A
pop_rest [] = []
pop_rest (x ∷ xs) = xs
