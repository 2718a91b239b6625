-- ===== src/Tests.antt =====
-- Concrete inputs: the state of the program at its start, and variants of it.
pub mod GdbRuns
pub mod AppRuns
pub mod LinkRuns
pub mod ProgramRuns
use rteget_data_linux_compat.App.Keys.{persistent_connection}
use rteget_data_linux_compat.Prelude.{List, [], false, none, true, ℕ}
use rteget_data_linux_compat.State.{
  Com, ComPortPars, Gdb, Header, Host, Parameters, RecvEvent, State, Tty, bytes, com_port, gdb_port,
  linux, no_error, no_parity, normal, one_stop_bit,
}

abbrev pub no_com_port : ComPortPars
no_com_port = record {
  name = [];
  recv_start_timeout = 0;
  baudrate = 0;
  stop_bits = one_stop_bit;
  parity = no_parity;
  single_wire_communication = false;
}

abbrev pub no_parameters : Parameters
no_parameters = record {
  start_address = 0;
  size = 0;
  filter = 0;
  set_filter = false;
  delay = 0;
  log_file = none;
  decode_file = none;
  bin_file_name = [];
  ip_address = [];
  start_cmd_file = none;
  filter_names = none;
  gdb_port = 0;
  driver_names = [];
  elevated_priority = false;
  clear_buffer = false;
  debug_mode = false;
  persistent_connection = false;
  detach = false;
  active_interface = gdb_port;
  max_message_size = 0;
  com_port = no_com_port;
}

abbrev pub no_header : Header
no_header = record {
  last_index = 0;
  filter = 0;
  rte_cfg = 0;
  timestamp_frequency = 0;
  filter_copy = 0;
  buffer_size = 0;
}

abbrev pub fresh_gdb : Gdb
fresh_gdb = record {
  message_buffer = [];
  data_received = 0;
  ack_mode_enabled = false;
  max_memo_read_packet_size = 0;
  max_memo_write_packet_size = 0;
  max_gdb_send_message_size = 0;
  max_gdb_recv_message_size = 0;
  recv_events = [];
  send_events = [];
  startup_answers = [];
  socket_answers = [];
  connect_answers = [];
  sent = [];
  sockets_opened = 0;
  sockets_closed = 0;
}

abbrev pub raw_tty : Tty
raw_tty = record {
  parenb = false;
  parodd = false;
  cstopb = false;
  cs8 = true;
  crtscts = false;
  cread_clocal = true;
  input_processing = false;
  output_processing = false;
  canonical_echo = false;
  vtime = 0;
  vmin = 0;
  speed = 9600;
  left_alone = [];
}

abbrev pub open_com : Com
open_com = record {
  port_is_open = true;
  com_opens = [];
  com_writes = [];
  com_drains = [];
  com_reads = [];
  com_stats = [];
  com_sent = [];
  com_settings = [];
  handles_opened = 0;
  handles_closed = 0;
  tty = raw_tty;
}

abbrev pub fresh_host : Host
fresh_host = record {
  mallocs = [];
  bin_opens = [];
  bin_room = none;
  bin_file = none;
  keys = [];
  benchmark_polls = [];
  lines = [];
  text_file = λ name. none;
  decode_runs = 0;
}

abbrev pub fresh : State
fresh = record {
  last_error = no_error;
  parameters = no_parameters;
  now = 0;
  log = record { to_file = false; enabled = true; log_opens = [] };
  processes = record { running = []; refuses = λ id. false; priority = λ id. normal; own_id = 1 };
  platform = linux;
  old_msg_filter = 0;
  rtedbg_header = no_header;
  p_rtedbg_structure = none;
  gdb = fresh_gdb;
  com_link = open_com;
  host = fresh_host;
}

-- The start with these answers of `recv`, and the packet size `limit`.
abbrev pub reading : ℕ → List RecvEvent → State
reading limit events = record fresh {
  gdb = record fresh_gdb { recv_events = events; max_memo_read_packet_size = limit };
}

abbrev pub comes : List ℕ → RecvEvent
comes bs = record { after = 20; what = bytes bs }
