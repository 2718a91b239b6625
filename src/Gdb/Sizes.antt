-- ===== src/Gdb/Sizes.antt =====
-- The packet sizes: `calculate_max_message_sizes` and `parse_capability_data` of Code/gdb_lib.cpp.
pub mod Bounds
pub mod Announced
use rteget_data_linux_compat.Prelude.{
  List, behind, codes, if◌then◌else◌, ltb, none, some, sub32, ℕ, ◌*◌, ◌/◌, ◌==◌,
}
use rteget_data_linux_compat.Scan.{scan_word}
use rteget_data_linux_compat.State.{
  Gdb, M, Status, error, modify_gdb, ok, pure, tcp_buff_length, ◌>>=◌, ◌>>◌,
}

-- ((n - overhead) / 8) * 4 in `unsigned`.
unfoldable pub payload : ℕ → ℕ → ℕ
payload n overhead = sub32 n overhead / 8 * 4

abbrev pub at_most_buffer : ℕ → ℕ
at_most_buffer n = if ltb tcp_buff_length n then tcp_buff_length else n

-- From the size that the server accepts, and the -msgsize argument (0 if there is none).
unfoldable pub message_sizes : ℕ → ℕ → Gdb → Gdb
unfolding payload
message_sizes send_size user_size g =
    let send_max = at_most_buffer send_size in
    let recv_max = if user_size == 0 then send_max else at_most_buffer user_size in
    record g {
      max_gdb_send_message_size = send_max;
      max_gdb_recv_message_size = recv_max;
      max_memo_read_packet_size = payload recv_max 4;
      max_memo_write_packet_size = payload send_max 20;
    }

unfoldable pub calculate_max_message_sizes : M (Unit {0})
unfolding message_sizes
calculate_max_message_sizes s =
    modify_gdb (message_sizes s.gdb.max_gdb_send_message_size s.parameters.max_message_size) s

-- DEFAULT_MESSAGE_SIZE
abbrev pub default_message_size : ℕ
default_message_size = 4096

-- The hexadecimal number behind "PacketSize=".
unfoldable pub announced_size : List ℕ → ℕ
unfolding behind scan_word
announced_size recvbuf = elim (behind (codes "PacketSize=") recvbuf) [
  | none ↦ default_message_size
  | some p ↦ elim (scan_word 16 p) [ none ↦ default_message_size | some (n, rest) ↦ n ]
]

unfoldable pub parse_capability_data : List ℕ → M Status
unfolding announced_size calculate_max_message_sizes
parse_capability_data recvbuf = elim (behind (codes "QStartNoAckMode+") recvbuf) [
  | none ↦ pure error
  | some p ↦ do
    modify_gdb (λ g. record g { max_gdb_send_message_size = announced_size recvbuf })
    calculate_max_message_sizes
    pure ok
]
