-- ===== src/Gdb/Message.antt =====
-- Receiving a message, and what its first bytes report: `gdb_get_message`, `gdb_error_reported` and
-- `get_core_content` of Code/gdb_lib.cpp.
pub mod Receive
pub mod Limits
pub mod Ends
pub mod Silence
use rteget_data_linux_compat.Gdb.Socket.{after_recv, answers, gdb_send_ack, recv}
use rteget_data_linux_compat.Loop.{repeat}
use rteget_data_linux_compat.Prelude.{
  Bool, List, Option, [], blit, drop, false, if◌then◌else◌, leb, length, ltb, next, none, not, peek,
  some, true, ℕ, ◌&&◌, ◌+◌, ◌-◌, ◌==◌, ◌||◌, ◌∷◌,
}
use rteget_data_linux_compat.State.{
  M, Received, State, Status, bad_msg_format, bytes, connection_closed, error, fail, failed,
  gdb_reported_error, modify_gdb, ok, other_error, pure, rcv_timeout, shut, socket, tcp_buff_length,
  timed_out, would_block, ◌>>=◌, ◌>>◌,
}

-- Bytes written into `message_buffer` from offset `i` on.
unfoldable pub write_buffer : ℕ → List ℕ → M (Unit {0})
write_buffer i bs s =
    (tt, record s { gdb = record s.gdb { message_buffer = blit s.gdb.message_buffer i bs } })

-- Behind a segment of `bs`: a message ends in '#xx', and a full buffer is an error.
unfoldable pub append_received : List ℕ → M (Unit {0})
append_received bs s = (
  tt,
  record s {
    gdb = record s.gdb {
      message_buffer = blit s.gdb.message_buffer s.gdb.data_received bs;
      data_received = s.gdb.data_received + length bs;
    };
  },
)

unfoldable pub buffer_is_full : State → Bool
buffer_is_full s = leb (tcp_buff_length - 1) s.gdb.data_received

unfoldable pub message_is_complete : State → Bool
message_is_complete s =
    leb 4 s.gdb.data_received && peek (drop (s.gdb.data_received - 3) s.gdb.message_buffer) == b'#'

-- message_buffer[data_received] = 0
abbrev pub terminate_string : M (Unit {0})
terminate_string s = write_buffer s.gdb.data_received (0 ∷ []) s

unfoldable pub finish_message : M Status
unfolding gdb_send_ack write_buffer
finish_message = do gdb_send_ack; terminate_string; pure ok

-- A timeout of `recv` ends the loop once `timeout` has passed since `start`.
unfoldable pub give_up : M Status
unfolding write_buffer
give_up = do terminate_string; fail rcv_timeout

-- Behind a segment: the buffer is full, the message is complete, or there is more to come.
unfoldable pub after_data : Bool → Bool → State → Option Status × State
unfolding finish_message
after_data true complete s = (some error, s)
after_data false true s = (some (finish_message s).0, (finish_message s).1)
after_data false false s = (none, s)

unfoldable pub after_timeout : Bool → State → Option Status × State
unfolding give_up
after_timeout true s = (some (give_up s).0, (give_up s).1)
after_timeout false s = (none, s)

abbrev stop : M Status → State → Option Status × State
stop m s = (some (m s).0, (m s).1)

unfoldable pub message_answer : ℕ → ℕ → Received → State → Option Status × State
unfolding after_data after_timeout append_received buffer_is_full message_is_complete
message_answer timeout start (bytes []) s = stop (fail connection_closed) s
message_answer timeout start (bytes (b ∷ bs)) s =
    let s' = (append_received (b ∷ bs) s).1 in
    after_data (buffer_is_full s') (message_is_complete s') s'
message_answer timeout start shut s = stop (fail connection_closed) s
message_answer timeout start (failed timed_out) s = after_timeout (ltb timeout (s.now - start)) s
message_answer timeout start (failed would_block) s = stop (fail socket) s
message_answer timeout start (failed other_error) s = stop (fail socket) s

unfoldable pub message_round : ℕ → ℕ → State → Option Status × State
unfolding recv message_answer
message_round timeout start s =
    after_recv (message_answer timeout start) (tcp_buff_length - s.gdb.data_received) s

-- RECV_TIMEOUT, LONG_RECV_TIMEOUT and ERROR_DATA_TIMEOUT, in milliseconds.
abbrev pub recv_timeout : ℕ
recv_timeout = 500

abbrev pub long_recv_timeout : ℕ
long_recv_timeout = 2500

abbrev pub error_data_timeout : ℕ
error_data_timeout = 50

-- A timeout of 0 asks for the default.
unfoldable pub gdb_get_message : ℕ → M Status
unfolding repeat message_round write_buffer answers
gdb_get_message timeout s =
    (do
      modify_gdb (λ g. record g { data_received = 0 })
      write_buffer 0 (0 ∷ [])
      repeat (answers s.gdb.recv_events) error
          (message_round (if timeout == 0 then recv_timeout else timeout) s.now))
      s

unfoldable pub gdb_error_reported : M Bool
gdb_error_reported s =
    if not (peek s.gdb.message_buffer == b'$')
    then (true, record s { last_error = bad_msg_format })
    else if not (peek (drop 1 s.gdb.message_buffer) == b'E')
    then (false, s)
    else (true, record s { last_error = gdb_reported_error })

-- The text between a leading '$' and the first '#'.
unfoldable pub before_hash : List ℕ → List ℕ
before_hash [] = []
before_hash (c ∷ p) = let rest = before_hash p in if c == 0 || c == b'#' then [] else c ∷ rest

unfoldable pub get_core_content : List ℕ → List ℕ
unfolding before_hash
get_core_content message =
    if peek message == b'$' then before_hash (next message) else before_hash message
