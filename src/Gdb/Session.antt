-- ===== src/Gdb/Session.antt =====
-- Connecting to a GDB server, commands other than memory transfers, and leaving: the rest of
-- Code/gdb_lib.cpp.
pub mod Sockets
use rteget_data_linux_compat.Gdb.Message.{gdb_get_message, long_recv_timeout, write_buffer}
use rteget_data_linux_compat.Gdb.Packet.{gdb_send_command}
use rteget_data_linux_compat.Gdb.Sizes.{parse_capability_data}
use rteget_data_linux_compat.Gdb.Socket.{after_recv, answers, gdb_flush_socket, recv, until_dry}
use rteget_data_linux_compat.Loop.{repeat}
use rteget_data_linux_compat.Prelude.{
  Bool, List, Option, [], codes, false, if◌then◌else◌, ltb, none, not, some, starts_with, true, ℕ,
  ◌+◌, ◌-◌, ◌==◌, ◌∷◌,
}
use rteget_data_linux_compat.State.{
  M, Received, State, Status, bytes, error, failed, if_ok, linux, modify_gdb, no_error, ok,
  other_error, pure, set_last_error, shut, tcp_buff_length, timed_out, win32, would_block, ◌>>=◌,
  ◌>>◌,
}

-- The WSAStartup(), socket() and connect() calls. A script that has run dry grants them.
pub grant : List Bool → Bool × List Bool
grant [] = (true, [])
grant (b ∷ bs) = (b, bs)

unfoldable pub open_socket : M Bool
unfolding grant
open_socket s =
    let (granted, left) = grant s.gdb.socket_answers in
    (
      granted,
      record s {
        gdb = record s.gdb {
          socket_answers = left;
          sockets_opened = if granted then s.gdb.sockets_opened + 1 else s.gdb.sockets_opened;
        };
      },
    )

unfoldable pub connect_socket : M Bool
unfolding grant
connect_socket s =
    let (granted, left) = grant s.gdb.connect_answers in
    (granted, record s { gdb = record s.gdb { connect_answers = left } })

unfoldable pub gdb_socket_cleanup : M (Unit {0})
gdb_socket_cleanup s =
    (tt, record s { gdb = record s.gdb { sockets_closed = s.gdb.sockets_closed + 1 } })

-- WSAStartup, which Windows alone has: whether the sockets can be used.
unfoldable pub wsa_startup : M Bool
unfolding grant
wsa_startup s = elim s.platform [
  | linux ↦ (true, s)
  | win32 ↦
      let (granted, left) = grant s.gdb.startup_answers in
      (granted, record s { gdb = record s.gdb { startup_answers = left } })
]

unfoldable pub gdb_connect_socket : M Status
unfolding wsa_startup open_socket connect_socket gdb_socket_cleanup
gdb_connect_socket = do
  started ← wsa_startup
  if not started then pure error else do
    created ← open_socket
    if not created then pure error else do
      connected ← connect_socket
      if connected then pure ok else do gdb_socket_cleanup; pure error

-- Waiting for '+': anything else is discarded together with what follows it.
unfoldable pub ack_character : Bool → ℕ → State → Option (Unit {0}) × State
unfolding gdb_flush_socket write_buffer
ack_character true b s = (some tt, (write_buffer 0 (b ∷ []) s).1)
ack_character false b s = (none, (gdb_flush_socket (write_buffer 0 (b ∷ []) s).1).1)

unfoldable pub ack_answer : Received → State → Option (Unit {0}) × State
unfolding ack_character
ack_answer (bytes []) s = (some tt, s)
ack_answer (bytes (b ∷ bs)) s = ack_character (b == b'+') b s
ack_answer shut s = (some tt, s)
ack_answer (failed timed_out) s = (none, s)
ack_answer (failed would_block) s = (some tt, s)
ack_answer (failed other_error) s = (some tt, s)

unfoldable pub ack_attempt : Bool → State → Option (Unit {0}) × State
unfolding recv ack_answer write_buffer
ack_attempt false s = (some tt, s)
ack_attempt true s = after_recv ack_answer 1 (write_buffer 0 (0 ∷ []) s).1

unfoldable pub ack_round : ℕ → State → Option (Unit {0}) × State
unfolding ack_attempt
ack_round start s = ack_attempt (ltb (s.now - start) long_recv_timeout) s

unfoldable pub gdb_check_ack : M (Unit {0})
unfolding repeat ack_round answers
gdb_check_ack s = repeat (answers s.gdb.recv_events) tt (ack_round s.now) s

unfoldable pub gdb_check_server_capabilities : M Status
unfolding gdb_send_command gdb_check_ack gdb_get_message parse_capability_data
gdb_check_server_capabilities = do
  set_last_error no_error
  sent ← gdb_send_command (codes "qSupported")
  if_ok sent (do
    gdb_check_ack
    got ← gdb_get_message long_recv_timeout
    if_ok got (λ s. parse_capability_data s.gdb.message_buffer s))

unfoldable pub gdb_request_no_ack_mode : M Status
unfolding gdb_send_command gdb_check_ack gdb_get_message gdb_flush_socket starts_with
gdb_request_no_ack_mode = do
  modify_gdb (λ g. record g { ack_mode_enabled = true })
  sent ← gdb_send_command (codes "QStartNoAckMode")
  if_ok sent (do
    gdb_check_ack
    got ← gdb_get_message 0
    if_ok got (λ s.
        if starts_with s.gdb.message_buffer (codes "$OK#")
        then (do modify_gdb (λ g. record g { ack_mode_enabled = false }); gdb_flush_socket; pure ok)
            s
        else (error, s)))

-- What the server sent on its own, such as a first '+', is read once, and then discarded.
unfoldable pub discard_greeting : M (Unit {0})
unfolding recv write_buffer gdb_flush_socket
discard_greeting s =
    let s1 = (recv tcp_buff_length s).1 in
    elim (recv tcp_buff_length s).0 [
      | bytes (b ∷ bs) ↦ gdb_flush_socket (write_buffer 0 (b ∷ bs) s1).1
      | _ ↦ (tt, s1)
    ]

unfoldable pub gdb_connect : M Status
unfolding gdb_connect_socket gdb_socket_cleanup discard_greeting gdb_check_server_capabilities
    gdb_request_no_ack_mode
gdb_connect = do
  set_last_error no_error
  res ← gdb_connect_socket
  elim res [
    | error ↦ do gdb_socket_cleanup; pure error
    | ok ↦ do
      modify_gdb (λ g. record g { ack_mode_enabled = true })
      discard_greeting
      supported ← gdb_check_server_capabilities
      elim supported [ error ↦ do gdb_socket_cleanup; pure error | ok ↦ gdb_request_no_ack_mode ]
  ]

unfoldable pub gdb_detach : M (Unit {0})
unfolding gdb_send_command gdb_get_message
gdb_detach s =
    if s.parameters.detach
    then (do
      sent ← gdb_send_command (codes "D")
      elim sent [ error ↦ pure tt | ok ↦ do gdb_get_message 0; pure tt ])
        s
    else (tt, s)

-- Every message is read into the start of the buffer and lost.
unfoldable pub unexpected_round : State → Option (Unit {0}) × State
unfolding recv until_dry write_buffer
unexpected_round = after_recv (until_dry (λ bs s. (write_buffer 0 bs s).1)) tcp_buff_length

unfoldable pub gdb_handle_unexpected_messages : M (Unit {0})
unfolding repeat unexpected_round answers
gdb_handle_unexpected_messages s = repeat (answers s.gdb.recv_events) tt unexpected_round s
