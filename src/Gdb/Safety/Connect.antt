-- ===== src/Gdb/Safety/Connect.antt =====
-- The whole connection, and leaving it, keep `message_buffer` within its bounds.
use rteget_data_linux_compat.Gdb.Message.{gdb_get_message, write_buffer}
use rteget_data_linux_compat.Gdb.Message.Limits.{InBuffer, gdb_get_message-InBuffer}
use rteget_data_linux_compat.Gdb.Packet.{gdb_send_command}
use rteget_data_linux_compat.Gdb.Safety.Console.{gdb_send_command-Keeps}
use rteget_data_linux_compat.Gdb.Safety.Session.{
  gdb_check_ack-Keeps, gdb_check_server_capabilities-Keeps, gdb_connect_socket-Keeps,
}
use rteget_data_linux_compat.Gdb.Safety.Socket.{
  after_recv-Keeps, gdb_flush_socket-Keeps, same_buffer, until_dry-Keeps, write_buffer-Keeps,
}
use rteget_data_linux_compat.Gdb.Session.{
  discard_greeting, gdb_check_ack, gdb_check_server_capabilities, gdb_connect, gdb_connect_socket,
  gdb_detach, gdb_handle_unexpected_messages, gdb_request_no_ack_mode, gdb_socket_cleanup,
  unexpected_round,
}
use rteget_data_linux_compat.Gdb.Socket.{answers, gdb_flush_socket, pieces, recv, until_dry}
use rteget_data_linux_compat.Gdb.Socket.Receives.{recv-Receives}
use rteget_data_linux_compat.Keeps.{Keeps, Keeps-if_at, Keeps-if_ok, Keeps-status}
use rteget_data_linux_compat.Loop.{repeat_inv}
use rteget_data_linux_compat.Prelude.{
  List, [], arith, codes, false, if◌then◌else◌, starts_with, true, ℕ, ◌∷◌, ◌≤◌,
}
use rteget_data_linux_compat.State.{
  M, Received, State, Status, bytes, error, failed, if_ok, modify_gdb, no_error, ok, pure, shut,
  tcp_buff_length, ◌>>=◌, ◌>>◌,
}

confirmed-Keeps : Keeps InBuffer (λ s.
    if starts_with s.gdb.message_buffer (codes "$OK#")
    then (do modify_gdb (λ g. record g { ack_mode_enabled = false }); gdb_flush_socket; pure ok) s
    else (error, s))
confirmed-Keeps s h =
    let s1 = record s { gdb = record s.gdb { ack_mode_enabled = false } } in
    Keeps-if_at InBuffer (starts_with s.gdb.message_buffer (codes "$OK#"))
      (ok, (gdb_flush_socket s1).1) (error, s) (gdb_flush_socket-Keeps s1 h) h

gdb_request_no_ack_mode-Keeps : Keeps InBuffer gdb_request_no_ack_mode
unfolding gdb_request_no_ack_mode
gdb_request_no_ack_mode-Keeps s h =
    let s0 = record s { gdb = record s.gdb { ack_mode_enabled = true } } in
    let confirm : M Status = (λ s1.
      if starts_with s1.gdb.message_buffer (codes "$OK#")
      then (do modify_gdb (λ g. record g { ack_mode_enabled = false }); gdb_flush_socket; pure ok)
          s1
      else (error, s1)) in
    let receive : M Status = (do gdb_check_ack; got ← gdb_get_message 0; if_ok got confirm) in
    Keeps-if_ok InBuffer (gdb_send_command (codes "QStartNoAckMode") s0).0 receive
      (λ s1 k.
        let s2 = (gdb_check_ack s1).1 in
        Keeps-if_ok InBuffer (gdb_get_message 0 s2).0 confirm confirmed-Keeps
          (gdb_get_message 0 s2).1 (gdb_get_message-InBuffer 0 s2 (gdb_check_ack-Keeps s1 k)))
      (gdb_send_command (codes "QStartNoAckMode") s0).1
      (gdb_send_command-Keeps (codes "QStartNoAckMode") s0 h)

greeted-Keeps :
    (r : Received) (s : State)
    → pieces r ≤ tcp_buff_length
    → InBuffer s
    → InBuffer
        (elim r as (λ x. Unit {0} × State) [
          | bytes (b ∷ bs) ↦ gdb_flush_socket (write_buffer 0 (b ∷ bs) s).1
          | _ ↦ (tt, s)
        ]).1
greeted-Keeps (bytes []) s hp h = h
greeted-Keeps (bytes (b ∷ bs)) s hp h =
    gdb_flush_socket-Keeps (write_buffer 0 (b ∷ bs) s).1
      (write_buffer-Keeps 0 (b ∷ bs) (omega arith) s h)
greeted-Keeps shut s hp h = h
greeted-Keeps (failed x) s hp h = h

discard_greeting-Keeps : Keeps InBuffer discard_greeting
unfolding discard_greeting
discard_greeting-Keeps s h =
    let k = recv-Receives tcp_buff_length s in
    greeted-Keeps (recv tcp_buff_length s).0 (recv tcp_buff_length s).1 k.piece
      (same_buffer s (recv tcp_buff_length s).1 k.buffer h)

pub gdb_socket_cleanup-Keeps : Keeps InBuffer gdb_socket_cleanup
unfolding gdb_socket_cleanup
gdb_socket_cleanup-Keeps s h = h

give_up_socket : M Status
unfolding gdb_socket_cleanup
give_up_socket = do gdb_socket_cleanup; pure error

negotiate : M Status
unfolding gdb_check_server_capabilities give_up_socket gdb_request_no_ack_mode discard_greeting
negotiate = do
  modify_gdb (λ g. record g { ack_mode_enabled = true })
  discard_greeting
  supported ← gdb_check_server_capabilities
  elim supported [ error ↦ give_up_socket | ok ↦ gdb_request_no_ack_mode ]

give_up_socket-Keeps : Keeps InBuffer give_up_socket
unfolding give_up_socket
give_up_socket-Keeps s h = gdb_socket_cleanup-Keeps s h

negotiate-Keeps : Keeps InBuffer negotiate
unfolding negotiate
negotiate-Keeps s h =
    let s1 = (discard_greeting (record s { gdb = record s.gdb { ack_mode_enabled = true } })).1 in
    Keeps-status InBuffer (gdb_check_server_capabilities s1).0 gdb_request_no_ack_mode
      give_up_socket gdb_request_no_ack_mode-Keeps give_up_socket-Keeps
      (gdb_check_server_capabilities s1).1
      (gdb_check_server_capabilities-Keeps s1
        (discard_greeting-Keeps (record s { gdb = record s.gdb { ack_mode_enabled = true } }) h))

pub gdb_connect-Keeps : Keeps InBuffer gdb_connect
unfolding gdb_connect give_up_socket negotiate
gdb_connect-Keeps s h =
    let s0 = record s { last_error = no_error } in
    Keeps-status InBuffer (gdb_connect_socket s0).0 negotiate give_up_socket negotiate-Keeps
      give_up_socket-Keeps (gdb_connect_socket s0).1 (gdb_connect_socket-Keeps s0 h)

pub gdb_detach-Keeps : Keeps InBuffer gdb_detach
unfolding gdb_detach
gdb_detach-Keeps s h =
    Keeps-if_at InBuffer s.parameters.detach
      (elim (gdb_send_command (codes "D") s).0 as (λ x. M (Unit {0})) [
        | ok ↦ do gdb_get_message 0; pure tt
        | error ↦ pure tt
      ]
        (gdb_send_command (codes "D") s).1)
      (tt, s)
      (Keeps-status InBuffer (gdb_send_command (codes "D") s).0 (do gdb_get_message 0; pure tt)
        (pure tt) (gdb_get_message-InBuffer 0) (λ s1 k. k) (gdb_send_command (codes "D") s).1
        (gdb_send_command-Keeps (codes "D") s h))
      h

pub gdb_handle_unexpected_messages-Keeps : Keeps InBuffer gdb_handle_unexpected_messages
unfolding gdb_handle_unexpected_messages unexpected_round
gdb_handle_unexpected_messages-Keeps s h =
    let store = λ (bs : List ℕ) (s1 : State). (write_buffer 0 bs s1).1 in
    repeat_inv unexpected_round InBuffer
      (after_recv-Keeps (until_dry store) tcp_buff_length (
        until_dry-Keeps store tcp_buff_length
          (λ bs s1 hb k. write_buffer-Keeps 0 bs (omega arith) s1 k)))
      (answers s.gdb.recv_events) tt s h
