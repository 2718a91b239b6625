-- ===== src/Gdb/Safety/Session.antt =====
-- Connecting, waiting for acknowledgements and leaving keep `message_buffer` within its bounds.
use rteget_data_linux_compat.Gdb.Message.{gdb_get_message, long_recv_timeout, write_buffer}
use rteget_data_linux_compat.Gdb.Message.Limits.{InBuffer, gdb_get_message-InBuffer}
use rteget_data_linux_compat.Gdb.Packet.{gdb_send_command}
use rteget_data_linux_compat.Gdb.Safety.Console.{gdb_send_command-Keeps}
use rteget_data_linux_compat.Gdb.Safety.Socket.{
  after_recv-Keeps, gdb_flush_socket-Keeps, write_buffer-Keeps,
}
use rteget_data_linux_compat.Gdb.Session.{
  ack_answer, ack_attempt, ack_character, ack_round, connect_socket, gdb_check_ack,
  gdb_check_server_capabilities, gdb_connect_socket, gdb_socket_cleanup, grant, open_socket,
  wsa_startup,
}
use rteget_data_linux_compat.Gdb.Sizes.{
  calculate_max_message_sizes, message_sizes, parse_capability_data,
}
use rteget_data_linux_compat.Gdb.Socket.{answers, pieces}
use rteget_data_linux_compat.Keeps.{Keeps, Keeps-if, Keeps-if_ok}
use rteget_data_linux_compat.Loop.{repeat_inv}
use rteget_data_linux_compat.Prelude.{
  Bool, List, Option-cases, [], arith, behind, codes, false, if◌then◌else◌, inl, inr, ltb, not,
  true, ℕ, ◌-◌, ◌==◌, ◌∷◌, ◌≤◌,
}
use rteget_data_linux_compat.State.{
  M, Platform, Received, State, Status, bytes, error, failed, if_ok, linux, no_error, ok,
  other_error, pure, shut, timed_out, win32, would_block, ◌>>=◌, ◌>>◌,
}

open_socket-Keeps : Keeps InBuffer open_socket
unfolding open_socket
open_socket-Keeps s h = h

connect_socket-Keeps : Keeps InBuffer connect_socket
unfolding connect_socket
connect_socket-Keeps s h = h

wsa_startup-Keeps : Keeps InBuffer wsa_startup
unfolding wsa_startup
wsa_startup-Keeps s h = branch s.platform
  where
    branch :
        (p : Platform)
        → (let r : Bool × State = elim p [
          | linux ↦ (true, s)
          | win32 ↦
              let (granted, left) = grant s.gdb.startup_answers in
              (granted, record s { gdb = record s.gdb { startup_answers = left } })
        ] in
            InBuffer r.1)
    branch linux = h
    branch win32 = h

abbrev create_and_connect : M Status
create_and_connect = do
  created ← open_socket
  if not created then pure error else do
    connected ← connect_socket
    if connected then pure ok else do gdb_socket_cleanup; pure error

create_and_connect-Keeps : Keeps InBuffer create_and_connect
unfolding gdb_socket_cleanup
create_and_connect-Keeps s h =
    let connect : M Status = (do
      connected ← connect_socket
      if connected then pure ok else do gdb_socket_cleanup; pure error) in
    Keeps-if InBuffer (not (open_socket s).0) (pure error) connect (λ s1 k. k)
      (λ s1 k.
        Keeps-if InBuffer (connect_socket s1).0 (pure ok) (do gdb_socket_cleanup; pure error)
          (λ s2 l. l) (λ s2 l. l) (connect_socket s1).1 (connect_socket-Keeps s1 k))
      (open_socket s).1 (open_socket-Keeps s h)

pub gdb_connect_socket-Keeps : Keeps InBuffer gdb_connect_socket
unfolding gdb_connect_socket
gdb_connect_socket-Keeps s h =
    Keeps-if InBuffer (not (wsa_startup s).0) (pure error) create_and_connect (λ s1 k. k)
      create_and_connect-Keeps (wsa_startup s).1 (wsa_startup-Keeps s h)

ack_character-Keeps :
    (good : Bool) (b : ℕ) (s : State) → InBuffer s → InBuffer (ack_character good b s).1
unfolding ack_character
ack_character-Keeps true b s h = write_buffer-Keeps 0 (b ∷ []) (omega arith) s h
ack_character-Keeps false b s h =
    gdb_flush_socket-Keeps (write_buffer 0 (b ∷ []) s).1
      (write_buffer-Keeps 0 (b ∷ []) (omega arith) s h)

ack_answer-Keeps :
    (r : Received) (s : State) → pieces r ≤ 1 → InBuffer s → InBuffer (ack_answer r s).1
unfolding ack_answer
ack_answer-Keeps (bytes []) s hp h = h
ack_answer-Keeps (bytes (b ∷ bs)) s hp h = ack_character-Keeps (b == b'+') b s h
ack_answer-Keeps shut s hp h = h
ack_answer-Keeps (failed timed_out) s hp h = h
ack_answer-Keeps (failed would_block) s hp h = h
ack_answer-Keeps (failed other_error) s hp h = h

ack_attempt-Keeps : (in_time : Bool) (s : State) → InBuffer s → InBuffer (ack_attempt in_time s).1
unfolding ack_attempt
ack_attempt-Keeps false s h = h
ack_attempt-Keeps true s h =
    after_recv-Keeps ack_answer 1 ack_answer-Keeps (write_buffer 0 (0 ∷ []) s).1
      (write_buffer-Keeps 0 (0 ∷ []) (omega arith) s h)

pub gdb_check_ack-Keeps : Keeps InBuffer gdb_check_ack
unfolding gdb_check_ack ack_round
gdb_check_ack-Keeps s h =
    repeat_inv (ack_round s.now) InBuffer
      (λ s1 k. ack_attempt-Keeps (ltb (s1.now - s.now) long_recv_timeout) s1 k)
      (answers s.gdb.recv_events) tt s h

parse_capability_data-Keeps : (recvbuf : List ℕ) → Keeps InBuffer (parse_capability_data recvbuf)
unfolding parse_capability_data calculate_max_message_sizes message_sizes
parse_capability_data-Keeps recvbuf s h =
    elim (Option-cases (behind (codes "QStartNoAckMode+") recvbuf)) [
      | inl e ↦ rw (e, parse_capability_data) h
      | inr (p, e) ↦ rw (e, parse_capability_data) h
    ]

pub gdb_check_server_capabilities-Keeps : Keeps InBuffer gdb_check_server_capabilities
unfolding gdb_check_server_capabilities
gdb_check_server_capabilities-Keeps s h =
    let s0 = record s { last_error = no_error } in
    let parse : M Status = (λ s1. parse_capability_data s1.gdb.message_buffer s1) in
    let receive : M Status = (do
      gdb_check_ack
      got ← gdb_get_message long_recv_timeout
      if_ok got parse) in
    Keeps-if_ok InBuffer (gdb_send_command (codes "qSupported") s0).0 receive
      (λ s1 k.
        let s2 = (gdb_check_ack s1).1 in
        Keeps-if_ok InBuffer (gdb_get_message long_recv_timeout s2).0 parse
          (λ s3. parse_capability_data-Keeps s3.gdb.message_buffer s3)
          (gdb_get_message long_recv_timeout s2).1
          (gdb_get_message-InBuffer long_recv_timeout s2 (gdb_check_ack-Keeps s1 k)))
      (gdb_send_command (codes "qSupported") s0).1
      (gdb_send_command-Keeps (codes "qSupported") s0 h)
