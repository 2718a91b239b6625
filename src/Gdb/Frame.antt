-- ===== src/Gdb/Frame.antt =====
-- The operations of the GDB client change nothing but the client's own variables, the time and the error
-- code: sockets, messages and packets.
pub mod Whole
use rteget_data_linux_compat.Gdb.Message.{
  after_data, after_timeout, append_received, buffer_is_full, finish_message, gdb_error_reported,
  gdb_get_message, give_up, message_answer, message_is_complete, message_round, recv_timeout,
  write_buffer,
}
use rteget_data_linux_compat.Gdb.Packet.{transact}
use rteget_data_linux_compat.Gdb.Socket.{
  after_recv, answers, delivered, flush_round, gdb_flush_socket, gdb_send, gdb_send_ack, recv,
  recv_from, send, send_to, sent_status, until_dry,
}
use rteget_data_linux_compat.Keeps.{IsFrame, Keeps, Keeps-if, Keeps-if_at, Keeps-if_ok}
use rteget_data_linux_compat.Loop.{repeat_inv}
use rteget_data_linux_compat.Prelude.{
  Bool, List, Option, [], drop, false, if◌then◌else◌, length, ltb, not, peek, true, ℕ, ◌++◌, ◌+◌,
  ◌-◌, ◌==◌, ◌∷◌,
}
use rteget_data_linux_compat.State.{
  Received, RecvEvent, Sent, State, accepted, bad_input_data, bad_msg_format, bytes,
  connection_closed, error, fail, failed, gdb_reported_error, msg_not_sent_completely, ok,
  other_error, pure, rcv_timeout, refused, send_timeout, shut, socket, tcp_buff_length, timed_out,
  would_block,
}

module _ {κ} (P : State → Type κ) (f : IsFrame P) where
  delivered-Frame :
      (n after : ℕ) (what : Received) (events : List RecvEvent)
      → Keeps P (delivered n (record { after = after; what = what }) events)
  unfolding delivered
  delivered-Frame n after (bytes bs) events s h = f.keeps_gdb _ _ (f.keeps_now s (s.now + after) h)
  delivered-Frame n after shut events s h = f.keeps_gdb _ _ (f.keeps_now s (s.now + after) h)
  delivered-Frame n after (failed x) events s h = f.keeps_gdb _ _ (f.keeps_now s (s.now + after) h)

  recv_from-Frame : (events : List RecvEvent) (n : ℕ) → Keeps P (recv_from events n)
  unfolding recv_from
  recv_from-Frame [] n s h = h
  recv_from-Frame (e ∷ events) n s h = delivered-Frame n e.after e.what events s h

  pub recv-Frame : (n : ℕ) → Keeps P (recv n)
  unfolding recv
  recv-Frame n s h = recv_from-Frame s.gdb.recv_events n s h

  send_to-Frame : (rs : List Sent) (msg : List ℕ) → Keeps P (send_to rs msg)
  unfolding send_to
  send_to-Frame [] msg s h = f.keeps_gdb s _ h
  send_to-Frame (r ∷ rs) msg s h = f.keeps_gdb s _ h

  sent_status-Frame : (n : ℕ) (r : Sent) → Keeps P (sent_status n r)
  unfolding sent_status
  sent_status-Frame n (accepted k) s h =
      Keeps-if P (k == n) (pure ok) (fail msg_not_sent_completely) (λ s1 k1. k1)
        (λ s1 k1. f.keeps_error s1 msg_not_sent_completely k1) s h
  sent_status-Frame n (refused timed_out) s h = f.keeps_error s send_timeout h
  sent_status-Frame n (refused would_block) s h = f.keeps_error s socket h
  sent_status-Frame n (refused other_error) s h = f.keeps_error s socket h

  pub gdb_send-Frame : (msg : List ℕ) → Keeps P (gdb_send msg)
  unfolding gdb_send send
  gdb_send-Frame [] s h = f.keeps_error s bad_input_data h
  gdb_send-Frame (c ∷ msg) s h =
      let r = send_to s.gdb.send_events (c ∷ msg) s in
      sent_status-Frame (length (c ∷ msg)) r.0 r.1 (send_to-Frame s.gdb.send_events (c ∷ msg) s h)

  pub gdb_send_ack-Frame : Keeps P gdb_send_ack
  unfolding gdb_send_ack
  gdb_send_ack-Frame s h =
      Keeps-if_at P s.gdb.ack_mode_enabled (tt, (gdb_send (b'+' ∷ []) s).1) (tt, s)
        (gdb_send-Frame (b'+' ∷ []) s h) h

  pub after_recv-Frame {ℓ} :
      {A : Type ℓ} (handle : Received → State → Option A × State) (n : ℕ)
      → ((r : Received) (s : State) → P s → P (handle r s).1)
      → (s : State) → P s
      → P (after_recv handle n s).1
  after_recv-Frame handle n hh s h = hh (recv n s).0 (recv n s).1 (recv-Frame n s h)

  pub until_dry-Frame :
      (use_data : List ℕ → State → State)
      → ((bs : List ℕ) (s : State) → P s → P (use_data bs s))
      → (r : Received) (s : State) → P s
      → P (until_dry use_data r s).1
  unfolding until_dry
  until_dry-Frame use_data hu (bytes []) s h = h
  until_dry-Frame use_data hu (bytes (b ∷ bs)) s h = hu (b ∷ bs) s h
  until_dry-Frame use_data hu shut s h = h
  until_dry-Frame use_data hu (failed x) s h = h

  pub gdb_flush_socket-Frame : Keeps P gdb_flush_socket
  unfolding gdb_flush_socket flush_round
  gdb_flush_socket-Frame s h =
      repeat_inv flush_round P
        (after_recv-Frame (until_dry (λ bs s1. s1)) 256
          (until_dry-Frame (λ bs s1. s1) (λ bs s1 k. k)))
        (answers s.gdb.recv_events) tt s h

  pub write_buffer-Frame : (i : ℕ) (bs : List ℕ) → Keeps P (write_buffer i bs)
  unfolding write_buffer
  write_buffer-Frame i bs s h = f.keeps_gdb s _ h

  finish_message-Frame : Keeps P finish_message
  unfolding finish_message
  finish_message-Frame s h =
      let s1 = (gdb_send_ack s).1 in
      write_buffer-Frame s1.gdb.data_received (0 ∷ []) s1 (gdb_send_ack-Frame s h)

  give_up-Frame : Keeps P give_up
  unfolding give_up
  give_up-Frame s h =
      f.keeps_error _ rcv_timeout (write_buffer-Frame s.gdb.data_received (0 ∷ []) s h)

  after_data-Frame : (full complete : Bool) (s : State) → P s → P (after_data full complete s).1
  unfolding after_data
  after_data-Frame true complete s h = h
  after_data-Frame false true s h = finish_message-Frame s h
  after_data-Frame false false s h = h

  after_timeout-Frame : (late : Bool) (s : State) → P s → P (after_timeout late s).1
  unfolding after_timeout
  after_timeout-Frame true s h = give_up-Frame s h
  after_timeout-Frame false s h = h

  append_received-Frame : (bs : List ℕ) → Keeps P (append_received bs)
  unfolding append_received
  append_received-Frame bs s h = f.keeps_gdb s _ h

  message_answer-Frame :
      (timeout begun : ℕ) (r : Received) (s : State) → P s → P (message_answer timeout begun r s).1
  unfolding message_answer
  message_answer-Frame timeout begun (bytes []) s h = f.keeps_error s connection_closed h
  message_answer-Frame timeout begun (bytes (b ∷ bs)) s h =
      let s1 = (append_received (b ∷ bs) s).1 in
      after_data-Frame (buffer_is_full s1) (message_is_complete s1) s1
        (append_received-Frame (b ∷ bs) s h)
  message_answer-Frame timeout begun shut s h = f.keeps_error s connection_closed h
  message_answer-Frame timeout begun (failed timed_out) s h =
      after_timeout-Frame (ltb timeout (s.now - begun)) s h
  message_answer-Frame timeout begun (failed would_block) s h = f.keeps_error s socket h
  message_answer-Frame timeout begun (failed other_error) s h = f.keeps_error s socket h

  pub gdb_get_message-Frame : (timeout : ℕ) → Keeps P (gdb_get_message timeout)
  unfolding gdb_get_message message_round
  gdb_get_message-Frame timeout s h =
      let limit = if timeout == 0 then recv_timeout else timeout in
      repeat_inv (message_round limit s.now) P
        (λ s1 k.
          after_recv-Frame (message_answer limit s.now) (tcp_buff_length - s1.gdb.data_received)
            (message_answer-Frame limit s.now) s1 k)
        (answers s.gdb.recv_events) error _
        (write_buffer-Frame 0 (0 ∷ []) _ (f.keeps_gdb s (record s.gdb { data_received = 0 }) h))

  pub gdb_error_reported-Frame : Keeps P gdb_error_reported
  unfolding gdb_error_reported
  gdb_error_reported-Frame s h =
      Keeps-if_at P (not (peek s.gdb.message_buffer == b'$'))
        (true, record s { last_error = bad_msg_format })
        (if not (peek (drop 1 s.gdb.message_buffer) == b'E')
          then (false, s)
          else (true, record s { last_error = gdb_reported_error }))
        (f.keeps_error s bad_msg_format h)
        (Keeps-if_at P (not (peek (drop 1 s.gdb.message_buffer) == b'E')) (false, s)
          (true, record s { last_error = gdb_reported_error }) h
          (f.keeps_error s gdb_reported_error h))

  pub transact-Frame : (request : List ℕ) → Keeps P (transact request)
  unfolding transact
  transact-Frame request s h =
      let s1 = (write_buffer 0 (request ++ (0 ∷ [])) s).1 in
      Keeps-if_ok P (gdb_send request s1).0 (gdb_get_message 0) (gdb_get_message-Frame 0)
        (gdb_send request s1).1
        (gdb_send-Frame request s1 (write_buffer-Frame 0 (request ++ (0 ∷ [])) s h))
