-- ===== src/Gdb/Message/Limits.antt =====
-- The bounds of `message_buffer` while a message is received.
use rteget_data_linux_compat.Gdb.Message.{
  after_data, after_timeout, append_received, buffer_is_full, finish_message, gdb_get_message,
  give_up, message_answer, message_is_complete, message_round, recv_timeout, write_buffer,
}
use rteget_data_linux_compat.Gdb.Socket.{answers, gdb_send_ack, pieces, recv}
use rteget_data_linux_compat.Gdb.Socket.Receives.{recv-Receives}
use rteget_data_linux_compat.Gdb.Socket.Sends.{gdb_send_ack-KeepsReceived}
use rteget_data_linux_compat.Loop.{repeat_ends}
use rteget_data_linux_compat.Prelude.{
  Bool, List, [], ap, arith, false, if◌then◌else◌, length, length-blit, ltb, none, refl, true, ℕ,
  ◌-◌, ◌<◌, ◌==◌, ◌∷◌, ◌≡◌, ◌≤◌,
}
use rteget_data_linux_compat.State.{
  Received, State, bytes, error, failed, other_error, shut, tcp_buff_length, timed_out, would_block,
}

-- No write has gone beyond the buffer.
abbrev pub InBuffer : State → Type 0
InBuffer s = length s.gdb.message_buffer ≤ tcp_buff_length

-- There is room for more, and for the zero behind it.
abbrev HasRoom : State → Type 0
HasRoom s = InBuffer s × (s.gdb.data_received < 65534)

terminated-InBuffer :
    (s : State) → HasRoom s → InBuffer (write_buffer s.gdb.data_received (0 ∷ []) s).1
unfolding write_buffer
terminated-InBuffer s h =
    omega (arith, length-blit s.gdb.message_buffer s.gdb.data_received (0 ∷ []), h.0, h.1)

finish_message-InBuffer : (s : State) → HasRoom s → InBuffer (finish_message s).1
unfolding finish_message
finish_message-InBuffer s h =
    let k = gdb_send_ack-KeepsReceived s in
    terminated-InBuffer (gdb_send_ack s).1
      (omega (arith, ap length k.0, h.0), omega (arith, k.1, h.1))

give_up-InBuffer : (s : State) → HasRoom s → InBuffer (give_up s).1
unfolding give_up
give_up-InBuffer s h = terminated-InBuffer s h

-- Behind a segment that fits: the buffer is full, or there is room.
after_data-InBuffer :
    (full complete : Bool) (s : State)
    → InBuffer s
    → (full ≡ false → HasRoom s)
    → InBuffer (after_data full complete s).1
      × ((after_data full complete s).0 ≡ none → HasRoom (after_data full complete s).1)
unfolding after_data
after_data-InBuffer true complete s h k = (h, λ e. absurd (ground arith))
after_data-InBuffer false true s h k =
    (finish_message-InBuffer s (k refl), λ e. absurd (ground arith))
after_data-InBuffer false false s h k = (h, λ e. k refl)

not_full-HasRoom : (s : State) → InBuffer s → buffer_is_full s ≡ false → HasRoom s
unfolding buffer_is_full
not_full-HasRoom s h e = (h, ground arith)

appended-InBuffer :
    (bs : List ℕ) (s : State)
    → HasRoom s
    → length bs ≤ tcp_buff_length - s.gdb.data_received
    → InBuffer (append_received bs s).1
unfolding append_received
appended-InBuffer bs s h fits =
    omega (arith, length-blit s.gdb.message_buffer s.gdb.data_received bs, h.0, h.1)

after_timeout-InBuffer :
    (late : Bool) (s : State)
    → HasRoom s
    → InBuffer (after_timeout late s).1
      × ((after_timeout late s).0 ≡ none → HasRoom (after_timeout late s).1)
unfolding after_timeout
after_timeout-InBuffer true s h = (give_up-InBuffer s h, λ e. absurd (ground arith))
after_timeout-InBuffer false s h = (h.0, λ e. h)

message_answer-InBuffer :
    (timeout start : ℕ) (r : Received) (s : State)
    → HasRoom s
    → pieces r ≤ tcp_buff_length - s.gdb.data_received
    → InBuffer (message_answer timeout start r s).1
      × ((message_answer timeout start r s).0 ≡ none → HasRoom (message_answer timeout start r s).1)
unfolding message_answer
message_answer-InBuffer timeout start (bytes []) s h fits = (h.0, λ e. absurd (ground arith))
message_answer-InBuffer timeout start (bytes (b ∷ bs)) s h fits =
    let s1 = (append_received (b ∷ bs) s).1 in
    let k = appended-InBuffer (b ∷ bs) s h fits in
    after_data-InBuffer (buffer_is_full s1) (message_is_complete s1) s1 k (not_full-HasRoom s1 k)
message_answer-InBuffer timeout start shut s h fits = (h.0, λ e. absurd (ground arith))
message_answer-InBuffer timeout start (failed timed_out) s h fits =
    after_timeout-InBuffer (ltb timeout (s.now - start)) s h
message_answer-InBuffer timeout start (failed would_block) s h fits =
    (h.0, λ e. absurd (ground arith))
message_answer-InBuffer timeout start (failed other_error) s h fits =
    (h.0, λ e. absurd (ground arith))

message_round-InBuffer :
    (timeout start : ℕ) (s : State)
    → HasRoom s
    → InBuffer (message_round timeout start s).1
      × ((message_round timeout start s).0 ≡ none → HasRoom (message_round timeout start s).1)
unfolding message_round
message_round-InBuffer timeout start s h =
    let n = tcp_buff_length - s.gdb.data_received in
    let k = recv-Receives n s in
    message_answer-InBuffer timeout start (recv n s).0 (recv n s).1
      (omega (arith, ap length k.buffer, h.0), omega (arith, k.received, h.1))
      (omega (arith, k.piece, k.received))

-- Whatever the server sends, and in whatever segments, with acknowledgements or without, `gdb_get_message` never writes beyond
-- the end of `message_buffer`, its terminating zero included.
pub gdb_get_message-InBuffer :
    (timeout : ℕ) (s : State) → InBuffer s → InBuffer (gdb_get_message timeout s).1
unfolding gdb_get_message write_buffer
gdb_get_message-InBuffer timeout s h =
    let limit = if timeout == 0 then recv_timeout else timeout in
    repeat_ends (message_round limit s.now) HasRoom InBuffer (λ s1 k. k.0)
      (λ s1 k. (message_round-InBuffer limit s.now s1 k).1)
      (λ s1 k. (message_round-InBuffer limit s.now s1 k).0) (answers s.gdb.recv_events) error _
      (omega (arith, length-blit s.gdb.message_buffer 0 (0 ∷ []), h), omega arith)
