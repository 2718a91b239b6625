-- ===== src/Gdb/Frame/Whole.antt =====
-- The operations of the GDB client change nothing else: blocks of memory, and the messages that come
-- unasked.
use rteget_data_linux_compat.Gdb.Frame.{
  after_recv-Frame, gdb_error_reported-Frame, transact-Frame, until_dry-Frame, write_buffer-Frame,
}
use rteget_data_linux_compat.Gdb.Memory.{
  after_read, after_write, gdb_read_memory, gdb_write_memory, packet_size, read_memory_loop,
  write_memory_loop,
}
use rteget_data_linux_compat.Gdb.Message.{gdb_error_reported, write_buffer}
use rteget_data_linux_compat.Gdb.Packet.{
  bad_read_size, bad_write_size, check_message, check_reply, check_written, read_answer,
  read_memory_packet, read_request, report, transact, write_memory_packet, write_request,
}
use rteget_data_linux_compat.Gdb.Session.{gdb_handle_unexpected_messages, unexpected_round}
use rteget_data_linux_compat.Gdb.Socket.{answers, until_dry}
use rteget_data_linux_compat.Keeps.{IsFrame, Keeps, Keeps-if, Keeps-if_at, Keeps-if_ok}
use rteget_data_linux_compat.Loop.{repeat_inv}
use rteget_data_linux_compat.Prelude.{
  Bool-cases, List, [], add32, codes, drop, if◌then◌else◌, inl, inr, ltb, starts_with, suc, zero, ℕ,
  ◌+◌, ◌-◌,
}
use rteget_data_linux_compat.State.{
  ErrCode, M, State, Status, bad_input_data, bad_response, error, fail, ok, pure, tcp_buff_length,
  ◌>>=◌,
}

module _ {κ} (P : State → Type κ) (f : IsFrame P) where
  report-Frame : (r : Status × List ℕ × ErrCode) → Keeps P (report r)
  unfolding report
  report-Frame (ok, bs, e) s h = h
  report-Frame (error, bs, e) s h = f.keeps_error s e h

  check_message-Frame : (size : ℕ) → Keeps P (check_message size)
  unfolding check_message
  check_message-Frame size s h =
      Keeps-if P (gdb_error_reported s).0 (pure (error, []))
        (λ s1. report (check_reply size s1.gdb.message_buffer) s1) (λ s1 k. k)
        (λ s1. report-Frame (check_reply size s1.gdb.message_buffer) s1) (gdb_error_reported s).1
        (gdb_error_reported-Frame P f s h)

  read_answer-Frame : (size : ℕ) (got : Status) → Keeps P (read_answer size got)
  unfolding read_answer
  read_answer-Frame size ok s h = check_message-Frame size s h
  read_answer-Frame size error s h = h

  read_memory_packet-Frame : (address size : ℕ) → Keeps P (read_memory_packet address size)
  unfolding read_memory_packet
  read_memory_packet-Frame address size s h = elim (Bool-cases (bad_read_size size)) [
    | inl e ↦ rw (e, read_memory_packet) (f.keeps_error s bad_input_data h)
    | inr e ↦
        let r = transact (read_request address size) s in
        rw (e, read_memory_packet)
          (read_answer-Frame size r.0 r.1 (transact-Frame P f (read_request address size) s h))
  ]

  check_written-Frame : Keeps P check_written
  unfolding check_written
  check_written-Frame s h =
      Keeps-if_at P (starts_with s.gdb.message_buffer (codes "$OK#")) (ok, s)
        ((do reported ← gdb_error_reported; if reported then pure error else fail bad_response) s) h
        (Keeps-if P (gdb_error_reported s).0 (pure error) (fail bad_response) (λ s1 k. k)
          (λ s1 k. f.keeps_error s1 bad_response k) (gdb_error_reported s).1
          (gdb_error_reported-Frame P f s h))

  write_memory_packet-Frame :
      (buffer : List ℕ) (address size : ℕ) → Keeps P (write_memory_packet buffer address size)
  unfolding write_memory_packet
  write_memory_packet-Frame buffer address size s h = elim (Bool-cases (bad_write_size size)) [
    | inl e ↦ rw (e, write_memory_packet) (f.keeps_error s bad_input_data h)
    | inr e ↦
        let r = transact (write_request buffer address size) s in
        rw (e, write_memory_packet)
          (Keeps-if_ok P r.0 check_written check_written-Frame r.1
            (transact-Frame P f (write_request buffer address size) s h))
  ]

  after_read-Frame :
      (size data_read : ℕ) (again : ℕ → M (Status × List ℕ)) (r : Status × List ℕ)
      → Keeps P (again data_read)
      → Keeps P (after_read size data_read again r)
  unfolding after_read
  after_read-Frame size data_read again (error, bs) k s h = h
  after_read-Frame size data_read again (ok, bs) k s h = elim (Bool-cases (ltb data_read size)) [
    | inl e ↦ rw (e, after_read) (k s h)
    | inr e ↦ rw (e, after_read) h
  ]

  read_memory_loop-Frame :
      (fuel address size data_read : ℕ) → Keeps P (read_memory_loop fuel address size data_read)
  unfolding read_memory_loop
  read_memory_loop-Frame zero address size data_read s h = h
  read_memory_loop-Frame (suc fuel) address size data_read s h =
      let n = packet_size (size - data_read) s.gdb.max_memo_read_packet_size in
      let r = read_memory_packet (add32 address data_read) n s in
      after_read-Frame size (data_read + n) (read_memory_loop fuel address size) r.0
        (read_memory_loop-Frame fuel address size (data_read + n)) r.1
        (read_memory_packet-Frame (add32 address data_read) n s h)

  pub gdb_read_memory-Frame : (address size : ℕ) → Keeps P (gdb_read_memory address size)
  unfolding gdb_read_memory
  gdb_read_memory-Frame address size = read_memory_loop-Frame (suc size) address size 0

  after_write-Frame :
      (size data_written : ℕ) (again : ℕ → M Status) (r : Status)
      → Keeps P (again data_written)
      → Keeps P (after_write size data_written again r)
  unfolding after_write
  after_write-Frame size data_written again error k s h = h
  after_write-Frame size data_written again ok k s h = elim (Bool-cases (ltb data_written size)) [
    | inl e ↦ rw (e, after_write) (k s h)
    | inr e ↦ rw (e, after_write) h
  ]

  write_memory_loop-Frame :
      (fuel : ℕ) (buffer : List ℕ) (address size data_written : ℕ)
      → Keeps P (write_memory_loop fuel buffer address size data_written)
  unfolding write_memory_loop
  write_memory_loop-Frame zero buffer address size data_written s h = h
  write_memory_loop-Frame (suc fuel) buffer address size data_written s h =
      let n = packet_size (size - data_written) s.gdb.max_memo_write_packet_size in
      let r = write_memory_packet (drop data_written buffer) (add32 address data_written) n s in
      after_write-Frame size (data_written + n) (write_memory_loop fuel buffer address size) r.0
        (write_memory_loop-Frame fuel buffer address size (data_written + n)) r.1
        (write_memory_packet-Frame (drop data_written buffer) (add32 address data_written) n s h)

  pub gdb_write_memory-Frame :
      (buffer : List ℕ) (address size : ℕ) → Keeps P (gdb_write_memory buffer address size)
  unfolding gdb_write_memory
  gdb_write_memory-Frame buffer address size =
      write_memory_loop-Frame (suc size) buffer address size 0

  pub gdb_handle_unexpected_messages-Frame : Keeps P gdb_handle_unexpected_messages
  unfolding gdb_handle_unexpected_messages unexpected_round
  gdb_handle_unexpected_messages-Frame s h =
      let store = λ (bs : List ℕ) (s1 : State). (write_buffer 0 bs s1).1 in
      repeat_inv unexpected_round P
        (after_recv-Frame P f (until_dry store) tcp_buff_length
          (until_dry-Frame P f store (λ bs s1 k. write_buffer-Frame P f 0 bs s1 k)))
        (answers s.gdb.recv_events) tt s h
