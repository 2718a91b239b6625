-- ===== src/Gdb/Safety/Packets.antt =====
-- Packets and blocks keep `message_buffer` within its bounds.
use rteget_data_linux_compat.Gdb.Message.{gdb_error_reported, gdb_get_message, write_buffer}
use rteget_data_linux_compat.Gdb.Message.Limits.{InBuffer, gdb_get_message-InBuffer}
use rteget_data_linux_compat.Gdb.Packet.{
  bad_read_size, bad_write_size, check_message, check_reply, check_written, read_answer,
  read_memory_packet, read_request, report, transact, write_memory_packet, write_request,
}
use rteget_data_linux_compat.Gdb.Safety.Requests.{length-read_request, length-write_request}
use rteget_data_linux_compat.Gdb.Safety.Socket.{gdb_send-Keeps, write_buffer-Keeps}
use rteget_data_linux_compat.Gdb.Socket.{gdb_send}
use rteget_data_linux_compat.Keeps.{Keeps, Keeps-if, Keeps-if_at, Keeps-if_ok}
use rteget_data_linux_compat.Prelude.{
  Bool-cases, IsU32, List, [], arith, codes, drop, false, if◌then◌else◌, inl, inr, length,
  length-append, not, peek, starts_with, true, ℕ, ◌++◌, ◌-◌, ◌<◌, ◌==◌, ◌^◌, ◌∷◌, ◌≡◌,
}
use rteget_data_linux_compat.State.{
  ErrCode, Status, bad_msg_format, bad_response, error, fail, gdb_reported_error, ok, pure,
  tcp_buff_length, ◌>>=◌,
}

pub gdb_error_reported-Keeps : Keeps InBuffer gdb_error_reported
unfolding gdb_error_reported
gdb_error_reported-Keeps s h =
    Keeps-if_at InBuffer (not (peek s.gdb.message_buffer == b'$'))
      (true, record s { last_error = bad_msg_format })
      (if not (peek (drop 1 s.gdb.message_buffer) == b'E')
        then (false, s)
        else (true, record s { last_error = gdb_reported_error }))
      h
      (Keeps-if_at InBuffer (not (peek (drop 1 s.gdb.message_buffer) == b'E')) (false, s)
        (true, record s { last_error = gdb_reported_error }) h h)

pub transact-Keeps :
    (request : List ℕ) → length request < tcp_buff_length → Keeps InBuffer (transact request)
unfolding transact
transact-Keeps request fits s h =
    let s1 = (write_buffer 0 (request ++ (0 ∷ [])) s).1 in
    Keeps-if_ok InBuffer (gdb_send request s1).0 (gdb_get_message 0) (gdb_get_message-InBuffer 0)
      (gdb_send request s1).1
      (gdb_send-Keeps request s1 (
        write_buffer-Keeps 0 (request ++ (0 ∷ []))
          (omega (arith, length-append request (0 ∷ []), fits)) s h))

report-Keeps : (r : Status × List ℕ × ErrCode) → Keeps InBuffer (report r)
unfolding report
report-Keeps (ok, bs, e) s h = h
report-Keeps (error, bs, e) s h = h

check_message-Keeps : (size : ℕ) → Keeps InBuffer (check_message size)
unfolding check_message
check_message-Keeps size s h =
    Keeps-if InBuffer (gdb_error_reported s).0 (pure (error, []))
      (λ s1. report (check_reply size s1.gdb.message_buffer) s1) (λ s1 k. k)
      (λ s1. report-Keeps (check_reply size s1.gdb.message_buffer) s1) (gdb_error_reported s).1
      (gdb_error_reported-Keeps s h)

read_answer-Keeps : (size : ℕ) (got : Status) → Keeps InBuffer (read_answer size got)
unfolding read_answer
read_answer-Keeps size ok s h = check_message-Keeps size s h
read_answer-Keeps size error s h = h

-- The sizes for which 2 * size + 20 does not wrap around.
abbrev pub max_block : ℕ
max_block = 2 ^ 31 - 10

read_size_fits : (size : ℕ) → size < max_block → bad_read_size size ≡ false → size < 32768
unfolding bad_read_size
read_size_fits size h e = ground arith

write_size_fits : (size : ℕ) → size < max_block → bad_write_size size ≡ false → size < 32758
unfolding bad_write_size
write_size_fits size h e = ground arith

pub read_memory_packet-Keeps :
    (address size : ℕ)
    → IsU32 address
    → size < max_block
    → Keeps InBuffer (read_memory_packet address size)
unfolding read_memory_packet
read_memory_packet-Keeps address size ha hs s h = elim (Bool-cases (bad_read_size size)) [
  | inl e ↦ rw (e, read_memory_packet) h
  | inr e ↦
      rw (e, read_memory_packet)
        (read_answer-Keeps size (transact (read_request address size) s).0
          (transact (read_request address size) s).1
          (transact-Keeps (read_request address size)
            (omega (
              arith,
              length-read_request address size ha (omega (arith, read_size_fits size hs e)),
            ))
            s h))
]

check_written-Keeps : Keeps InBuffer check_written
unfolding check_written
check_written-Keeps s h =
    Keeps-if_at InBuffer (starts_with s.gdb.message_buffer (codes "$OK#")) (ok, s)
      ((do reported ← gdb_error_reported; if reported then pure error else fail bad_response) s) h
      (Keeps-if InBuffer (gdb_error_reported s).0 (pure error) (fail bad_response) (λ s1 k. k)
        (λ s1 k. k) (gdb_error_reported s).1 (gdb_error_reported-Keeps s h))

pub write_memory_packet-Keeps :
    (buffer : List ℕ) (address size : ℕ)
    → IsU32 address
    → size < max_block
    → Keeps InBuffer (write_memory_packet buffer address size)
unfolding write_memory_packet
write_memory_packet-Keeps buffer address size ha hs s h = elim (Bool-cases (bad_write_size size)) [
  | inl e ↦ rw (e, write_memory_packet) h
  | inr e ↦
      rw (e, write_memory_packet)
        (Keeps-if_ok InBuffer (transact (write_request buffer address size) s).0 check_written
          check_written-Keeps (transact (write_request buffer address size) s).1
          (transact-Keeps (write_request buffer address size)
            (omega (
              arith,
              length-write_request buffer address size ha
                  (omega (arith, write_size_fits size hs e)),
              write_size_fits size hs e,
            ))
            s h))
]
