-- ===== src/Gdb/Packet.antt =====
-- One packet to and from the embedded memory: `gdb_send_command`, `read_memory_packet` and
-- `write_memory_packet` of Code/gdb_lib.cpp.
pub mod Reply
pub mod Exchange
pub mod Sound
pub mod Written
use rteget_data_linux_compat.Gdb.Message.{gdb_error_reported, gdb_get_message, write_buffer}
use rteget_data_linux_compat.Gdb.Socket.{gdb_send}
use rteget_data_linux_compat.Hex.{get_hex_digit, hex_fixed, print_hex}
use rteget_data_linux_compat.Prelude.{
  Bool, List, [], add32, codes, drop, false, if◌then◌else◌, leb, length, ltb, mul32, next, none,
  peek, some, starts_with, strchr, suc, true, zero, ℕ, ◌%◌, ◌*◌, ◌++◌, ◌+◌, ◌-◌, ◌==◌, ◌||◌, ◌∷◌,
}
use rteget_data_linux_compat.State.{
  ErrCode, M, Status, bad_input_data, bad_msg_checksum, bad_msg_format, bad_response, error, fail,
  if_ok, no_error, ok, pure, run_length_encoding_not_implemented, tcp_buff_length, ◌>>=◌, ◌>>◌,
}

-- unsigned char sum = 0; sum += … for `n` bytes from `p` on.
unfoldable pub sum_bytes : ℕ → List ℕ → ℕ → ℕ
sum_bytes zero p sum = sum
sum_bytes (suc n) p sum = sum_bytes n (next p) ((sum + peek p) % 256)

-- The text from '$' on, with '#' and two checksum digits.
unfoldable pub with_checksum : Bool → List ℕ → List ℕ
unfolding sum_bytes
with_checksum upper text =
    text ++ (b'#' ∷ hex_fixed upper 2 (sum_bytes (length text - 1) (next text) 0))

-- $m%08x,%02x
unfoldable pub read_request : ℕ → ℕ → List ℕ
unfolding with_checksum
read_request address size =
    with_checksum false
      (b'$' ∷ b'm' ∷ (print_hex false 8 address ++ (b',' ∷ print_hex false 2 size)))

-- The hexadecimal pairs at `p`, and whether all of them are pairs. The bytes that came before a bad
-- pair are stored all the same.
unfoldable pub copy_hex : ℕ → List ℕ → Status × List ℕ
copy_hex zero p = (ok, [])
copy_hex (suc n) p = elim (get_hex_digit p) [
  | none ↦ (error, [])
  | some v ↦ ((copy_hex n (next (next p))).0, v ∷ (copy_hex n (next (next p))).1)
]

-- What is stored of a message that is no error report, and the error that it sets.
unfoldable pub convert : ℕ → List ℕ → Status × List ℕ × ErrCode
unfolding copy_hex
convert size p = elim (copy_hex size p).0 [
  | ok ↦ (ok, (copy_hex size p).1, no_error)
  | error ↦ (error, (copy_hex size p).1, bad_msg_format)
]

-- The source doubles the size in 32 bits; the sizes that `bad_read_size` lets pass from the packet sizes
-- in force are far below 2 ^ 31, where this is the same.
unfoldable pub check_reply : ℕ → List ℕ → Status × List ℕ × ErrCode
unfolding strchr sum_bytes convert
check_reply size message = elim (strchr b'*' message) [
  | some p ↦ (error, [], run_length_encoding_not_implemented)
  | none ↦ elim (peek (drop (size * 2 + 1) message) == b'#') [
    | false ↦ (error, [], bad_msg_format)
    | true ↦ elim (get_hex_digit (drop (size * 2 + 2) message)) [
      | none ↦ (error, [], bad_msg_checksum)
      | some res ↦ elim (sum_bytes (size * 2) (next message) 0 == res) [
        | false ↦ (error, [], bad_msg_checksum)
        | true ↦ convert size (next message)
      ]
    ]
  ]
]

-- An error leaves its code in `last_error`; success leaves the code as it was.
unfoldable pub report : Status × List ℕ × ErrCode → M (Status × List ℕ)
report r s = elim r.0 [
  | ok ↦ ((ok, r.1), s)
  | error ↦ ((error, r.1), record s { last_error = r.2 })
]

unfoldable pub check_message : ℕ → M (Status × List ℕ)
unfolding gdb_error_reported check_reply report
check_message size = do
  reported ← gdb_error_reported
  if reported then pure (error, []) else λ s. report (check_reply size s.gdb.message_buffer) s

-- sprintf_s into `message_buffer`, gdb_send, and gdb_get_message(0).
unfoldable pub transact : List ℕ → M Status
unfolding gdb_send gdb_get_message write_buffer
transact request = do
  write_buffer 0 (request ++ (0 ∷ []))
  sent ← gdb_send request
  if_ok sent (gdb_get_message 0)

unfoldable pub read_answer : ℕ → Status → M (Status × List ℕ)
unfolding check_message
read_answer size ok s = check_message size s
read_answer size error s = ((error, []), s)

unfoldable pub bad_read_size : ℕ → Bool
bad_read_size size = ltb tcp_buff_length (add32 (mul32 size 2) 4) || size == 0

-- The bytes are what the packet stores at `buffer`.
unfoldable pub read_memory_packet : ℕ → ℕ → M (Status × List ℕ)
unfolding read_request transact read_answer bad_read_size
read_memory_packet address size s =
    if bad_read_size size
    then ((error, []), record s { last_error = bad_input_data })
    else (do got ← transact (read_request address size); read_answer size got) s

-- %02X of `n` bytes from `p` on.
unfoldable pub hex_bytes : ℕ → List ℕ → List ℕ
hex_bytes zero p = []
hex_bytes (suc n) p = hex_fixed true 2 (peek p) ++ hex_bytes n (next p)

-- $M%08X,%04X: and the data.
unfoldable pub write_request : List ℕ → ℕ → ℕ → List ℕ
unfolding with_checksum hex_bytes
write_request buffer address size = with_checksum true (
    b'$'
    ∷ b'M'
    ∷ (print_hex true 8 address
        ++ (b',' ∷ (print_hex true 4 size ++ (b':' ∷ hex_bytes size buffer)))))

unfoldable pub check_written : M Status
unfolding gdb_error_reported starts_with
check_written s =
    if starts_with s.gdb.message_buffer (codes "$OK#")
    then (ok, s)
    else (do reported ← gdb_error_reported; if reported then pure error else fail bad_response) s

unfoldable pub bad_write_size : ℕ → Bool
bad_write_size size = ltb tcp_buff_length (add32 (mul32 size 2) 20) || size == 0

unfoldable pub write_memory_packet : List ℕ → ℕ → ℕ → M Status
unfolding write_request transact check_written bad_write_size
write_memory_packet buffer address size s =
    if bad_write_size size
    then fail bad_input_data s
    else (do got ← transact (write_request buffer address size); if_ok got check_written) s

-- `sendbuff` is local and holds 1024 bytes.
unfoldable pub gdb_send_command : List ℕ → M Status
unfolding with_checksum gdb_send
gdb_send_command command s =
    if leb 1020 (length command)
    then fail bad_input_data s
    else gdb_send (with_checksum true (b'$' ∷ command)) s
