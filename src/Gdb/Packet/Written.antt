-- ===== src/Gdb/Packet/Written.antt =====
-- A write packet and its acknowledgement.
use rteget_data_linux_compat.Gdb.Message.Receive.{IsMessage}
use rteget_data_linux_compat.Gdb.Packet.{
  bad_write_size, check_written, copy_hex, hex_bytes, transact, with_checksum, write_memory_packet,
  write_request,
}
use rteget_data_linux_compat.Gdb.Packet.Exchange.{IsAnswered, exchanged, transact-answered}
use rteget_data_linux_compat.Gdb.Packet.Reply.{copy_hex_step}
use rteget_data_linux_compat.Hex.{hex_fixed}
use rteget_data_linux_compat.Hex.RoundTrip.{get_hex_digit-hex_fixed}
use rteget_data_linux_compat.Prelude.{
  All, IsByte, List, [], ap, arith, codes, false, if◌then◌else◌, length, refl, starts_with, suc,
  take, true, zero, ℕ, ◌++◌, ◌<◌, ◌∙◌, ◌∷◌, ◌≡◌, ◌≤◌,
}
use rteget_data_linux_compat.State.{
  M, RecvEvent, State, Status, bad_input_data, fail, if_ok, ok, ◌>>=◌,
}

-- The answer of a server that has written.
abbrev pub ok_answer : List ℕ
ok_answer = codes "$OK#9a"

pub ok_answer-IsMessage : IsMessage ok_answer
ok_answer-IsMessage = record { long_enough = omega arith; fits = omega arith; hash = refl }

good_write_size : (size : ℕ) → 0 < size → size ≤ 32757 → bad_write_size size ≡ false
unfolding bad_write_size
good_write_size size lo hi = ground arith

request_pos : (buffer : List ℕ) (address size : ℕ) → 0 < length (write_request buffer address size)
unfolding write_request with_checksum
request_pos buffer address size = omega arith

-- A write packet that the server acknowledges returns ok. What was sent is the request alone.
pub write_memory_packet-acknowledged :
    (buffer : List ℕ) (address n after : ℕ) (rest : List RecvEvent) (s : State)
    → 0 < n
    → n ≤ 32757
    → IsAnswered ok_answer after rest s
    → write_memory_packet buffer address n s
      ≡ (ok, exchanged (write_request buffer address n) ok_answer after rest s)
unfolding write_memory_packet check_written starts_with
write_memory_packet-acknowledged buffer address n after rest s lo hi h =
    ap (λ bad. if bad then fail bad_input_data s else go s) (good_write_size n lo hi)
    ∙ ap (λ (r : Status × State). if_ok r.0 check_written r.1)
        (transact-answered (write_request buffer address n) ok_answer after rest s
          (request_pos buffer address n) ok_answer-IsMessage h)
  where
    go : M Status
    go = do got ← transact (write_request buffer address n); if_ok got check_written

-- What a receiver that decodes pairs of digits makes of the data of a write request of `n` bytes: the
-- first `n` bytes of the buffer, whatever follows the digits.
pub copy_hex-hex_bytes :
    (n : ℕ) (buffer rest : List ℕ)
    → n ≤ length buffer
    → All IsByte buffer
    → copy_hex n (hex_bytes n buffer ++ rest) ≡ (ok, take n buffer)
unfolding hex_bytes copy_hex hex_fixed
copy_hex-hex_bytes zero buffer rest h b = refl
copy_hex-hex_bytes (suc n) [] rest h b = absurd (omega arith)
copy_hex-hex_bytes (suc n) (c ∷ buffer) rest h b =
    copy_hex_step n (hex_bytes (suc n) (c ∷ buffer) ++ rest)
      (get_hex_digit-hex_fixed true c (hex_bytes n buffer ++ rest) b.0)
      (copy_hex-hex_bytes n buffer rest (omega arith) b.1)
