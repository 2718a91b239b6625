-- ===== src/Gdb/Memory/Answers.antt =====
-- A server that reads the requests: it looks for the address, the number of bytes and the data in them.
use rteget_data_linux_compat.Gdb.Memory.Block.{memory_block, stored}
use rteget_data_linux_compat.Gdb.Packet.{
  copy_hex, hex_bytes, read_request, sum_bytes, with_checksum, write_request,
}
use rteget_data_linux_compat.Gdb.Packet.Reply.{reply}
use rteget_data_linux_compat.Gdb.Packet.Written.{copy_hex-hex_bytes, ok_answer}
use rteget_data_linux_compat.Hex.{hex_fixed, hex_value, hex_width, print_hex}
use rteget_data_linux_compat.Prelude.{
  All, Bool, Bool-cases, IsByte, IsU32, List, [], ap, append_assoc, arith, codes, drop, false,
  if◌then◌else◌, inl, inr, length, ltb, max, next, none, refl, starts_with, suc, sym, take, true,
  zero, ℕ, ◌*◌, ◌++◌, ◌+◌, ◌-◌, ◌/◌, ◌<◌, ◌^◌, ◌∙◌, ◌∷◌, ◌≡◌, ◌≤◌,
}
use rteget_data_linux_compat.Scan.{digit_value, scan_digits}
use rteget_data_linux_compat.Scan.Digits.{scan_digits-end, scan_digits-hex_fixed}
use rteget_data_linux_compat.State.{RecvEvent, Status, bytes}
use mathlib.Core.Path.{subst}

-- The number in hexadecimal digits at `p`, and what is behind it.
request_number : List ℕ → ℕ × List ℕ
request_number p = scan_digits 16 p 0

-- The answer to a request, from a memory: $m asks for bytes, and any other request is acknowledged.
unfoldable pub answer : (ℕ → ℕ) → List ℕ → List ℕ
unfolding request_number starts_with memory_block
answer mem request =
    let address = request_number (drop 2 request) in
    let size = request_number (next address.1) in
    if starts_with request (codes "$m")
    then reply false (memory_block mem address.0 0 size.0)
    else ok_answer

-- The memory behind a request: $M stores the bytes whose digits it holds.
unfoldable pub memory_after : (ℕ → ℕ) → List ℕ → ℕ → ℕ
unfolding request_number starts_with stored
memory_after mem request =
    let address = request_number (drop 2 request) in
    let size = request_number (next address.1) in
    if starts_with request (codes "$M")
    then stored mem address.0 (copy_hex size.0 (next size.1)).1
    else mem

unfoldable pub memory_after_all : (ℕ → ℕ) → List (List ℕ) → ℕ → ℕ
unfolding memory_after
memory_after_all mem [] = mem
memory_after_all mem (q ∷ qs) = memory_after_all (memory_after mem q) qs

-- The answers to the requests, one after the other, and then `tail`.
unfoldable pub server_answers : (ℕ → ℕ) → List (List ℕ) → List RecvEvent → List RecvEvent
unfolding answer memory_after
server_answers mem [] tail = tail
server_answers mem (q ∷ qs) tail =
    record { after = 0; what = bytes (answer mem q) } ∷ server_answers (memory_after mem q) qs tail

pub server_answers-append :
    (mem : ℕ → ℕ) (qs rs : List (List ℕ)) (tail : List RecvEvent)
    → server_answers mem (qs ++ rs) tail
      ≡ server_answers mem qs (server_answers (memory_after_all mem qs) rs tail)
unfolding server_answers memory_after_all
server_answers-append mem [] rs tail = refl
server_answers-append mem (q ∷ qs) rs tail =
    ap (λ l. record { after = 0; what = bytes (answer mem q) } ∷ l)
      (server_answers-append (memory_after mem q) qs rs tail)

below_power : (a k n : ℕ) → n < 16 ^ a → n < 16 ^ (a + k)
below_power a zero n h = let same : a + 0 ≡ a = omega arith in subst (λ e. n < 16 ^ e) (sym same) h
below_power a (suc k) n h =
    let more : a + suc k ≡ suc (a + k) = omega arith in
    let power : 16 ^ suc (a + k) ≡ 16 * 16 ^ (a + k) = omega arith in
    subst (λ e. n < 16 ^ e) (sym more) (omega (arith, below_power a k n h, power))

hex_width_fits : (k n : ℕ) → n < 16 ^ suc k → n < 16 ^ hex_width k n
unfolding hex_width
hex_width_fits zero n h = h
hex_width_fits (suc k) n h = elim (Bool-cases (ltb n 16)) [
  | inl e ↦ let small : n < 16 = ground arith in rw (e, hex_width) small
  | inr e ↦
      let power : 16 ^ suc (suc k) ≡ 16 * 16 ^ suc k = omega arith in
      let ih = hex_width_fits k (n / 16) (omega (arith, h, power)) in
      let wide : 16 ^ suc (hex_width k (n / 16)) ≡ 16 * 16 ^ hex_width k (n / 16) = omega arith in
      rw (e, hex_width) (omega (arith, ih, wide))
]

-- A number that is printed is read back, whatever its width.
request_number-print_hex :
    (upper : Bool) (width n c : ℕ) (rest : List ℕ)
    → IsU32 n
    → digit_value 16 c ≡ none
    → request_number (print_hex upper width n ++ (c ∷ rest)) ≡ (n, c ∷ rest)
unfolding request_number print_hex
request_number-print_hex upper width n c rest h e =
    let w = hex_width 8 n in
    let wide : w + (max width w - w) ≡ max width w = omega arith in
    let fits : n < 16 ^ w = hex_width_fits 8 n (omega (arith, h)) in
    scan_digits-hex_fixed upper (max width w) n (c ∷ rest)
      (subst (λ k. n < 16 ^ k) wide (below_power w (max width w - w) n fits))
    ∙ scan_digits-end 16 (c ∷ rest) n e

block_reply : (ℕ → ℕ) → ℕ × List ℕ → List ℕ
unfolding request_number memory_block
block_reply mem address =
    reply false (memory_block mem address.0 0 (request_number (next address.1)).0)

stored_data : (ℕ → ℕ) → ℕ × List ℕ → ℕ → ℕ
unfolding request_number stored
stored_data mem address =
    let size = request_number (next address.1) in
    stored mem address.0 (copy_hex size.0 (next size.1)).1

comma_no_digit : digit_value 16 b',' ≡ none
unfolding digit_value hex_value
comma_no_digit = refl

hash_no_digit : digit_value 16 b'#' ≡ none
unfolding digit_value hex_value
hash_no_digit = refl

colon_no_digit : digit_value 16 b':' ≡ none
unfolding digit_value hex_value
colon_no_digit = refl

-- The server finds the address and the number of bytes in the request of read_memory_packet.
pub answer-read_request :
    (mem : ℕ → ℕ) (address n : ℕ)
    → IsU32 address
    → IsU32 n
    → answer mem (read_request address n) ≡ reply false (memory_block mem address 0 n)
unfolding answer read_request with_checksum starts_with block_reply
answer-read_request mem address n ha hn =
    let pa = print_hex false 8 address in
    let pn = print_hex false 2 n in
    let text = b'$' ∷ b'm' ∷ (pa ++ (b',' ∷ pn)) in
    let sum = hex_fixed false 2 (sum_bytes (length text - 1) (next text) 0) in
    ap (λ l. block_reply mem (request_number l)) (append_assoc pa (b',' ∷ pn) (b'#' ∷ sum))
    ∙ ap (block_reply mem)
        (request_number-print_hex false 8 address b',' (pn ++ (b'#' ∷ sum)) ha comma_no_digit)
    ∙ ap (λ (q : ℕ × List ℕ). reply false (memory_block mem address 0 q.0))
        (request_number-print_hex false 2 n b'#' sum hn hash_no_digit)

pub memory_after-read_request :
    (mem : ℕ → ℕ) (address n : ℕ) → memory_after mem (read_request address n) ≡ mem
unfolding memory_after read_request with_checksum starts_with
memory_after-read_request mem address n = refl

pub answer-write_request :
    (mem : ℕ → ℕ) (buffer : List ℕ) (address n : ℕ)
    → answer mem (write_request buffer address n) ≡ ok_answer
unfolding answer write_request with_checksum starts_with
answer-write_request mem buffer address n = refl

-- The server stores the bytes of the buffer that write_memory_packet was told to write.
pub memory_after-write_request :
    (mem : ℕ → ℕ) (buffer : List ℕ) (address n : ℕ)
    → IsU32 address
    → IsU32 n
    → n ≤ length buffer
    → All IsByte buffer
    → memory_after mem (write_request buffer address n) ≡ stored mem address (take n buffer)
unfolding memory_after write_request with_checksum starts_with stored_data
memory_after-write_request mem buffer address n ha hn hb b =
    let pa = print_hex true 8 address in
    let pn = print_hex true 4 n in
    let digits = hex_bytes n buffer in
    let text = b'$' ∷ b'M' ∷ (pa ++ (b',' ∷ (pn ++ (b':' ∷ digits)))) in
    let end = b'#' ∷ hex_fixed true 2 (sum_bytes (length text - 1) (next text) 0) in
    ap (λ l. stored_data mem (request_number l))
      (append_assoc pa (b',' ∷ (pn ++ (b':' ∷ digits))) end)
    ∙ ap (stored_data mem) (
        request_number-print_hex true 8 address b',' ((pn ++ (b':' ∷ digits)) ++ end) ha
          comma_no_digit)
    ∙ ap (λ l. stored_data mem (address, b',' ∷ l)) (append_assoc pn (b':' ∷ digits) end)
    ∙ ap (λ (q : ℕ × List ℕ). stored mem address (copy_hex q.0 (next q.1)).1)
        (request_number-print_hex true 4 n b':' (digits ++ end) hn colon_no_digit)
    ∙ ap (λ (q : Status × List ℕ). stored mem address q.1) (copy_hex-hex_bytes n buffer end hb b)
