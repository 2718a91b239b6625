-- ===== src/Gdb/Safety/Requests.antt =====
-- The lengths of the requests that are printed into `message_buffer`.
use rteget_data_linux_compat.Gdb.Packet.{
  hex_bytes, read_request, sum_bytes, with_checksum, write_request,
}
use rteget_data_linux_compat.Hex.{hex_char, hex_fixed, hex_width, print_hex}
use rteget_data_linux_compat.Prelude.{
  Bool, IsU32, List, [], arith, false, length, length-append, max, next, peek, refl, suc, true,
  zero, ℕ, ◌%◌, ◌*◌, ◌++◌, ◌+◌, ◌-◌, ◌/◌, ◌<◌, ◌∷◌, ◌≡◌, ◌≤◌,
}

pub length-hex_fixed : (upper : Bool) (k n : ℕ) → length (hex_fixed upper k n) ≡ k
unfolding hex_fixed
length-hex_fixed upper zero n = refl
length-hex_fixed upper (suc k) n = omega (
  arith,
  length-append (hex_fixed upper k (n / 16)) (hex_char upper (n % 16) ∷ []),
  length-hex_fixed upper k (n / 16),
)

hex_width_word : (n : ℕ) → IsU32 n → hex_width 8 n ≤ 8
unfolding hex_width
hex_width_word n h = ground arith

hex_width_half : (n : ℕ) → n < 65536 → hex_width 8 n ≤ 4
unfolding hex_width
hex_width_half n h = ground arith

-- %08x of a word.
pub length-print_hex_word : (upper : Bool) (n : ℕ) → IsU32 n → length (print_hex upper 8 n) ≡ 8
unfolding print_hex
length-print_hex_word upper n h =
    omega (arith, length-hex_fixed upper (max 8 (hex_width 8 n)) n, hex_width_word n h)

-- %02x and %04X of a number below 2 ^ 16.
pub length-print_hex_half :
    (upper : Bool) (width n : ℕ) → width ≤ 4 → n < 65536 → length (print_hex upper width n) ≤ 4
unfolding print_hex
length-print_hex_half upper width n hw h =
    omega (arith, length-hex_fixed upper (max width (hex_width 8 n)) n, hex_width_half n h)

pub length-with_checksum :
    (upper : Bool) (text : List ℕ) → length (with_checksum upper text) ≡ length text + 3
unfolding with_checksum
length-with_checksum upper text =
    let sum = sum_bytes (length text - 1) (next text) 0 in
    omega (arith, length-append text (b'#' ∷ hex_fixed upper 2 sum), length-hex_fixed upper 2 sum)

pub length-hex_bytes : (n : ℕ) (p : List ℕ) → length (hex_bytes n p) ≡ n * 2
unfolding hex_bytes
length-hex_bytes zero p = refl
length-hex_bytes (suc n) p = omega (
  arith,
  length-append (hex_fixed true 2 (peek p)) (hex_bytes n (next p)),
  length-hex_fixed true 2 (peek p),
  length-hex_bytes n (next p),
)

-- $m%08x,%02x#xx
pub length-read_request :
    (address size : ℕ) → IsU32 address → size < 65536 → length (read_request address size) ≤ 18
unfolding read_request
length-read_request address size ha hs =
    let number = print_hex false 2 size in
    let place = print_hex false 8 address in
    omega (
      arith,
      length-with_checksum false (b'$' ∷ b'm' ∷ (place ++ (b',' ∷ number))),
      length-append place (b',' ∷ number),
      length-print_hex_word false address ha,
      length-print_hex_half false 2 size (omega arith) hs,
    )

-- $M%08X,%04X:…#xx
pub length-write_request :
    (buffer : List ℕ) (address size : ℕ)
    → IsU32 address
    → size < 65536
    → length (write_request buffer address size) ≤ 19 + size * 2
unfolding write_request
length-write_request buffer address size ha hs =
    let digits = hex_bytes size buffer in
    let number = print_hex true 4 size in
    let place = print_hex true 8 address in
    omega (
      arith,
      length-with_checksum true (b'$' ∷ b'M' ∷ (place ++ (b',' ∷ (number ++ (b':' ∷ digits))))),
      length-append place (b',' ∷ (number ++ (b':' ∷ digits))),
      length-append number (b':' ∷ digits),
      length-print_hex_word true address ha,
      length-print_hex_half true 4 size (omega arith) hs,
      length-hex_bytes size buffer,
    )
