-- ===== src/Hex.antt =====
-- Numbers as text: `get_hex_digit` of Code/gdb_lib.cpp, and the formats %d, %02x, %02X, %04X, %08x and
-- %08X by which it prints numbers.
pub mod RoundTrip
pub mod Text
use rteget_data_linux_compat.Prelude.{
  Bool, List, Option, [], if◌then◌else◌, leb, ltb, max, next, none, peek, some, suc, zero, ℕ, ◌%◌,
  ◌&&◌, ◌*◌, ◌++◌, ◌+◌, ◌-◌, ◌/◌, ◌∷◌,
}

-- The value of one hexadecimal digit of either case.
unfoldable pub hex_value : ℕ → Option ℕ
hex_value c =
    if leb b'0' c && leb c b'9'
    then some (c - b'0')
    else if leb b'A' c && leb c b'F'
    then some (c - b'A' + 10)
    else if leb b'a' c && leb c b'f'
    then some (c - b'a' + 10)
    else none

-- The loop of `get_hex_digit`, with the rounds left.
unfoldable pub hex_digits_loop : ℕ → List ℕ → ℕ → Option ℕ
hex_digits_loop zero p dec_val = some dec_val
hex_digits_loop (suc i) p dec_val = elim (hex_value (peek p)) [
  | none ↦ none
  | some d ↦ hex_digits_loop i (next p) (dec_val * 16 + d)
]

-- `none` is -1.
unfoldable pub get_hex_digit : List ℕ → Option ℕ
unfolding hex_digits_loop
get_hex_digit p = hex_digits_loop 2 p 0

unfoldable pub hex_char : Bool → ℕ → ℕ
hex_char upper d = if ltb d 10 then b'0' + d else if upper then b'A' + (d - 10) else b'a' + (d - 10)

-- The lowest `k` digits of `n`, the highest first.
unfoldable pub hex_fixed : Bool → ℕ → ℕ → List ℕ
unfolding hex_char
hex_fixed upper zero n = []
hex_fixed upper (suc k) n = hex_fixed upper k (n / 16) ++ (hex_char upper (n % 16) ∷ [])

-- How many digits a word has.
unfoldable pub hex_width : ℕ → ℕ → ℕ
hex_width zero n = 1
hex_width (suc k) n = let more = suc (hex_width k (n / 16)) in if ltb n 16 then 1 else more

-- %0Nx and %0NX of a 32-bit word: eight digits at most.
unfoldable pub print_hex : Bool → ℕ → ℕ → List ℕ
unfolding hex_fixed hex_width
print_hex upper width n = hex_fixed upper (max width (hex_width 8 n)) n

-- The digits of a number, with fuel for the digits.
unfoldable pub decimal_digits : ℕ → ℕ → List ℕ
decimal_digits zero n = []
decimal_digits (suc fuel) n =
    let rest = decimal_digits fuel (n / 10) in
    (if ltb n 10 then [] else rest) ++ ((b'0' + n % 10) ∷ [])

-- %d of a number below 10 ^ 10.
unfoldable pub print_decimal : ℕ → List ℕ
unfolding decimal_digits
print_decimal = decimal_digits 10
