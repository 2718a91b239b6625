-- ===== src/Hex/RoundTrip.antt =====
-- Printed hexadecimal bytes are read back.
use rteget_data_linux_compat.Hex.{get_hex_digit, hex_char, hex_fixed, hex_value}
use rteget_data_linux_compat.Prelude.{
  Bool, IsByte, List, ap, arith, false, some, true, ℕ, ◌%◌, ◌*◌, ◌++◌, ◌+◌, ◌/◌, ◌<◌, ◌∙◌, ◌∷◌, ◌≡◌,
}

pub hex_value-hex_char : (upper : Bool) (d : ℕ) → d < 16 → hex_value (hex_char upper d) ≡ some d
unfolding hex_value hex_char
hex_value-hex_char true d h = ground arith
hex_value-hex_char false d h = ground arith

hex_pair :
    (upper : Bool) (a b : ℕ) (rest : List ℕ)
    → a < 16
    → b < 16
    → get_hex_digit (hex_char upper a ∷ hex_char upper b ∷ rest) ≡ some ((0 * 16 + a) * 16 + b)
unfolding get_hex_digit
hex_pair upper a b rest ha hb =
    ground (arith, hex_value-hex_char upper a, hex_value-hex_char upper b)

-- Whatever stands behind them, the two digits of a byte, in either case, give the byte.
pub get_hex_digit-hex_fixed :
    (upper : Bool) (b : ℕ) (rest : List ℕ)
    → IsByte b
    → get_hex_digit (hex_fixed upper 2 b ++ rest) ≡ some b
unfolding hex_fixed
get_hex_digit-hex_fixed upper b rest h =
    hex_pair upper (b / 16 % 16) (b % 16) rest (omega arith) (omega arith) ∙ ap some (omega arith)

-- A pair that is read gives a byte.
pub get_hex_digit-lt : (p : List ℕ) {v : ℕ} → get_hex_digit p ≡ some v → v < 256
unfolding get_hex_digit hex_value
get_hex_digit-lt p h = ground arith
