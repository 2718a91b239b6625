-- ===== src/Logger/Dump.antt =====
-- What the log of a communication shows.
use rteget_data_linux_compat.Hex.{get_hex_digit}
use rteget_data_linux_compat.Hex.RoundTrip.{get_hex_digit-hex_fixed}
use rteget_data_linux_compat.Logger.{hex_dump}
use rteget_data_linux_compat.Prelude.{
  List, [], ap, arith, drop, get_or, length, some, suc, true, zero, ℕ, ◌%◌, ◌*◌, ◌<◌, ◌∙◌, ◌∷◌, ◌≡◌,
}

three_columns : (i : ℕ) → suc i * 3 ≡ suc (suc (suc (i * 3)))
three_columns i = omega arith

-- The byte with the number `i` stands at the column 3 * i of the dump, as two digits that are read back.
pub get_hex_digit-hex_dump :
    (bs : List ℕ) (i : ℕ)
    → i < length bs
    → get_hex_digit (drop (i * 3) (hex_dump bs)) ≡ some (get_or bs i 0 % 256)
unfolding hex_dump
get_hex_digit-hex_dump [] i h = absurd (omega arith)
get_hex_digit-hex_dump (b ∷ bs) zero h =
    get_hex_digit-hex_fixed true (b % 256) (32 ∷ hex_dump bs) (omega arith)
get_hex_digit-hex_dump (b ∷ bs) (suc i) h =
    ap (λ n. get_hex_digit (drop n (hex_dump (b ∷ bs)))) (three_columns i)
    ∙ get_hex_digit-hex_dump bs i (omega arith)
