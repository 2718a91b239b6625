-- ===== src/Hex/Text.antt =====
-- The hexadecimal text of a sequence of bytes, as the GDB protocol writes it.
use rteget_data_linux_compat.Hex.{hex_char, hex_fixed}
use rteget_data_linux_compat.Prelude.{
  All, Bool, List, [], arith, length, refl, ℕ, ◌%◌, ◌*◌, ◌++◌, ◌+◌, ◌/◌, ◌<◌, ◌∷◌, ◌≡◌, ◌≤◌,
}

abbrev pub total : List ℕ → ℕ
total [] = 0
total (x ∷ xs) = x + total xs

-- Two digits a byte.
abbrev pub hex_text : Bool → List ℕ → List ℕ
hex_text upper [] = []
hex_text upper (b ∷ bs) = hex_fixed upper 2 b ++ hex_text upper bs

abbrev pub IsHexChar : ℕ → Type 0
IsHexChar c = (48 ≤ c) × (c ≤ 102)

hex_char-IsHexChar : (upper : Bool) (d : ℕ) → d < 16 → IsHexChar (hex_char upper d)
unfolding hex_char
hex_char-IsHexChar upper d h = ground arith

pub hex_fixed_two :
    (upper : Bool) (b : ℕ)
    → hex_fixed upper 2 b ≡ hex_char upper (b / 16 % 16) ∷ hex_char upper (b % 16) ∷ []
unfolding hex_fixed
hex_fixed_two upper b = refl

pub hex_text-IsHexChar : (upper : Bool) (bs : List ℕ) → All IsHexChar (hex_text upper bs)
hex_text-IsHexChar upper [] = tt
hex_text-IsHexChar upper (b ∷ bs) = rw (hex_fixed_two upper b) (
  hex_char-IsHexChar upper (b / 16 % 16) (omega arith),
  (hex_char-IsHexChar upper (b % 16) (omega arith), hex_text-IsHexChar upper bs),
)

pub length-hex_text : (upper : Bool) (bs : List ℕ) → length (hex_text upper bs) ≡ length bs * 2
length-hex_text upper [] = omega arith
length-hex_text upper (b ∷ bs) =
    rw (hex_fixed_two upper b) (omega (arith, length-hex_text upper bs))
