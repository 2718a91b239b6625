-- ===== src/Scan.antt =====
-- What the program uses of the C library's `sscanf` and `strtoul`: white space, a sign, and digits to
-- a base. A number past `unsigned long` (64 bits) reads as the greatest, and %x and %u keep the low
-- 32 bits, as glibc does; the C standard leaves that case open.
pub mod Digits
use rteget_data_linux_compat.Hex.{hex_value}
use rteget_data_linux_compat.Prelude.{
  Bool, List, Option, [], false, if◌then◌else◌, leb, ltb, next, none, peek, some, toupper, true, ℕ,
  ◌%◌, ◌&&◌, ◌*◌, ◌+◌, ◌-◌, ◌==◌, ◌^◌, ◌||◌, ◌∷◌,
}
use mathlib.Core.Option

unfoldable pub is_space : ℕ → Bool
is_space c = c == 32 || leb 9 c && leb c 13

unfoldable pub skip_space : List ℕ → List ℕ
unfolding is_space
skip_space [] = []
skip_space (c ∷ p) = elim (is_space c) [ true ↦ skip_space p | false ↦ c ∷ p ]

-- The value of a digit to the base 10 or 16.
unfoldable pub digit_value : ℕ → ℕ → Option ℕ
unfolding hex_value
digit_value base c = elim (hex_value c) [
  | none ↦ none
  | some d ↦ if ltb d base then some d else none
]

-- The digits from `p` on, and what is behind them.
unfoldable pub scan_digits : ℕ → List ℕ → ℕ → ℕ × List ℕ
unfolding digit_value
scan_digits base [] n = (n, [])
scan_digits base (c ∷ p) n = elim (digit_value base c) [
  | none ↦ (n, c ∷ p)
  | some d ↦ scan_digits base p (n * base + d)
]

-- At least one digit.
unfoldable pub scan_unsigned : ℕ → List ℕ → Option (ℕ × List ℕ)
unfolding scan_digits
scan_unsigned base p = elim (digit_value base (peek p)) [
  | none ↦ none
  | some d ↦ some (scan_digits base p 0)
]

-- After 0x there must be a digit.
unfoldable pub scan_prefixed : ℕ → List ℕ → Option (ℕ × List ℕ)
unfolding scan_unsigned toupper
scan_prefixed base p =
    if base == 16 && (peek p == b'0' && toupper (peek (next p)) == b'X')
    then scan_unsigned base (next (next p))
    else scan_unsigned base p

unfoldable pub clamp_long : ℕ → ℕ
clamp_long n = if ltb n (2 ^ 64) then n else 2 ^ 64 - 1

-- strtoul: the value of `unsigned long`, and the pointer behind the number.
unfoldable pub scan_long : ℕ → List ℕ → Option (ℕ × List ℕ)
unfolding scan_prefixed clamp_long skip_space
scan_long base p =
    let q = skip_space p in
    if peek q == b'-'
    then Option.map (λ r. (if ltb r.0 (2 ^ 64) then (2 ^ 64 - r.0) % 2 ^ 64 else 2 ^ 64 - 1, r.1))
        (scan_prefixed base (next q))
    else Option.map (λ r. (clamp_long r.0, r.1))
        (scan_prefixed base (if peek q == b'+' then next q else q))

-- sscanf with %x (base 16) or %u (base 10).
unfoldable pub scan_word : ℕ → List ℕ → Option (ℕ × List ℕ)
unfolding scan_long
scan_word base p = Option.map (λ r. (r.0 % 2 ^ 32, r.1)) (scan_long base p)
