-- ===== src/Scan/Digits.antt =====
-- Numbers that are printed are read back.
use rteget_data_linux_compat.Hex.{decimal_digits, hex_char, hex_fixed, hex_value}
use rteget_data_linux_compat.Hex.RoundTrip.{hex_value-hex_char}
use rteget_data_linux_compat.Prelude.{
  Bool, Bool-cases, List, Option, [], ap, append_assoc, arith, false, if◌then◌else◌, inl, inr, ltb,
  next, none, peek, refl, some, suc, true, zero, ℕ, ◌%◌, ◌*◌, ◌++◌, ◌+◌, ◌-◌, ◌/◌, ◌<◌, ◌==◌, ◌^◌,
  ◌∙◌, ◌∷◌, ◌≡◌,
}
use rteget_data_linux_compat.Scan.{
  clamp_long, digit_value, is_space, scan_digits, scan_long, scan_prefixed, skip_space,
}
use mathlib.Core.Option

pub scan_digits-digit :
    (base c d : ℕ) (p : List ℕ) (n : ℕ)
    → digit_value base c ≡ some d
    → scan_digits base (c ∷ p) n ≡ scan_digits base p (n * base + d)
unfolding scan_digits
scan_digits-digit base c d p n e = rw (e, scan_digits)

pub digit_value-hex_char :
    (upper : Bool) (d : ℕ) → d < 16 → digit_value 16 (hex_char upper d) ≡ some d
unfolding digit_value
digit_value-hex_char upper d h = ground (arith, hex_value-hex_char upper d h)

-- The digits of a fixed width, and what is behind them.
pub scan_digits-hex_fixed :
    (upper : Bool) (k n : ℕ) (rest : List ℕ)
    → n < 16 ^ k
    → scan_digits 16 (hex_fixed upper k n ++ rest) 0 ≡ scan_digits 16 rest n
unfolding hex_fixed
scan_digits-hex_fixed upper zero n rest h =
    let nothing : 0 ≡ n = omega arith in ap (scan_digits 16 rest) nothing
scan_digits-hex_fixed upper (suc k) n rest h =
    let digit = hex_char upper (n % 16) in
    let power : 16 ^ suc k ≡ 16 * 16 ^ k = omega arith in
    let whole : n / 16 * 16 + n % 16 ≡ n = omega arith in
    ap (λ l. scan_digits 16 l 0) (append_assoc (hex_fixed upper k (n / 16)) (digit ∷ []) rest)
    ∙ scan_digits-hex_fixed upper k (n / 16) (digit ∷ rest) (omega (arith, h, power))
    ∙ scan_digits-digit 16 digit (n % 16) rest (n / 16)
        (digit_value-hex_char upper (n % 16) (omega arith))
    ∙ ap (scan_digits 16 rest) whole

-- What may stand behind a number.
pub scan_digits-end :
    (base : ℕ) (rest : List ℕ) (n : ℕ)
    → digit_value base (peek rest) ≡ none
    → scan_digits base rest n ≡ (n, rest)
unfolding scan_digits
scan_digits-end base [] n e = refl
scan_digits-end base (c ∷ rest) n e = rw (e, scan_digits)

digit_value-decimal : (d : ℕ) → d < 10 → digit_value 10 (48 + d) ≡ some d
unfolding digit_value hex_value
digit_value-decimal d h = ground arith

last_digit :
    (xs : List ℕ) (q n : ℕ) (rest : List ℕ)
    → ((p : List ℕ) → scan_digits 10 (xs ++ p) 0 ≡ scan_digits 10 p q)
    → q * 10 + n % 10 ≡ n
    → scan_digits 10 ((xs ++ ((48 + n % 10) ∷ [])) ++ rest) 0 ≡ scan_digits 10 rest n
last_digit xs q n rest h e =
    ap (λ l. scan_digits 10 l 0) (append_assoc xs ((48 + n % 10) ∷ []) rest)
    ∙ h ((48 + n % 10) ∷ rest)
    ∙ scan_digits-digit 10 (48 + n % 10) (n % 10) rest q
        (digit_value-decimal (n % 10) (omega arith))
    ∙ ap (scan_digits 10 rest) e

-- The digits of a decimal number, and what is behind them.
pub scan_digits-decimal_digits :
    (fuel n : ℕ) (rest : List ℕ)
    → n < 10 ^ suc fuel
    → scan_digits 10 (decimal_digits (suc fuel) n ++ rest) 0 ≡ scan_digits 10 rest n
unfolding decimal_digits
scan_digits-decimal_digits zero n rest h =
    let small : ltb n 10 ≡ true = ground arith in
    let whole : 0 * 10 + n % 10 ≡ n = omega (arith, h) in
    rw (small, decimal_digits) (last_digit [] 0 n rest (λ p. refl) whole)
scan_digits-decimal_digits (suc fuel) n rest h = elim (Bool-cases (ltb n 10)) [
  | inl e ↦
      let small : n < 10 = ground arith in
      rw (e, decimal_digits) (last_digit [] 0 n rest (λ p. refl) (omega (arith, small)))
  | inr e ↦
      let power : 10 ^ suc (suc fuel) ≡ 10 * 10 ^ suc fuel = omega arith in
      rw (e, decimal_digits)
        (last_digit (decimal_digits (suc fuel) (n / 10)) (n / 10) n rest
          (λ p. scan_digits-decimal_digits fuel (n / 10) p (omega (arith, h, power))) (omega arith))
]

digit_is_no_space : (base c d : ℕ) → digit_value base c ≡ some d → is_space c ≡ false
unfolding digit_value hex_value is_space
digit_is_no_space base c d e = ground arith

pub digit_is_no_sign :
    (base c d : ℕ) → digit_value base c ≡ some d → ((c == b'-') ≡ false) × ((c == b'+') ≡ false)
unfolding digit_value hex_value
digit_is_no_sign base c d e = (ground arith, ground arith)

pub not_skipped :
    (base : ℕ) (p : List ℕ) (d : ℕ) → digit_value base (peek p) ≡ some d → skip_space p ≡ p
unfolding skip_space
not_skipped base [] d e = refl
not_skipped base (c ∷ p) d e = rw (digit_is_no_space base c d e, skip_space)

-- scan_long behind the white space.
signed_long : ℕ → List ℕ → Option (ℕ × List ℕ)
unfolding scan_prefixed clamp_long
signed_long base q =
    if peek q == b'-'
    then Option.map (λ r. (if ltb r.0 (2 ^ 64) then (2 ^ 64 - r.0) % 2 ^ 64 else 2 ^ 64 - 1, r.1))
        (scan_prefixed base (next q))
    else Option.map (λ r. (clamp_long r.0, r.1))
        (scan_prefixed base (if peek q == b'+' then next q else q))

clamp_small : (n : ℕ) → n < 2 ^ 64 → clamp_long n ≡ n
unfolding clamp_long
clamp_small n h = ground arith

unsigned_long :
    (base : ℕ) (q rest : List ℕ) (n : ℕ)
    → (peek q == b'-') ≡ false
    → (peek q == b'+') ≡ false
    → scan_prefixed base q ≡ some (n, rest)
    → n < 2 ^ 64
    → signed_long base q ≡ some (n, rest)
unfolding signed_long
unsigned_long base q rest n minus plus h small =
    rw (minus, plus, signed_long)
      (ap (Option.map (λ r. (clamp_long r.0, r.1))) h
        ∙ ap (λ m. some (m, rest)) (clamp_small n small))

-- A text that begins with a digit is a number without white space and sign.
pub scan_long-number :
    (base : ℕ) (p rest : List ℕ) (n d : ℕ)
    → digit_value base (peek p) ≡ some d
    → scan_prefixed base p ≡ some (n, rest)
    → n < 2 ^ 64
    → scan_long base p ≡ some (n, rest)
unfolding scan_long signed_long
scan_long-number base p rest n d e h small =
    let sign = digit_is_no_sign base (peek p) d e in
    ap (signed_long base) (not_skipped base p d e)
    ∙ unsigned_long base p rest n sign.0 sign.1 h small
