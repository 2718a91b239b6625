-- ===== src/Com/Serial/Names.antt =====
-- The names of serial ports on Linux.
use rteget_data_linux_compat.Com.Serial.{atoi, device_path}
use rteget_data_linux_compat.Hex.{decimal_digits, hex_value, print_decimal}
use rteget_data_linux_compat.Prelude.{
  Bool, Bool-cases, List, Option, [], ap, append-nil, append_assoc, arith, codes, false,
  if◌then◌else◌, inl, inr, is_digit, leb, length, length-append, ltb, min, next, none, peek, some,
  suc, sym, take, take_all, true, zero, ℕ, ◌%◌, ◌++◌, ◌+◌, ◌-◌, ◌/◌, ◌<◌, ◌==◌, ◌^◌, ◌||◌, ◌∙◌, ◌∷◌,
  ◌≡◌, ◌≤◌,
}
use rteget_data_linux_compat.Scan.{digit_value, scan_digits, scan_prefixed, scan_unsigned}
use rteget_data_linux_compat.Scan.Digits.{digit_is_no_sign, not_skipped, scan_digits-decimal_digits}

digit_char : (n : ℕ) → is_digit (48 + n % 10) ≡ true
unfolding is_digit
digit_char n = ground arith

first_digit : (fuel n : ℕ) (p : List ℕ) → is_digit (peek (decimal_digits (suc fuel) n ++ p)) ≡ true
unfolding decimal_digits
first_digit zero n p = elim (Bool-cases (ltb n 10)) [
  | inl e ↦ rw (e, decimal_digits) (digit_char n)
  | inr e ↦ rw (e, decimal_digits) (digit_char n)
]
first_digit (suc fuel) n p = elim (Bool-cases (ltb n 10)) [
  | inl e ↦ rw (e, decimal_digits) (digit_char n)
  | inr e ↦
      let digit = 48 + n % 10 in
      rw (e, decimal_digits)
        (ap (λ l. is_digit (peek l))
            (append_assoc (decimal_digits (suc fuel) (n / 10)) (digit ∷ []) p)
          ∙ first_digit fuel (n / 10) (digit ∷ p))
]

digit_first : (c : ℕ) → is_digit c ≡ true → digit_value 10 c ≡ some (c - 48)
unfolding is_digit digit_value hex_value
digit_first c e = ground arith

-- A text that begins with a digit, and the number that its digits make.
prefixed_digits :
    (p : List ℕ) (n : ℕ)
    → is_digit (peek p) ≡ true
    → scan_digits 10 p 0 ≡ (n, [])
    → scan_prefixed 10 p ≡ some (n, [])
unfolding scan_prefixed scan_unsigned
prefixed_digits p n e h = rw (digit_first (peek p) e, h, scan_prefixed, scan_unsigned)

-- atoi behind the white space, from the sign and the digits.
number_of : Bool → Option (ℕ × List ℕ) → Option ℕ
number_of minus o =
    let magnitude : ℕ = elim o [ none ↦ 0 | some (n, rest) ↦ n ] in
    let low : ℕ =
      (if minus
        then (2 ^ 64 - min magnitude (2 ^ 63)) % 2 ^ 32
        else min magnitude (2 ^ 63 - 1) % 2 ^ 32) in
    if low == 0 || leb (2 ^ 31) low then none else some low

behind_space : List ℕ → Option ℕ
unfolding scan_prefixed number_of
behind_space q =
    number_of (peek q == b'-')
      (scan_prefixed 10 (if peek q == b'-' || peek q == b'+' then next q else q))

small_number :
    (n : ℕ)
    → 0 < n
    → n < 2 ^ 31
    → (let low : ℕ = min n (2 ^ 63 - 1) % 2 ^ 32 in
        if low == 0 || leb (2 ^ 31) low then none else some low)
      ≡ some n
small_number n lo hi =
    let same : min n (2 ^ 63 - 1) % 2 ^ 32 ≡ n = omega (arith, hi) in
    let good : (n == 0 || leb (2 ^ 31) n) ≡ false = ground arith in
    ap (λ low. if low == 0 || leb (2 ^ 31) low then none else some low) same
    ∙ ap (λ (b : Bool). if b then none else some n) good

unsigned_number :
    (q : List ℕ) (n : ℕ)
    → (peek q == b'-') ≡ false
    → (peek q == b'+') ≡ false
    → scan_prefixed 10 q ≡ some (n, [])
    → 0 < n
    → n < 2 ^ 31
    → behind_space q ≡ some n
unfolding behind_space number_of
unsigned_number q n minus plus h lo hi =
    ap (λ b. number_of b (scan_prefixed 10 (if b || peek q == b'+' then next q else q))) minus
    ∙ ap (λ (b : Bool). number_of false (scan_prefixed 10 (if b then next q else q))) plus
    ∙ ap (number_of false) h
    ∙ small_number n lo hi

pub atoi-print_decimal : (n : ℕ) → 0 < n → n < 2 ^ 31 → atoi (print_decimal n) ≡ some n
unfolding atoi print_decimal behind_space number_of
atoi-print_decimal n lo hi =
    let p = print_decimal n in
    let scanned : scan_digits 10 p 0 ≡ (n, []) =
      ap (λ l. scan_digits 10 l 0) (sym (append-nil p))
      ∙ scan_digits-decimal_digits 9 n [] (omega (arith, hi)) in
    let first : is_digit (peek p) ≡ true =
      ap (λ l. is_digit (peek l)) (sym (append-nil p)) ∙ first_digit 9 n [] in
    let digit = digit_first (peek p) first in
    let sign = digit_is_no_sign 10 (peek p) (peek p - 48) digit in
    ap behind_space (not_skipped 10 p (peek p - 48) digit)
    ∙ unsigned_number p n sign.0 sign.1 (prefixed_digits p n first scanned) lo hi

length-decimal_digits : (fuel n : ℕ) → length (decimal_digits fuel n) ≤ fuel
unfolding decimal_digits
length-decimal_digits zero n = omega arith
length-decimal_digits (suc fuel) n = elim (Bool-cases (ltb n 10)) [
  | inl e ↦ rw (e, decimal_digits) (omega arith)
  | inr e ↦
      let digit = 48 + n % 10 in
      rw (e, decimal_digits)
        (omega (
          arith,
          length-append (decimal_digits fuel (n / 10)) (digit ∷ []),
          length-decimal_digits fuel (n / 10),
        ))
]

length-print_decimal : (n : ℕ) → length (print_decimal n) ≤ 10
unfolding print_decimal
length-print_decimal n = length-decimal_digits 10 n

numbered_path : Option ℕ → Option (List ℕ)
numbered_path o = elim o [
  | none ↦ none
  | some m ↦ some (take 63 (codes "/dev/ttyS" ++ print_decimal (m - 1)))
]

whole_path : (n : ℕ) → numbered_path (some (suc n)) ≡ some (codes "/dev/ttyS" ++ print_decimal n)
unfolding numbered_path
whole_path n =
    let before : suc n - 1 ≡ n = omega arith in
    let bound : length (print_decimal n) ≤ 10 = length-print_decimal n in
    ap (λ m. some (take 63 (codes "/dev/ttyS" ++ print_decimal m))) before
    ∙ ap some (take_all 63 (codes "/dev/ttyS" ++ print_decimal n) (omega (arith, bound)))

-- The port COMn, for any n from 1 on that an `int` holds, is the device /dev/ttySn-1, with the number
-- printed and read in decimal, and the path is not cut.
pub device_path-numbered :
    (n : ℕ)
    → n < 2 ^ 31 - 1
    → device_path (codes "COM" ++ print_decimal (suc n))
      ≡ some (codes "/dev/ttyS" ++ print_decimal n)
unfolding device_path numbered_path
device_path-numbered n h =
    ap numbered_path (atoi-print_decimal (suc n) (omega arith) (omega (arith, h))) ∙ whole_path n
