-- ===== src/Gdb/Sizes/Announced.antt =====
-- The packet size that a server announces.
use rteget_data_linux_compat.Gdb.Sizes.{
  announced_size, at_most_buffer, calculate_max_message_sizes, default_message_size, message_sizes,
  parse_capability_data,
}
use rteget_data_linux_compat.Hex.{hex_char, hex_fixed}
use rteget_data_linux_compat.Prelude.{
  Bool, IsU32, List, Option, [], ap, append_assoc, arith, behind, codes, false, if◌then◌else◌, min,
  next, none, peek, refl, some, suc, toupper, true, zero, ℕ, ◌%◌, ◌&&◌, ◌++◌, ◌/◌, ◌<◌, ◌==◌, ◌^◌,
  ◌∙◌, ◌∷◌, ◌≡◌,
}
use rteget_data_linux_compat.Scan.{
  digit_value, scan_digits, scan_prefixed, scan_unsigned, scan_word,
}
use rteget_data_linux_compat.Scan.Digits.{
  digit_value-hex_char, scan_digits-end, scan_digits-hex_fixed, scan_long-number,
}
use rteget_data_linux_compat.State.{M, State, Status, error, modify_gdb, ok, pure, ◌>>◌}
use mathlib.Core.Option

-- No digit and no 'x' follows the number.
pub record EndsNumber (rest : List ℕ) : Type 0 where
  pub no_digit : digit_value 16 (peek rest) ≡ none
  pub no_x : (toupper (peek rest) == b'X') ≡ false

hex_first :
    (upper : Bool) (k n : ℕ) (p : List ℕ)
    → (d : ℕ) × (digit_value 16 (peek (hex_fixed upper (suc k) n ++ p)) ≡ some d)
unfolding hex_fixed
hex_first upper zero n p = (n % 16, digit_value-hex_char upper (n % 16) (omega arith))
hex_first upper (suc k) n p =
    let c = hex_char upper (n % 16) in
    let (d, e) = hex_first upper k (n / 16) (c ∷ p) in
    (
      d,
      ap (λ l. digit_value 16 (peek l)) (append_assoc (hex_fixed upper (suc k) (n / 16)) (c ∷ []) p)
          ∙ e,
    )

hex_char_no_x : (upper : Bool) (d : ℕ) → d < 16 → (toupper (hex_char upper d) == b'X') ≡ false
unfolding hex_char toupper
hex_char_no_x true d h = ground arith
hex_char_no_x false d h = ground arith

hex_second :
    (upper : Bool) (k n : ℕ) (p : List ℕ)
    → (toupper (peek p) == b'X') ≡ false
    → (toupper (peek (next (hex_fixed upper (suc k) n ++ p))) == b'X') ≡ false
unfolding hex_fixed
hex_second upper zero n p h = h
hex_second upper (suc k) n p h =
    let c = hex_char upper (n % 16) in
    ap (λ l. toupper (peek (next l)) == b'X')
      (append_assoc (hex_fixed upper (suc k) (n / 16)) (c ∷ []) p)
    ∙ hex_second upper k (n / 16) (c ∷ p) (hex_char_no_x upper (n % 16) (omega arith))

prefixed :
    (p rest : List ℕ) (d n : ℕ)
    → digit_value 16 (peek p) ≡ some d
    → (toupper (peek (next p)) == b'X') ≡ false
    → scan_digits 16 p 0 ≡ (n, rest)
    → scan_prefixed 16 p ≡ some (n, rest)
unfolding scan_prefixed scan_unsigned
prefixed p rest d n e x h =
    rw (x, scan_prefixed)
      (ap (λ (b : Bool). if b then scan_unsigned 16 (next (next p)) else scan_unsigned 16 p)
          (and_false (peek p == b'0'))
        ∙ unsigned)
  where
    and_false : (b : Bool) → (b && false) ≡ false
    and_false true = refl
    and_false false = refl

    unsigned : scan_unsigned 16 p ≡ some (n, rest)
    unsigned = rw (e, scan_unsigned) (ap some h)

-- What sscanf reads where a server has printed a number of any width with %x or %X, with or without
-- leading zeros.
scan_word-hex_fixed :
    (upper : Bool) (k n : ℕ) (rest : List ℕ)
    → n < 16 ^ suc k
    → IsU32 n
    → EndsNumber rest
    → scan_word 16 (hex_fixed upper (suc k) n ++ rest) ≡ some (n, rest)
unfolding scan_word
scan_word-hex_fixed upper k n rest h small r =
    let p = hex_fixed upper (suc k) n ++ rest in
    let (d, e) = hex_first upper k n rest in
    let whole : n % 2 ^ 32 ≡ n = omega arith in
    ap (Option.map (λ q. (q.0 % 2 ^ 32, q.1))) (
      scan_long-number 16 p rest n d e
        (prefixed p rest d n e (hex_second upper k n rest r.no_x)
          (scan_digits-hex_fixed upper (suc k) n rest h ∙ scan_digits-end 16 rest n r.no_digit))
        (omega arith))
    ∙ ap (λ m. some (m, rest)) whole

-- A server that begins its answer with "PacketSize=" and a number, in hexadecimal digits of either case
-- and of any number, is understood, if the number fits 32 bits and neither a digit nor an 'x' follows it.
pub announced_size-hex_fixed :
    (upper : Bool) (k n : ℕ) (rest : List ℕ)
    → n < 16 ^ suc k
    → IsU32 n
    → EndsNumber rest
    → announced_size (codes "$PacketSize=" ++ (hex_fixed upper (suc k) n ++ rest)) ≡ n
unfolding announced_size behind
announced_size-hex_fixed upper k n rest h small r =
    ap
      (λ (o : Option (ℕ × List ℕ)). elim o as (λ x. ℕ) [
        | none ↦ default_message_size
        | some (m, q) ↦ m
      ])
      (scan_word-hex_fixed upper k n rest h small r)

sizes_behind :
    (o : Option (List ℕ)) (p : List ℕ) (m : M Status) (s : State) (n : ℕ)
    → o ≡ some p
    → (m s).0 ≡ ok
    → (m s).1.gdb.max_gdb_send_message_size ≡ n
    → ((elim o as (λ x. M Status) [ none ↦ pure error | some q ↦ m ]) s).0 ≡ ok
      × ((elim o as (λ x. M Status) [ none ↦ pure error | some q ↦ m ])
          s).1.gdb.max_gdb_send_message_size
        ≡ n
sizes_behind none p m s n e h k = absurd (ground arith)
sizes_behind (some q) p m s n e h k = (h, k)

-- A server that begins its answer with "PacketSize=" and a number `n`, in hexadecimal digits of either case
-- and of any number, and that supports QStartNoAckMode, is understood: `parse_capability_data` returns
-- RTE_OK, and messages of `n` bytes are sent from then on, but of 65535 at most. The number must fit 32
-- bits, and neither a digit nor an 'x' may follow it.
pub parse_capability_data-announced :
    (upper : Bool) (k n : ℕ) (rest p : List ℕ) (s : State)
    → n < 16 ^ suc k
    → IsU32 n
    → EndsNumber rest
    → behind
        (codes "QStartNoAckMode+")
        (codes "$PacketSize=" ++ (hex_fixed upper (suc k) n ++ rest))
      ≡ some p
    → ((parse_capability_data (codes "$PacketSize=" ++ (hex_fixed upper (suc k) n ++ rest)) s).0
        ≡ ok)
      × ((parse_capability_data
            (codes "$PacketSize=" ++ (hex_fixed upper (suc k) n ++ rest))
            s).1.gdb.max_gdb_send_message_size
          ≡ min n 65535)
unfolding parse_capability_data calculate_max_message_sizes message_sizes
parse_capability_data-announced upper k n rest p s h small r e =
    let text = codes "$PacketSize=" ++ (hex_fixed upper (suc k) n ++ rest) in
    sizes_behind (behind (codes "QStartNoAckMode+") text) p
      (do
        modify_gdb (λ g. record g { max_gdb_send_message_size = announced_size text })
        calculate_max_message_sizes
        pure ok)
      s (min n 65535) e refl
      (ap at_most_buffer (announced_size-hex_fixed upper k n rest h small r) ∙ ground arith)
