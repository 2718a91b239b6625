-- ===== src/Gdb/Packet/Reply.antt =====
-- `check_reply`, the part of `read_memory_packet` behind the receipt of a message: against the replies
-- of the GDB protocol, and on any message.
use rteget_data_linux_compat.Gdb.Packet.{check_reply, copy_hex, sum_bytes}
use rteget_data_linux_compat.Hex.{get_hex_digit, hex_char, hex_fixed}
use rteget_data_linux_compat.Hex.RoundTrip.{get_hex_digit-hex_fixed}
use rteget_data_linux_compat.Hex.Text.{
  IsHexChar, hex_text, hex_text-IsHexChar, length-hex_text, total,
}
use rteget_data_linux_compat.Prelude.{
  All, Bool, IsByte, List, [], ap, append_assoc, arith, drop, drop-append, length, next, none, peek,
  refl, some, strchr, suc, sym, ℕ, ◌%◌, ◌*◌, ◌++◌, ◌+◌, ◌<◌, ◌∙◌, ◌∷◌, ◌≡◌,
}
use rteget_data_linux_compat.State.{no_error, ok}

-- The reply to a read command: the bytes in hexadecimal, and the sum of these digits modulo 256.
abbrev pub reply : Bool → List ℕ → List ℕ
reply upper bs =
    b'$' ∷ (hex_text upper bs ++ (b'#' ∷ hex_fixed upper 2 (total (hex_text upper bs) % 256)))

pub sum_bytes-append :
    (xs rest : List ℕ) (sum : ℕ)
    → sum < 256
    → sum_bytes (length xs) (xs ++ rest) sum ≡ (sum + total xs) % 256
unfolding sum_bytes
sum_bytes-append [] rest sum h = omega arith
sum_bytes-append (x ∷ xs) rest sum h =
    omega (arith, sum_bytes-append xs rest ((sum + x) % 256) (omega arith))

no_star :
    (xs rest : List ℕ) → All IsHexChar xs → strchr b'*' (xs ++ (b'#' ∷ rest)) ≡ strchr b'*' rest
unfolding strchr
no_star [] rest h = refl
no_star (x ∷ xs) rest h = ground (arith, no_star xs rest)

-- One pair of digits.
pub copy_hex_step :
    (n : ℕ) (p : List ℕ) {v : ℕ} {bs : List ℕ}
    → get_hex_digit p ≡ some v
    → copy_hex n (next (next p)) ≡ (ok, bs)
    → copy_hex (suc n) p ≡ (ok, v ∷ bs)
unfolding copy_hex
copy_hex_step n p e f = ground arith

copy_hex-hex_text :
    (upper : Bool) (bs rest : List ℕ)
    → All IsByte bs
    → copy_hex (length bs) (hex_text upper bs ++ rest) ≡ (ok, bs)
unfolding copy_hex hex_fixed
copy_hex-hex_text upper [] rest h = refl
copy_hex-hex_text upper (b ∷ bs) rest h =
    copy_hex_step (length bs) (hex_text upper (b ∷ bs) ++ rest)
      (get_hex_digit-hex_fixed upper b (hex_text upper bs ++ rest) h.0)
      (copy_hex-hex_text upper bs rest h.1)

check_reply_step :
    (n v : ℕ) (m : List ℕ) {bs : List ℕ}
    → strchr b'*' m ≡ none
    → peek (drop (n * 2 + 1) m) ≡ b'#'
    → get_hex_digit (drop (n * 2 + 2) m) ≡ some v
    → sum_bytes (n * 2) (next m) 0 ≡ v
    → copy_hex n (next m) ≡ (ok, bs)
    → check_reply n m ≡ (ok, bs, no_error)
unfolding check_reply
check_reply_step n v m a b c d e = ground arith

abbrev digit_sum : Bool → List ℕ → ℕ
digit_sum upper bs = total (hex_text upper bs) % 256

-- What is behind the '#', up to the terminating zero and on.
abbrev behind_hash : Bool → List ℕ → List ℕ → List ℕ
behind_hash upper bs stale = hex_fixed upper 2 (digit_sum upper bs) ++ (0 ∷ stale)

module _ (upper : Bool) (bs stale : List ℕ) where
  message : List ℕ
  message = b'$' ∷ (hex_text upper bs ++ (b'#' ∷ behind_hash upper bs stale))

  message_lem : reply upper bs ++ (0 ∷ stale) ≡ message
  unfolding message
  message_lem = ap (λ l. b'$' ∷ l) (append_assoc (hex_text upper bs) _ (0 ∷ stale))

  no_star_sum : strchr b'*' (behind_hash upper bs stale) ≡ none
  unfolding strchr hex_fixed hex_char
  no_star_sum = ground arith

  no_star_message : strchr b'*' message ≡ none
  unfolding message strchr
  no_star_message = ground (
    arith,
    no_star (hex_text upper bs) (behind_hash upper bs stale) (hex_text-IsHexChar upper bs),
    no_star_sum,
  )

  drop_digits :
      (k : ℕ) → drop (length bs * 2 + suc k) message ≡ drop k (b'#' ∷ behind_hash upper bs stale)
  unfolding message
  drop_digits k =
      let e : length bs * 2 + suc k ≡ suc (length (hex_text upper bs) + k) =
        omega (arith, length-hex_text upper bs) in
      ap (λ n. drop n message) e ∙ drop-append (hex_text upper bs) _ k

  sum_digits : sum_bytes (length bs * 2) (next message) 0 ≡ digit_sum upper bs
  unfolding message
  sum_digits =
      ap (λ n. sum_bytes n (next message) 0) (sym (length-hex_text upper bs))
      ∙ sum_bytes-append (hex_text upper bs) _ 0 (omega arith)
      ∙ omega arith

-- Whatever an earlier message left behind its end, a well-formed reply of `length bs` bytes gives them.
pub check_reply-reply :
    (upper : Bool) (bs stale : List ℕ)
    → All IsByte bs
    → check_reply (length bs) (reply upper bs ++ (0 ∷ stale)) ≡ (ok, bs, no_error)
unfolding message
check_reply-reply upper bs stale h =
    ap (check_reply (length bs)) (message_lem upper bs stale)
    ∙ check_reply_step (length bs) (digit_sum upper bs) (message upper bs stale)
        (no_star_message upper bs stale) (ap peek (drop_digits upper bs stale 0))
        (ap get_hex_digit (drop_digits upper bs stale 1)
          ∙ get_hex_digit-hex_fixed upper (digit_sum upper bs) (0 ∷ stale) (omega arith))
        (sum_digits upper bs stale) (copy_hex-hex_text upper bs _ h)
