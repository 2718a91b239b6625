-- ===== src/Gdb/Packet/Sound.antt =====
-- What `read_memory_packet` returns with RTE_OK, for any answer of the server.
use rteget_data_linux_compat.Gdb.Message.{gdb_error_reported}
use rteget_data_linux_compat.Gdb.Packet.{
  bad_read_size, check_message, check_reply, convert, copy_hex, read_answer, read_memory_packet,
  read_request, report, sum_bytes, transact,
}
use rteget_data_linux_compat.Hex.{get_hex_digit}
use rteget_data_linux_compat.Hex.RoundTrip.{get_hex_digit-lt}
use rteget_data_linux_compat.Prelude.{
  All, Bool-cases, IsByte, List, Option-cases, [], ap, arith, drop, inl, inr, length, next, none,
  peek, refl, some, strchr, suc, zero, ℕ, ◌*◌, ◌+◌, ◌≡◌, ◌⊎◌,
}
use rteget_data_linux_compat.State.{ErrCode, State, Status, error, ok}
use mathlib.Core.Path.{subst}

-- With status ok, `n` bytes.
abbrev pub HasBytes : ℕ → Status × List ℕ → Type 0
HasBytes n r = r.0 ≡ ok → (length r.1 ≡ n) × All IsByte r.1

error-HasBytes : (n : ℕ) (bs : List ℕ) → HasBytes n (error, bs)
error-HasBytes n bs e = absurd (ground arith)

copy_hex-HasBytes : (n : ℕ) (p : List ℕ) → HasBytes n (copy_hex n p)
unfolding copy_hex
copy_hex-HasBytes zero p = λ e. (refl, tt)
copy_hex-HasBytes (suc n) p = elim (Option-cases (get_hex_digit p)) [
  | inl e ↦ rw (e, copy_hex) (error-HasBytes (suc n) [])
  | inr (v, e) ↦
      rw (e, copy_hex)
        (λ k.
          let r = copy_hex-HasBytes n (next (next p)) k in
          (ap suc r.0, (get_hex_digit-lt p e, r.1)))
]

Status-cases : (st : Status) → (st ≡ ok) ⊎ (st ≡ error)
Status-cases ok = inl refl
Status-cases error = inr refl

convert-HasBytes : (n : ℕ) (p : List ℕ) → HasBytes n ((convert n p).0, (convert n p).1)
unfolding convert
convert-HasBytes n p = elim (Status-cases (copy_hex n p).0) [
  | inl e ↦ rw (e, convert) (λ k. copy_hex-HasBytes n p e)
  | inr e ↦ rw (e, convert) (error-HasBytes n (copy_hex n p).1)
]

-- A message from which bytes are taken has `n` pairs of digits, and each gives a byte.
pub check_reply-HasBytes :
    (n : ℕ) (message : List ℕ) → HasBytes n ((check_reply n message).0, (check_reply n message).1)
unfolding check_reply
check_reply-HasBytes n message = ground (arith, convert-HasBytes n (next message))

report-HasBytes :
    (n : ℕ) (r : Status × List ℕ × ErrCode) (s : State)
    → HasBytes n (r.0, r.1)
    → HasBytes n (report r s).0
unfolding report
report-HasBytes n (ok, bs, x) s h = h
report-HasBytes n (error, bs, x) s h = h

read_answer-HasBytes : (n : ℕ) (got : Status) (s : State) → HasBytes n (read_answer n got s).0
unfolding read_answer check_message report
read_answer-HasBytes n error s = error-HasBytes n []
read_answer-HasBytes n ok s = elim (Bool-cases (gdb_error_reported s).0) [
  | inl e ↦ rw (e) (error-HasBytes n [])
  | inr e ↦ rw (e) (report-HasBytes n (check_reply n message) s1 (check_reply-HasBytes n message))
]
  where
    s1 : State
    s1 = (gdb_error_reported s).1

    message : List ℕ
    message = s1.gdb.message_buffer

-- Whatever the server and the network do: a packet that is read with RTE_OK has as many bytes as were
-- asked for.
pub read_memory_packet-HasBytes :
    (address n : ℕ) (s : State) → HasBytes n (read_memory_packet address n s).0
unfolding read_memory_packet
read_memory_packet-HasBytes address n s = elim (Bool-cases (bad_read_size n)) [
  | inl e ↦ rw (e) (error-HasBytes n [])
  | inr e ↦ rw (e) (
      read_answer-HasBytes n (transact (read_request address n) s).0
        (transact (read_request address n) s).1)
]

-- A message that `read_memory_packet` accepts holds no run-length mark, has '#' behind the digits of `n`
-- bytes and the right checksum behind that, and gives `n` bytes.
pub check_reply-ok :
    (n : ℕ) (message bs : List ℕ) (x : ErrCode)
    → check_reply n message ≡ (ok, bs, x)
    → (strchr b'*' message ≡ none)
      × (peek (drop (n * 2 + 1) message) ≡ b'#')
      × (get_hex_digit (drop (n * 2 + 2) message) ≡ some (sum_bytes (n * 2) (next message) 0))
      × (length bs ≡ n)
      × All IsByte bs
unfolding check_reply
check_reply-ok n message bs x e =
    let h =
      subst (λ (r : Status × List ℕ × ErrCode). HasBytes n (r.0, r.1)) e
        (check_reply-HasBytes n message) refl in
    (ground arith, ground arith, ground arith, h.0, h.1)
