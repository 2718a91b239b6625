-- ===== src/Com/Port/Sound.antt =====
-- What `com_receive` of the Windows implementation returns with RTE_OK, for any answers of the port.
use rteget_data_linux_compat.Com.Port.{com_receive_bytes, receive_loop, received_all}
use rteget_data_linux_compat.Prelude.{
  Bool-cases, List, arith, inl, inr, length, not, ℕ, ◌==◌, ◌||◌, ◌≡◌,
}
use rteget_data_linux_compat.State.{State, Status, error, ok}

-- With status ok, `n` bytes.
abbrev pub HasLength : ℕ → Status × List ℕ → Type 0
HasLength n r = r.0 ≡ ok → length r.1 ≡ n

received_all-HasLength :
    (n : ℕ) (r : Status × List ℕ) (s : State) → HasLength n (received_all n r s).0
unfolding received_all
received_all-HasLength n (error, bs) s e = absurd (ground arith)
received_all-HasLength n (ok, bs) s e = ground arith

-- With status ok the port has given as many bytes as were asked for.
pub com_receive_bytes-HasLength : (n : ℕ) (s : State) → HasLength n (com_receive_bytes n s).0
unfolding com_receive_bytes
com_receive_bytes-HasLength n s = elim (Bool-cases (not s.com_link.port_is_open || n == 0)) [
  | inl e ↦ rw (e, com_receive_bytes) (λ k. absurd (ground arith))
  | inr e ↦
      rw (e, com_receive_bytes)
        (received_all-HasLength n (receive_loop n n 0 s).0 (receive_loop n n 0 s).1)
]
