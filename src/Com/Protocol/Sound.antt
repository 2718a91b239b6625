-- ===== src/Com/Protocol/Sound.antt =====
-- What `com_read_memory` of the Windows implementation returns with RTE_OK.
use rteget_data_linux_compat.Com.Port.{com_receive_bytes}
use rteget_data_linux_compat.Com.Port.Sound.{HasLength, com_receive_bytes-HasLength}
use rteget_data_linux_compat.Com.Protocol.{
  after_block, com_read_loop, com_read_memory_block, com_read_memory_win32, com_send_command,
  rtecom_max_recv_len, rtecom_read_rtedbg,
}
use rteget_data_linux_compat.Prelude.{
  Bool-cases, List, [], add32, arith, if◌then◌else◌, inl, inr, length, length-append, ltb, min,
  refl, suc, zero, ℕ, ◌+◌, ◌-◌, ◌==◌, ◌||◌, ◌≡◌, ◌≤◌,
}
use rteget_data_linux_compat.State.{M, State, Status, error, ok, pure}
use mathlib.Core.Path.{subst}

error-HasLength : (n : ℕ) (bs : List ℕ) → HasLength n (error, bs)
error-HasLength n bs e = absurd (ground arith)

-- One command and its answer.
com_read_memory_block-HasLength :
    (address n : ℕ) (s : State) → HasLength n (com_read_memory_block address n s).0
unfolding com_read_memory_block
com_read_memory_block-HasLength address n s =
    elim (Bool-cases (ltb rtecom_max_recv_len n || n == 0)) [
      | inl e ↦ rw (e, com_read_memory_block) (error-HasLength n [])
      | inr e ↦
          rw (e, com_read_memory_block)
            (answer (com_send_command rtecom_read_rtedbg address n s).0
              (com_send_command rtecom_read_rtedbg address n s).1)
    ]
  where
    answer :
        (sent : Status) (s1 : State)
        → HasLength n
            ((elim sent as (λ x. M (Status × List ℕ)) [
              | error ↦ pure (error, [])
              | ok ↦ com_receive_bytes n
            ])
              s1).0
    answer error s1 = error-HasLength n []
    answer ok s1 = com_receive_bytes-HasLength n s1

after_block-HasLength :
    (m n k : ℕ) (again : M (Status × List ℕ)) (r : Status × List ℕ) (s : State)
    → m + n ≡ k
    → HasLength m r
    → HasLength n (again s).0
    → HasLength k (after_block again r s).0
unfolding after_block
after_block-HasLength m n k again (error, bs) s e h h' = λ x. absurd (ground arith)
after_block-HasLength m n k again (ok, bs) s e h h' =
    λ x. omega (arith, length-append bs (again s).0.1, h refl, h' x, e)

next_block : (max_size left : ℕ) → (if ltb max_size left then max_size else left) ≤ left
next_block max_size left = ground arith

com_read_loop-HasLength :
    (fuel max_size address left : ℕ) (s : State)
    → HasLength left (com_read_loop fuel max_size address left s).0
unfolding com_read_loop
com_read_loop-HasLength zero max_size address left s = error-HasLength left []
com_read_loop-HasLength (suc fuel) max_size address left s =
    let size = if ltb max_size left then max_size else left in
    let r = com_read_memory_block address size s in
    elim (Bool-cases (ltb 0 left)) [
      | inl e ↦
          rw (e, com_read_loop)
            (after_block-HasLength size (left - size) left
              (com_read_loop fuel max_size (add32 address size) (left - size)) r.0 r.1
              (omega (arith, next_block max_size left))
              (com_read_memory_block-HasLength address size s)
              (com_read_loop-HasLength fuel max_size (add32 address size) (left - size) r.1))
      | inr e ↦ rw (e, com_read_loop) (λ k. ground arith)
    ]

-- Whatever the port answers: if `com_read_memory` returns RTE_OK, it has stored exactly as many bytes as
-- were asked for, over all its commands.
pub com_read_memory_win32-ok :
    (address size : ℕ) (s : State) (bs : List ℕ)
    → (com_read_memory_win32 address size s).0 ≡ (ok, bs)
    → length bs ≡ size
unfolding com_read_memory_win32
com_read_memory_win32-ok address size s bs e =
    subst (HasLength size) e
      (com_read_loop-HasLength (suc size) (min s.parameters.max_message_size rtecom_max_recv_len)
        address size s)
      refl
