-- ===== src/Gdb/Memory/Complete.antt =====
-- What `gdb_read_memory` returns with RTE_OK, for any answers of the server.
use rteget_data_linux_compat.Gdb.Memory.{after_read, gdb_read_memory, packet_size, read_memory_loop}
use rteget_data_linux_compat.Gdb.Packet.{read_memory_packet}
use rteget_data_linux_compat.Gdb.Packet.Sound.{HasBytes, read_memory_packet-HasBytes}
use rteget_data_linux_compat.Prelude.{
  All, Bool-cases, IsByte, List, add32, append-All, arith, inl, inr, length, length-append, ltb,
  refl, suc, zero, ℕ, ◌++◌, ◌+◌, ◌-◌, ◌∙◌, ◌≡◌, ◌≤◌,
}
use rteget_data_linux_compat.State.{M, State, Status, error, ok}
use mathlib.Core.Path.{subst}

packet_size-le : (left limit : ℕ) → packet_size left limit ≤ left
unfolding packet_size
packet_size-le left limit = ground arith

joined-HasBytes :
    (m n k : ℕ) (bs : List ℕ) (r : Status × List ℕ)
    → m + n ≡ k
    → HasBytes m (ok, bs)
    → HasBytes n r
    → HasBytes k (r.0, bs ++ r.1)
joined-HasBytes m n k bs r e h h' st = (
  omega (arith, length-append bs r.1, (h refl).0, (h' st).0, e),
  append-All IsByte bs r.1 (h refl).1 (h' st).1,
)

after_read-HasBytes :
    (size done n : ℕ) (again : ℕ → M (Status × List ℕ)) (r : Status × List ℕ) (s : State)
    → done ≤ size
    → n ≤ size - done
    → HasBytes n r
    → HasBytes (size - (done + n)) (again (done + n) s).0
    → HasBytes (size - done) (after_read size (done + n) again r s).0
unfolding after_read
after_read-HasBytes size done n again (error, bs) s lo hi h h' = λ e. absurd (ground arith)
after_read-HasBytes size done n again (ok, bs) s lo hi h h' =
    elim (Bool-cases (ltb (done + n) size)) [
      | inl e ↦
          rw (e, after_read)
            (joined-HasBytes n (size - (done + n)) (size - done) bs (again (done + n) s).0
              (ground arith) h h')
      | inr e ↦
          rw (e, after_read)
            (λ k. (let m : n ≡ size - done = ground arith in (h refl).0 ∙ m, (h refl).1))
    ]

read_memory_loop-HasBytes :
    (fuel address size done : ℕ) (s : State)
    → done ≤ size
    → HasBytes (size - done) (read_memory_loop fuel address size done s).0
unfolding read_memory_loop
read_memory_loop-HasBytes zero address size done s h = λ e. absurd (ground arith)
read_memory_loop-HasBytes (suc fuel) address size done s h =
    let n = packet_size (size - done) s.gdb.max_memo_read_packet_size in
    let r = read_memory_packet (add32 address done) n s in
    let le = packet_size-le (size - done) s.gdb.max_memo_read_packet_size in
    after_read-HasBytes size done n (read_memory_loop fuel address size) r.0 r.1 h le
      (read_memory_packet-HasBytes (add32 address done) n s)
      (read_memory_loop-HasBytes fuel address size (done + n) r.1 (omega (arith, le)))

sub-zero : (n : ℕ) → n - 0 ≡ n
sub-zero n = omega arith

read_memory-HasBytes :
    (address size : ℕ) (s : State) → HasBytes size (gdb_read_memory address size s).0
unfolding gdb_read_memory
read_memory-HasBytes address size s =
    subst (λ n. HasBytes n (gdb_read_memory address size s).0) (sub-zero size)
      (read_memory_loop-HasBytes (suc size) address size 0 s (omega arith))

-- Whatever the server and the network do: if `gdb_read_memory` returns RTE_OK, it has stored exactly as
-- many bytes as were asked for, over all its packets.
pub gdb_read_memory-ok :
    (address size : ℕ) (s : State) (bs : List ℕ)
    → (gdb_read_memory address size s).0 ≡ (ok, bs)
    → (length bs ≡ size) × All IsByte bs
gdb_read_memory-ok address size s bs e =
    subst (HasBytes size) e (read_memory-HasBytes address size s) refl
