-- ===== src/Gdb/Safety/Socket.antt =====
-- The socket calls keep `message_buffer` within its bounds.
use rteget_data_linux_compat.Gdb.Message.{write_buffer}
use rteget_data_linux_compat.Gdb.Message.Limits.{InBuffer}
use rteget_data_linux_compat.Gdb.Socket.{
  after_recv, answers, flush_round, gdb_flush_socket, gdb_send, pieces, recv, until_dry,
}
use rteget_data_linux_compat.Gdb.Socket.Receives.{recv-Receives}
use rteget_data_linux_compat.Gdb.Socket.Sends.{gdb_send-KeepsReceived}
use rteget_data_linux_compat.Keeps.{Keeps}
use rteget_data_linux_compat.Loop.{repeat_inv}
use rteget_data_linux_compat.Prelude.{
  List, Option, [], ap, arith, length, length-blit, ℕ, ◌+◌, ◌∷◌, ◌≡◌, ◌≤◌,
}
use rteget_data_linux_compat.State.{Received, State, bytes, failed, shut, tcp_buff_length}

-- A state with the same buffer.
pub same_buffer :
    (s s1 : State) → s1.gdb.message_buffer ≡ s.gdb.message_buffer → InBuffer s → InBuffer s1
same_buffer s s1 e h = omega (arith, ap length e, h)

pub write_buffer-Keeps :
    (i : ℕ) (bs : List ℕ) → i + length bs ≤ tcp_buff_length → Keeps InBuffer (write_buffer i bs)
unfolding write_buffer
write_buffer-Keeps i bs fits s h = omega (arith, length-blit s.gdb.message_buffer i bs, h)

pub gdb_send-Keeps : (msg : List ℕ) → Keeps InBuffer (gdb_send msg)
gdb_send-Keeps msg s h = same_buffer s (gdb_send msg s).1 (gdb_send-KeepsReceived msg s).0 h

-- A call of `recv` for at most `n` bytes, and what is done with its answer.
pub after_recv-Keeps {ℓ} :
    {A : Type ℓ} (handle : Received → State → Option A × State) (n : ℕ)
    → ((r : Received) (s : State) → pieces r ≤ n → InBuffer s → InBuffer (handle r s).1)
    → (s : State) → InBuffer s
    → InBuffer (after_recv handle n s).1
after_recv-Keeps handle n hh s h =
    let k = recv-Receives n s in
    hh (recv n s).0 (recv n s).1 k.piece (same_buffer s (recv n s).1 k.buffer h)

pub until_dry-Keeps :
    (use_data : List ℕ → State → State) (n : ℕ)
    → ((bs : List ℕ) (s : State) → length bs ≤ n → InBuffer s → InBuffer (use_data bs s))
    → (r : Received) (s : State) → pieces r ≤ n
    → InBuffer s
    → InBuffer (until_dry use_data r s).1
unfolding until_dry
until_dry-Keeps use_data n hu (bytes []) s hp h = h
until_dry-Keeps use_data n hu (bytes (b ∷ bs)) s hp h = hu (b ∷ bs) s hp h
until_dry-Keeps use_data n hu shut s hp h = h
until_dry-Keeps use_data n hu (failed x) s hp h = h

pub gdb_flush_socket-Keeps : Keeps InBuffer gdb_flush_socket
unfolding gdb_flush_socket flush_round
gdb_flush_socket-Keeps s h =
    repeat_inv flush_round InBuffer
      (after_recv-Keeps (until_dry (λ bs s1. s1)) 256
        (until_dry-Keeps (λ bs s1. s1) 256 (λ bs s1 hb k. k)))
      (answers s.gdb.recv_events) tt s h
