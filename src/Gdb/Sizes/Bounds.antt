-- ===== src/Gdb/Sizes/Bounds.antt =====
-- The packet sizes that `calculate_max_message_sizes` chooses.
use rteget_data_linux_compat.Gdb.Memory.{
  after_write, gdb_write_memory, packet_size, write_memory_loop,
}
use rteget_data_linux_compat.Gdb.Packet.{bad_read_size, bad_write_size, write_memory_packet}
use rteget_data_linux_compat.Gdb.Sizes.{at_most_buffer, calculate_max_message_sizes, payload}
use rteget_data_linux_compat.Prelude.{
  List, add32, ap, arith, false, if◌then◌else◌, inl, inr, refl, ℕ, ◌%◌, ◌*◌, ◌+◌, ◌-◌, ◌<◌, ◌==◌,
  ◌≡◌, ◌≤◌, ◌⊎◌,
}
use rteget_data_linux_compat.State.{State, Status, bad_input_data, error, tcp_buff_length}

-- A size that the packet functions accept, whose request and whose answer fit the buffer.
pub record FitsRead (n limit : ℕ) : Type 0 where
  pub accepted : bad_read_size n ≡ false
  pub words : n % 4 ≡ 0
  pub answer : n * 2 + 4 ≤ limit
  pub buffer : n ≤ 32764

pub record FitsWrite (n limit : ℕ) : Type 0 where
  pub accepted : bad_write_size n ≡ false
  pub words : n % 4 ≡ 0
  pub request : n * 2 + 20 ≤ limit

payload-four : (n : ℕ) → 12 ≤ n → n ≤ tcp_buff_length → FitsRead (payload n 4) n
unfolding payload bad_read_size
payload-four n lo hi = record {
  accepted = ground arith;
  words = omega arith;
  answer = omega arith;
  buffer = omega arith;
}

payload-twenty : (n : ℕ) → 28 ≤ n → n ≤ tcp_buff_length → FitsWrite (payload n 20) n
unfolding payload bad_write_size
payload-twenty n lo hi = record {
  accepted = ground arith;
  words = omega arith;
  request = omega arith;
}

clipped :
    (n lo : ℕ) → lo ≤ n → lo ≤ 28 → (lo ≤ at_most_buffer n) × (at_most_buffer n ≤ tcp_buff_length)
clipped n lo h k = ground arith

-- The size of a message that is received, and the packets for it.
received_at_most : ℕ → ℕ → ℕ
received_at_most user send_max = if user == 0 then send_max else at_most_buffer user

received_at_most_range :
    (user send_max : ℕ)
    → ((user ≡ 0) ⊎ (12 ≤ user))
    → 28 ≤ send_max
    → send_max ≤ tcp_buff_length
    → (12 ≤ received_at_most user send_max) × (received_at_most user send_max ≤ tcp_buff_length)
unfolding received_at_most
received_at_most_range user send_max (inl e) lo hi = ground arith
received_at_most_range user send_max (inr e) lo hi = ground arith

-- For a server that takes messages of 28 characters or more, and a -msgsize argument that is absent or
-- at least 12: both packet sizes are accepted by the packet functions, are whole words, and their
-- longest message fits the size announced by the server, or the argument, and the buffer.
pub calculate_max_message_sizes_fit :
    (s : State)
    → 28 ≤ s.gdb.max_gdb_send_message_size
    → ((s.parameters.max_message_size ≡ 0) ⊎ (12 ≤ s.parameters.max_message_size))
    → FitsRead
        (calculate_max_message_sizes s).1.gdb.max_memo_read_packet_size
        (calculate_max_message_sizes s).1.gdb.max_gdb_recv_message_size
      × FitsWrite
          (calculate_max_message_sizes s).1.gdb.max_memo_write_packet_size
          (calculate_max_message_sizes s).1.gdb.max_gdb_send_message_size
      × ((calculate_max_message_sizes s).1.gdb.max_gdb_recv_message_size ≤ tcp_buff_length)
unfolding calculate_max_message_sizes received_at_most
calculate_max_message_sizes_fit s h k =
    let (lo, hi) = clipped s.gdb.max_gdb_send_message_size 28 h (omega arith) in
    let (lo', hi') =
      received_at_most_range s.parameters.max_message_size
        (at_most_buffer s.gdb.max_gdb_send_message_size) k lo hi in
    (payload-four _ lo' hi', payload-twenty _ lo hi, hi')

-- For an announced size from 20 to 27 the write packets are empty.
payload-small : (n : ℕ) → 20 ≤ n → n < 28 → payload (at_most_buffer n) 20 ≡ 0
unfolding payload
payload-small n lo hi = ground arith

packet_size-zero : (left limit : ℕ) → limit ≡ 0 → packet_size left limit ≡ 0
unfolding packet_size
packet_size-zero left limit e = ground arith

write_memory_packet-zero :
    (buffer : List ℕ) (address n : ℕ) (s : State)
    → n ≡ 0
    → write_memory_packet buffer address n s ≡ (error, record s { last_error = bad_input_data })
unfolding write_memory_packet bad_write_size
write_memory_packet-zero buffer address n s e = rw (e) refl

-- A limit of 0 makes every write an error, with nothing sent.
gdb_write_memory-zero :
    (buffer : List ℕ) (address size : ℕ) (s : State)
    → s.gdb.max_memo_write_packet_size ≡ 0
    → gdb_write_memory buffer address size s ≡ (error, record s { last_error = bad_input_data })
unfolding gdb_write_memory after_write
gdb_write_memory-zero buffer address size s e =
    let n = packet_size (size - 0) s.gdb.max_memo_write_packet_size in
    ap
      (λ (r : Status × State).
        after_write size (0 + n) (write_memory_loop size buffer address size) r.0 r.1)
      (write_memory_packet-zero buffer (add32 address 0) n s (packet_size-zero (size - 0) _ e))

-- For an announced size from 20 to 27 the write packets are empty, and every write is refused as
-- bad input, with nothing sent and the state otherwise as it was.
pub small_server_refuses_writes :
    (s : State) (buffer : List ℕ) (address size : ℕ)
    → 20 ≤ s.gdb.max_gdb_send_message_size
    → s.gdb.max_gdb_send_message_size < 28
    → gdb_write_memory buffer address size (calculate_max_message_sizes s).1
      ≡ (error, record (calculate_max_message_sizes s).1 { last_error = bad_input_data })
unfolding calculate_max_message_sizes
small_server_refuses_writes s buffer address size lo hi =
    gdb_write_memory-zero buffer address size (calculate_max_message_sizes s).1
      (payload-small s.gdb.max_gdb_send_message_size lo hi)
