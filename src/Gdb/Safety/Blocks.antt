-- ===== src/Gdb/Safety/Blocks.antt =====
-- The loops over packets keep `message_buffer` within its bounds.
use rteget_data_linux_compat.Gdb.Memory.{
  after_read, after_write, gdb_read_memory, gdb_write_memory, packet_size, read_memory_loop,
  write_memory_loop,
}
use rteget_data_linux_compat.Gdb.Message.Limits.{InBuffer}
use rteget_data_linux_compat.Gdb.Packet.{read_memory_packet, write_memory_packet}
use rteget_data_linux_compat.Gdb.Safety.Packets.{
  max_block, read_memory_packet-Keeps, write_memory_packet-Keeps,
}
use rteget_data_linux_compat.Keeps.{Keeps}
use rteget_data_linux_compat.Prelude.{
  Bool-cases, List, add32, arith, drop, inl, inr, ltb, suc, zero, ℕ, ◌+◌, ◌-◌, ◌<◌, ◌≤◌,
}
use rteget_data_linux_compat.State.{M, Status, error, ok}

after_read-Keeps :
    (size data_read : ℕ) (again : ℕ → M (Status × List ℕ)) (r : Status × List ℕ)
    → Keeps InBuffer (again data_read)
    → Keeps InBuffer (after_read size data_read again r)
unfolding after_read
after_read-Keeps size data_read again (error, bs) k s h = h
after_read-Keeps size data_read again (ok, bs) k s h = elim (Bool-cases (ltb data_read size)) [
  | inl e ↦ rw (e, after_read) (k s h)
  | inr e ↦ rw (e, after_read) h
]

packet_size_le : (left limit : ℕ) → packet_size left limit ≤ left
unfolding packet_size
packet_size_le left limit = ground arith

read_memory_loop-Keeps :
    (fuel address size data_read : ℕ)
    → size < max_block
    → Keeps InBuffer (read_memory_loop fuel address size data_read)
unfolding read_memory_loop
read_memory_loop-Keeps zero address size data_read hs s h = h
read_memory_loop-Keeps (suc fuel) address size data_read hs s h =
    let n = packet_size (size - data_read) s.gdb.max_memo_read_packet_size in
    let r = read_memory_packet (add32 address data_read) n s in
    after_read-Keeps size (data_read + n) (read_memory_loop fuel address size) r.0
      (read_memory_loop-Keeps fuel address size (data_read + n) hs) r.1
      (read_memory_packet-Keeps (add32 address data_read) n (omega arith)
        (omega (arith, packet_size_le (size - data_read) s.gdb.max_memo_read_packet_size, hs)) s h)

pub gdb_read_memory-Keeps :
    (address size : ℕ) → size < max_block → Keeps InBuffer (gdb_read_memory address size)
unfolding gdb_read_memory
gdb_read_memory-Keeps address size hs = read_memory_loop-Keeps (suc size) address size 0 hs

after_write-Keeps :
    (size data_written : ℕ) (again : ℕ → M Status) (r : Status)
    → Keeps InBuffer (again data_written)
    → Keeps InBuffer (after_write size data_written again r)
unfolding after_write
after_write-Keeps size data_written again error k s h = h
after_write-Keeps size data_written again ok k s h = elim (Bool-cases (ltb data_written size)) [
  | inl e ↦ rw (e, after_write) (k s h)
  | inr e ↦ rw (e, after_write) h
]

write_memory_loop-Keeps :
    (fuel : ℕ) (buffer : List ℕ) (address size data_written : ℕ)
    → size < max_block
    → Keeps InBuffer (write_memory_loop fuel buffer address size data_written)
unfolding write_memory_loop
write_memory_loop-Keeps zero buffer address size data_written hs s h = h
write_memory_loop-Keeps (suc fuel) buffer address size data_written hs s h =
    let n = packet_size (size - data_written) s.gdb.max_memo_write_packet_size in
    let r = write_memory_packet (drop data_written buffer) (add32 address data_written) n s in
    after_write-Keeps size (data_written + n) (write_memory_loop fuel buffer address size) r.0
      (write_memory_loop-Keeps fuel buffer address size (data_written + n) hs) r.1
      (write_memory_packet-Keeps (drop data_written buffer) (add32 address data_written) n
        (omega arith)
        (omega (arith, packet_size_le (size - data_written) s.gdb.max_memo_write_packet_size, hs)) s
        h)

pub gdb_write_memory-Keeps :
    (buffer : List ℕ) (address size : ℕ)
    → size < max_block
    → Keeps InBuffer (gdb_write_memory buffer address size)
unfolding gdb_write_memory
gdb_write_memory-Keeps buffer address size hs =
    write_memory_loop-Keeps (suc size) buffer address size 0 hs
