-- ===== src/Gdb/Memory.antt =====
-- Blocks of embedded memory, a packet at a time: `gdb_read_memory` and `gdb_write_memory` of
-- Code/gdb_lib.cpp.
pub mod Answers
pub mod Block
pub mod Complete
pub mod Read
pub mod Server
pub mod Stored
pub mod Write
use rteget_data_linux_compat.Gdb.Packet.{read_memory_packet, write_memory_packet}
use rteget_data_linux_compat.Prelude.{
  List, [], add32, drop, false, if◌then◌else◌, ltb, suc, true, zero, ℕ, ◌++◌, ◌+◌, ◌-◌,
}
use rteget_data_linux_compat.State.{M, Status, error, ok}

-- The size of the next packet.
unfoldable pub packet_size : ℕ → ℕ → ℕ
packet_size left limit = if ltb limit left then limit else left

-- Behind a packet: an error ends the loop, and so does the last packet.
unfoldable pub after_read :
    ℕ → ℕ → (ℕ → M (Status × List ℕ)) → Status × List ℕ → M (Status × List ℕ)
after_read size data_read again (error, bs) s = ((error, bs), s)
after_read size data_read again (ok, bs) s = elim (ltb data_read size) [
  | false ↦ ((ok, bs), s)
  | true ↦ (((again data_read s).0.0, bs ++ (again data_read s).0.1), (again data_read s).1)
]

-- The do-while loop, with fuel for the packets. A packet that succeeds is not empty, so `size` rounds
-- are enough.
unfoldable pub read_memory_loop : ℕ → ℕ → ℕ → ℕ → M (Status × List ℕ)
unfolding packet_size after_read
read_memory_loop zero address size data_read s = ((error, []), s)
read_memory_loop (suc fuel) address size data_read s =
    let n = packet_size (size - data_read) s.gdb.max_memo_read_packet_size in
    let r = read_memory_packet (add32 address data_read) n s in
    after_read size (data_read + n) (read_memory_loop fuel address size) r.0 r.1

unfoldable pub gdb_read_memory : ℕ → ℕ → M (Status × List ℕ)
unfolding read_memory_loop
gdb_read_memory address size = read_memory_loop (suc size) address size 0

unfoldable pub after_write : ℕ → ℕ → (ℕ → M Status) → Status → M Status
after_write size data_written again error s = (error, s)
after_write size data_written again ok s = elim (ltb data_written size) [
  | false ↦ (ok, s)
  | true ↦ again data_written s
]

unfoldable pub write_memory_loop : ℕ → List ℕ → ℕ → ℕ → ℕ → M Status
unfolding packet_size after_write
write_memory_loop zero buffer address size data_written s = (error, s)
write_memory_loop (suc fuel) buffer address size data_written s =
    let n = packet_size (size - data_written) s.gdb.max_memo_write_packet_size in
    let r = write_memory_packet (drop data_written buffer) (add32 address data_written) n s in
    after_write size (data_written + n) (write_memory_loop fuel buffer address size) r.0 r.1

unfoldable pub gdb_write_memory : List ℕ → ℕ → ℕ → M Status
unfolding write_memory_loop
gdb_write_memory buffer address size = write_memory_loop (suc size) buffer address size 0
