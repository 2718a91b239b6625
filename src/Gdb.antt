-- ===== src/Gdb.antt =====
-- Code/gdb_lib.cpp: the client of a GDB server.
pub mod Socket
pub mod Message
pub mod Packet
pub mod Memory
pub mod Sizes
pub mod Session
pub mod Console
pub mod ErrorText
pub mod Safety
pub mod Frame
