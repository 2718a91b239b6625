-- ===== src/Com.antt =====
-- Code/com_lib.cpp: the serial port, with the protocol of Code/rte_com.h on Windows and with a text
-- protocol of its own on Linux.
pub mod Port
pub mod Serial
pub mod Open
pub mod Protocol
pub mod ErrorText
pub mod Linux
pub mod Frame
