-- ===== src/App.antt =====
-- Code/RTEgetData.cpp: the transfer of the data structure g_rtedbg and the switching of its logging.
pub mod Header
pub mod Load
pub mod Filter
pub mod Buffer
pub mod Transfer
pub mod Modes
pub mod Display
pub mod Benchmark
pub mod Commands
pub mod Keys
