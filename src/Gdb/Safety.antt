-- ===== src/Gdb/Safety.antt =====
-- The GDB client as a machine: each step is one of its operations, with any answers of the server.
pub mod Requests
pub mod Socket
pub mod Packets
pub mod Blocks
pub mod Console
pub mod Session
pub mod Connect
use rteget_data_linux_compat.Gdb.Console.{gdb_execute_command}
use rteget_data_linux_compat.Gdb.Memory.{gdb_read_memory, gdb_write_memory}
use rteget_data_linux_compat.Gdb.Message.Limits.{InBuffer}
use rteget_data_linux_compat.Gdb.Safety.Blocks.{gdb_read_memory-Keeps, gdb_write_memory-Keeps}
use rteget_data_linux_compat.Gdb.Safety.Connect.{
  gdb_connect-Keeps, gdb_detach-Keeps, gdb_handle_unexpected_messages-Keeps,
  gdb_socket_cleanup-Keeps,
}
use rteget_data_linux_compat.Gdb.Safety.Console.{gdb_execute_command-Keeps}
use rteget_data_linux_compat.Gdb.Safety.Packets.{max_block}
use rteget_data_linux_compat.Gdb.Safety.Socket.{gdb_flush_socket-Keeps, same_buffer}
use rteget_data_linux_compat.Gdb.Session.{
  gdb_connect, gdb_detach, gdb_handle_unexpected_messages, gdb_socket_cleanup,
}
use rteget_data_linux_compat.Gdb.Socket.{gdb_flush_socket}
use rteget_data_linux_compat.Prelude.{List, sym, ℕ, ◌<◌, ◌≡◌}
use rteget_data_linux_compat.State.{State}
use mathlib.Core.Path.{subst}

-- One operation of the client, or a step of the rest of the program or of its surroundings, which may
-- change all but the buffer.
pub data Step (s s1 : State) : Type 0 where
  connects : s1 ≡ (gdb_connect s).1 → Step s s1
  reads :
      (address size : ℕ) → size < max_block → s1 ≡ (gdb_read_memory address size s).1 → Step s s1
  writes :
      (buffer : List ℕ) (address size : ℕ)
      → size < max_block
      → s1 ≡ (gdb_write_memory buffer address size s).1
      → Step s s1
  executes : (command : List ℕ) → s1 ≡ (gdb_execute_command command s).1 → Step s s1
  flushes : s1 ≡ (gdb_flush_socket s).1 → Step s s1
  discards : s1 ≡ (gdb_handle_unexpected_messages s).1 → Step s s1
  detaches : s1 ≡ (gdb_detach s).1 → Step s s1
  cleans_up : s1 ≡ (gdb_socket_cleanup s).1 → Step s s1
  elsewhere : s1.gdb.message_buffer ≡ s.gdb.message_buffer → Step s s1

-- Any number of steps.
pub data Steps (s : State) : State → Type 0 where
  no_step : Steps s s
  one_more : {s1 s2 : State} → Steps s s1 → Step s1 s2 → Steps s s2

kept : (m : State) (s1 : State) → s1 ≡ m → InBuffer m → InBuffer s1
kept m s1 e h = subst InBuffer (sym e) h

Step-InBuffer : (s s1 : State) → Step s s1 → InBuffer s → InBuffer s1
Step-InBuffer s s1 (connects e) h = kept (gdb_connect s).1 s1 e (gdb_connect-Keeps s h)
Step-InBuffer s s1 (reads address size b e) h =
    kept (gdb_read_memory address size s).1 s1 e (gdb_read_memory-Keeps address size b s h)
Step-InBuffer s s1 (writes buffer address size b e) h =
    kept (gdb_write_memory buffer address size s).1 s1 e
      (gdb_write_memory-Keeps buffer address size b s h)
Step-InBuffer s s1 (executes command e) h =
    kept (gdb_execute_command command s).1 s1 e (gdb_execute_command-Keeps command s h)
Step-InBuffer s s1 (flushes e) h = kept (gdb_flush_socket s).1 s1 e (gdb_flush_socket-Keeps s h)
Step-InBuffer s s1 (discards e) h =
    kept (gdb_handle_unexpected_messages s).1 s1 e (gdb_handle_unexpected_messages-Keeps s h)
Step-InBuffer s s1 (detaches e) h = kept (gdb_detach s).1 s1 e (gdb_detach-Keeps s h)
Step-InBuffer s s1 (cleans_up e) h =
    kept (gdb_socket_cleanup s).1 s1 e (gdb_socket_cleanup-Keeps s h)
Step-InBuffer s s1 (elsewhere e) h = same_buffer s s1 e h

-- In any order of operations of the client, with any commands, any blocks of less than 2 ^ 31 - 10 bytes,
-- and whatever the server answers, no operation writes beyond the end of `message_buffer`: all that is
-- printed into it, received into it, or decoded in it stays within its 65535 bytes.
pub Steps-InBuffer : (s s1 : State) → Steps s s1 → InBuffer s → InBuffer s1
Steps-InBuffer s s1 no_step h = h
Steps-InBuffer s s2 (one_more {s1 = s1} before latest) h =
    Step-InBuffer s1 s2 latest (Steps-InBuffer s s1 before h)
