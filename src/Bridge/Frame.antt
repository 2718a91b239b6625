-- ===== src/Bridge/Frame.antt =====
-- The transfers over either link, on either system, change nothing but the variables of the link, the time
-- and the error code.
use rteget_data_linux_compat.Bridge.{
  com_read_memory, com_write_memory, port_read_memory, port_write_memory,
}
use rteget_data_linux_compat.Com.Frame.Whole.{
  com_read_memory_linux-Frame, com_read_memory_win32-Frame, com_write_memory_linux-Frame,
  com_write_memory_win32-Frame,
}
use rteget_data_linux_compat.Com.Linux.{com_read_memory_linux, com_write_memory_linux}
use rteget_data_linux_compat.Com.Protocol.{com_read_memory_win32, com_write_memory_win32}
use rteget_data_linux_compat.Gdb.Frame.Whole.{gdb_read_memory-Frame, gdb_write_memory-Frame}
use rteget_data_linux_compat.Gdb.Memory.{gdb_read_memory, gdb_write_memory}
use rteget_data_linux_compat.Keeps.{IsComFrame, IsFrame, Keeps, Keeps-if_at}
use rteget_data_linux_compat.Prelude.{List, [], ℕ, ◌==◌}
use rteget_data_linux_compat.State.{
  Platform, RtePort, State, Status, bad_input_data, com_port, error, gdb_port, linux, no_error,
  unset, win32,
}

module _ {κ} (P : State → Type κ) (f : IsFrame P) (g : IsComFrame P) where
  com_read_memory-Frame : (address size : ℕ) → Keeps P (com_read_memory address size)
  unfolding com_read_memory
  com_read_memory-Frame address size s h = branch s.platform
    where
      branch :
          (p : Platform)
          → P
              (elim p as (λ x. (Status × List ℕ) × State) [
                | win32 ↦ com_read_memory_win32 address size s
                | linux ↦ com_read_memory_linux address size s
              ]).1
      branch win32 = com_read_memory_win32-Frame P g address size s h
      branch linux = com_read_memory_linux-Frame P g address size s h

  com_write_memory-Frame :
      (buffer : List ℕ) (address size : ℕ) → Keeps P (com_write_memory buffer address size)
  unfolding com_write_memory
  com_write_memory-Frame buffer address size s h = branch s.platform
    where
      branch :
          (p : Platform)
          → P
              (elim p as (λ x. Status × State) [
                | win32 ↦ com_write_memory_win32 buffer address size s
                | linux ↦ com_write_memory_linux buffer address size s
              ]).1
      branch win32 = com_write_memory_win32-Frame P g buffer address size s h
      branch linux = com_write_memory_linux-Frame P g buffer address size s h

  read_interface :
      (port : RtePort) (address size : ℕ) (s : State)
      → P s
      → P
          (elim port as (λ x. (Status × List ℕ) × State) [
            | gdb_port ↦ gdb_read_memory address size s
            | com_port ↦ com_read_memory address size s
            | unset ↦ ((error, []), s)
          ]).1
  read_interface gdb_port address size s h = gdb_read_memory-Frame P f address size s h
  read_interface com_port address size s h = com_read_memory-Frame address size s h
  read_interface unset address size s h = h

  pub port_read_memory-Frame : (address size : ℕ) → Keeps P (port_read_memory address size)
  unfolding port_read_memory
  port_read_memory-Frame address size s h =
      let s1 = record s { last_error = no_error } in
      Keeps-if_at P (size == 0) ((error, []), record s { last_error = bad_input_data }) _
        (f.keeps_error s bad_input_data h)
        (read_interface s.parameters.active_interface address size s1 (f.keeps_error s no_error h))

  write_interface :
      (port : RtePort) (buffer : List ℕ) (address size : ℕ) (s : State)
      → P s
      → P
          (elim port as (λ x. Status × State) [
            | gdb_port ↦ gdb_write_memory buffer address size s
            | com_port ↦ com_write_memory buffer address size s
            | unset ↦ (error, s)
          ]).1
  write_interface gdb_port buffer address size s h =
      gdb_write_memory-Frame P f buffer address size s h
  write_interface com_port buffer address size s h = com_write_memory-Frame buffer address size s h
  write_interface unset buffer address size s h = h

  pub port_write_memory-Frame :
      (buffer : List ℕ) (address size : ℕ) → Keeps P (port_write_memory buffer address size)
  unfolding port_write_memory
  port_write_memory-Frame buffer address size s h =
      let s1 = record s { last_error = no_error } in
      Keeps-if_at P (size == 0) (error, record s { last_error = bad_input_data }) _
        (f.keeps_error s bad_input_data h)
        (write_interface s.parameters.active_interface buffer address size s1
          (f.keeps_error s no_error h))
