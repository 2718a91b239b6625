-- ===== src/Com/Linux.antt =====
-- The Linux implementation: one text command, and one read for the whole answer.
pub mod Sound
use rteget_data_linux_compat.Com.Port.{read_file, write_file}
use rteget_data_linux_compat.Hex.{print_hex}
use rteget_data_linux_compat.Prelude.{
  List, [], if◌then◌else◌, length, none, some, take, true, ℕ, ◌++◌, ◌==◌, ◌∷◌,
}
use rteget_data_linux_compat.State.{
  ComRead, M, Status, chunk, error, if_ok, ok, pure, read_failed, ◌>>=◌, ◌>>◌,
}

-- "R%08X%04X\n" and "W%08X%04X".
unfoldable pub read_command : ℕ → ℕ → List ℕ
unfolding print_hex
read_command address size =
    b'R' ∷ (print_hex true 8 address ++ (print_hex true 4 size ++ (10 ∷ [])))

unfoldable pub write_command : ℕ → ℕ → List ℕ
unfolding print_hex
write_command address size = b'W' ∷ (print_hex true 8 address ++ print_hex true 4 size)

-- write(serial_fd, …) < 0
unfoldable pub serial_write : List ℕ → M Status
unfolding write_file
serial_write p s = elim (write_file p s).0 [
  | none ↦ (error, (write_file p s).1)
  | some k ↦ (ok, (write_file p s).1)
]

-- A short read is an error; what was read stays in the buffer.
unfoldable pub judge_read : ℕ → ComRead → M (Status × List ℕ)
judge_read size read_failed s = ((error, []), s)
judge_read size (chunk bs) s = if length bs == size then ((ok, bs), s) else ((error, bs), s)

unfoldable pub com_read_memory_linux : ℕ → ℕ → M (Status × List ℕ)
unfolding read_command serial_write read_file judge_read
com_read_memory_linux address size s =
    if s.com_link.port_is_open
    then (do
      sent ← serial_write (read_command address size)
      elim sent [
        | error ↦ pure (error, [])
        | ok ↦ do answer ← read_file size; judge_read size answer
      ])
        s
    else ((error, []), s)

unfoldable pub com_write_memory_linux : List ℕ → ℕ → ℕ → M Status
unfolding write_command serial_write
com_write_memory_linux buffer address size s =
    if s.com_link.port_is_open
    then (do
      named ← serial_write (write_command address size)
      if_ok named (serial_write (take size buffer)))
        s
    else (error, s)
