-- ===== src/Gdb/Session/Sockets.antt =====
-- The sockets that a connection opens and closes.
use rteget_data_linux_compat.Prelude.{ℕ, ◌+◌, ◌≡◌}
use rteget_data_linux_compat.State.{State, Status, error, ok, ◌>>=◌, ◌>>◌}

-- The sockets that stay open behind a call, beyond those before it.
OpensSockets : ℕ → State → State → Type 0
OpensSockets n s s1 =
    s1.gdb.sockets_opened + s.gdb.sockets_closed ≡ s.gdb.sockets_opened + s1.gdb.sockets_closed + n

socket_of : Status → ℕ
socket_of ok = 1
socket_of error = 0
