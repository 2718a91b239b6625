-- ===== src/Gdb/Message/Silence.antt =====
-- `gdb_get_message` over a connection on which nothing comes, where `recv` runs into its own timeout.
use rteget_data_linux_compat.Prelude.{List, if◌then◌else◌, suc, zero, ℕ, ◌==◌, ◌∷◌}
use rteget_data_linux_compat.State.{RecvEvent, State, failed, timed_out}

-- `n` calls of `recv` that run into the timeout of the socket, `step` milliseconds each.
pub silence : ℕ → ℕ → List RecvEvent → List RecvEvent
silence zero step rest = rest
silence (suc n) step rest = record { after = step; what = failed timed_out } ∷ silence n step rest

-- Later, and with these answers to come.
abbrev waited : State → ℕ → List RecvEvent → State
waited s t events = record s { now = t; gdb = record s.gdb { recv_events = events } }

-- RECV_TIMEOUT in place of 0.
abbrev pub time_limit : ℕ → ℕ
time_limit timeout = if timeout == 0 then 500 else timeout
