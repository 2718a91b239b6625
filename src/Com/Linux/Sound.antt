-- ===== src/Com/Linux/Sound.antt =====
-- What `com_read_memory` of the Linux implementation returns with RTE_OK.
use rteget_data_linux_compat.Com.Linux.{
  com_read_memory_linux, judge_read, read_command, serial_write,
}
use rteget_data_linux_compat.Com.Port.{read_file}
use rteget_data_linux_compat.Com.Port.Sound.{HasLength}
use rteget_data_linux_compat.Prelude.{Bool, List, [], arith, false, if◌then◌else◌, true, ℕ}
use rteget_data_linux_compat.State.{
  ComRead, M, State, Status, chunk, error, ok, pure, read_failed, ◌>>=◌,
}

refused-HasLength : (n : ℕ) (bs : List ℕ) → HasLength n (error, bs)
refused-HasLength n bs e = absurd (ground arith)

judge_read-HasLength :
    (n : ℕ) (answer : ComRead) (s : State) → HasLength n (judge_read n answer s).0
unfolding judge_read
judge_read-HasLength n read_failed s = refused-HasLength n []
judge_read-HasLength n (chunk bs) s = λ e. ground arith

answered-HasLength :
    (n : ℕ) (sent : Status) (s : State)
    → HasLength n
        ((elim sent as (λ x. M (Status × List ℕ)) [
          | error ↦ pure (error, [])
          | ok ↦ do answer ← read_file n; judge_read n answer
        ])
          s).0
answered-HasLength n error s = refused-HasLength n []
answered-HasLength n ok s = judge_read-HasLength n (read_file n s).0 (read_file n s).1

open_or_not-HasLength :
    (is_open : Bool) (n : ℕ) (read : M (Status × List ℕ)) (s : State)
    → HasLength n (read s).0
    → HasLength n
        (if◌then◌else◌ {A = (Status × List ℕ) × State} is_open (read s) ((error, []), s)).0
open_or_not-HasLength true n read s h = h
open_or_not-HasLength false n read s h = refused-HasLength n []

-- Whatever the port answers, a read with status ok has stored as many bytes as were asked for.
pub com_read_memory_linux-HasLength :
    (address n : ℕ) (s : State) → HasLength n (com_read_memory_linux address n s).0
unfolding com_read_memory_linux
com_read_memory_linux-HasLength address n s =
    let sent = serial_write (read_command address n) s in
    open_or_not-HasLength s.com_link.port_is_open n
      (do
        sent ← serial_write (read_command address n)
        elim sent [ error ↦ pure (error, []) | ok ↦ do answer ← read_file n; judge_read n answer ])
      s (answered-HasLength n sent.0 sent.1)
