-- ===== src/Bridge/Sound.antt =====
-- What `port_read_memory` returns with RTE_OK, over any link.
use rteget_data_linux_compat.Bridge.{com_read_memory, port_read_memory}
use rteget_data_linux_compat.Com.Linux.{com_read_memory_linux}
use rteget_data_linux_compat.Com.Linux.Sound.{com_read_memory_linux-HasLength}
use rteget_data_linux_compat.Com.Port.Sound.{HasLength}
use rteget_data_linux_compat.Com.Protocol.{com_read_memory_win32}
use rteget_data_linux_compat.Com.Protocol.Sound.{com_read_memory_win32-ok}
use rteget_data_linux_compat.Gdb.Memory.{gdb_read_memory}
use rteget_data_linux_compat.Gdb.Memory.Complete.{gdb_read_memory-ok}
use rteget_data_linux_compat.Prelude.{
  Bool, List, [], ap, arith, false, if◌then◌else◌, length, refl, true, ℕ, ◌<◌, ◌==◌, ◌≡◌,
}
use rteget_data_linux_compat.State.{
  Platform, RtePort, State, Status, bad_input_data, com_port, error, gdb_port, linux, no_error, ok,
  unset, win32,
}
use mathlib.Core.Path.{subst}

failed-HasLength : (n : ℕ) (bs : List ℕ) → HasLength n (error, bs)
failed-HasLength n bs e = absurd (ground arith)

gdb-HasLength : (address n : ℕ) (s : State) → HasLength n (gdb_read_memory address n s).0
gdb-HasLength address n s e =
    (gdb_read_memory-ok address n s (gdb_read_memory address n s).0.1
      (ap (λ (st : Status). (st, (gdb_read_memory address n s).0.1)) e)).0

com_read_memory-HasLength :
    (address n : ℕ) (s : State) → HasLength n (com_read_memory address n s).0
unfolding com_read_memory
com_read_memory-HasLength address n s = branch s.platform
  where
    branch :
        (p : Platform)
        → HasLength n
            (elim p as (λ x. (Status × List ℕ) × State) [
              | win32 ↦ com_read_memory_win32 address n s
              | linux ↦ com_read_memory_linux address n s
            ]).0
    branch win32 e =
        com_read_memory_win32-ok address n s (com_read_memory_win32 address n s).0.1
          (ap (λ (st : Status). (st, (com_read_memory_win32 address n s).0.1)) e)
    branch linux e = com_read_memory_linux-HasLength address n s e

port_branch-HasLength :
    (empty : Bool) (port : RtePort) (address n : ℕ) (s s1 : State)
    → HasLength n
        (if◌then◌else◌ {A = (Status × List ℕ) × State} empty
          ((error, []), s)
          (elim port [
            | gdb_port ↦ gdb_read_memory address n s1
            | com_port ↦ com_read_memory address n s1
            | unset ↦ ((error, []), s1)
          ])).0
port_branch-HasLength true port address n s s1 = failed-HasLength n []
port_branch-HasLength false gdb_port address n s s1 = gdb-HasLength address n s1
port_branch-HasLength false com_port address n s s1 = com_read_memory-HasLength address n s1
port_branch-HasLength false unset address n s s1 = failed-HasLength n []

port_branch-empty :
    (empty : Bool) (r : (Status × List ℕ) × State) (s : State) (bs : List ℕ)
    → (if◌then◌else◌ {A = (Status × List ℕ) × State} empty ((error, []), s) r).0 ≡ (ok, bs)
    → empty ≡ false
port_branch-empty true r s bs e = absurd (ground arith)
port_branch-empty false r s bs e = refl

positive : (n : ℕ) → (n == 0) ≡ false → 0 < n
positive n e = ground arith

-- Over either interface, on either platform, and whatever the other side answers: if `port_read_memory`
-- returns RTE_OK, it has stored exactly as many bytes as were asked for, and this is more than none.
pub port_read_memory-ok :
    (address size : ℕ) (s : State) (bs : List ℕ)
    → (port_read_memory address size s).0 ≡ (ok, bs)
    → (length bs ≡ size) × (0 < size)
unfolding port_read_memory
port_read_memory-ok address size s bs e = (
  subst (HasLength size) e
      (port_branch-HasLength (size == 0) s.parameters.active_interface address size
        (record s { last_error = bad_input_data }) (record s { last_error = no_error }))
      refl,
  positive size (port_branch-empty (size == 0) _ (record s { last_error = bad_input_data }) bs e),
)
