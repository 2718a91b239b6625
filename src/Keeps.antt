-- ===== src/Keeps.antt =====
-- Actions that keep a property of the state, and the ways in which the code puts actions together.
use rteget_data_linux_compat.Prelude.{Bool, false, if◌then◌else◌, true, ℕ, ◌≡◌}
use rteget_data_linux_compat.State.{Com, ErrCode, Gdb, Host, M, State, Status, error, if_ok, ok}

module _ {κ} (P : State → Type κ) where
  abbrev pub Keeps {ℓ} : {A : Type ℓ} → M A → Type κ
  Keeps m = (s : State) → P s → P (m s).1

  pub Keeps-if {ℓ} :
      {A : Type ℓ} (b : Bool) (m n : M A) → Keeps m → Keeps n → Keeps (if b then m else n)
  Keeps-if true m n hm hn = hm
  Keeps-if false m n hm hn = hn

  pub Keeps-if_at {ℓ} :
      {A : Type ℓ} (b : Bool) (r q : A × State)
      → P r.1
      → P q.1
      → P (if◌then◌else◌ {A = A × State} b r q).1
  Keeps-if_at true r q hr hq = hr
  Keeps-if_at false r q hr hq = hq

  pub Keeps-if_ok : (r : Status) (k : M Status) → Keeps k → Keeps (if_ok r k)
  Keeps-if_ok ok k hk s h = hk s h
  Keeps-if_ok error k hk s h = h

  pub Keeps-status {ℓ} :
      {A : Type ℓ} (r : Status) (m n : M A)
      → Keeps m
      → Keeps n
      → Keeps (elim r as (λ x. M A) [ ok ↦ m | error ↦ n ])
  Keeps-status ok m n hm hn = hm
  Keeps-status error m n hm hn = hn

-- What the GDB client may change without touching `P`: its own variables, the time and the error code.
pub record IsFrame {κ} (P : State → Type κ) : Type κ where
  pub keeps_gdb : (s : State) (g : Gdb) → P s → P (record s { gdb = g })
  pub keeps_now : (s : State) (n : ℕ) → P s → P (record s { now = n })
  pub keeps_error : (s : State) (e : ErrCode) → P s → P (record s { last_error = e })

-- The COM port is open or not as before, and as many handles were opened and closed.
abbrev pub SamePort : Com → Com → Type 0
SamePort c c' =
    (c'.port_is_open ≡ c.port_is_open)
    × (c'.handles_opened ≡ c.handles_opened)
    × (c'.handles_closed ≡ c.handles_closed)

-- What the transfers over the COM port may change without touching `P`.
pub record IsComFrame {κ} (P : State → Type κ) : Type κ where
  pub keeps_com :
      (s : State) (c : Com) → SamePort s.com_link c → P s → P (record s { com_link = c })
  pub keeps_com_error : (s : State) (e : ErrCode) → P s → P (record s { last_error = e })

-- The rest of the system, such as the answers of `malloc`, may change without touching `P`; the binary
-- file stays.
pub record IsHostFrame {κ} (P : State → Type κ) : Type κ where
  pub keeps_host :
      (s : State) (x : Host) → x.bin_file ≡ s.host.bin_file → P s → P (record s { host = x })
