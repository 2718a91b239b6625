-- ===== src/Com/Open/Handles.antt =====
-- The handles of the port that are opened and closed.
use rteget_data_linux_compat.Com.Open.{
  close_handle, com_open_win32, configure_port, create_file, max_port_name_len, named_port,
  opened_port, prepare_com_port_name, upper_name,
}
use rteget_data_linux_compat.Com.Serial.{
  close_device, com_open_linux, configure_device, device_path, open_device, set_serial_attributes,
  settings_call, store_tty,
}
use rteget_data_linux_compat.Keeps.{Keeps-if}
use rteget_data_linux_compat.Prelude.{
  Bool, Bool-cases, List, Option, Option-cases, arith, false, if◌then◌else◌, inl, inr, none, some,
  suc, true, zero, ℕ, ◌+◌, ◌≡◌,
}
use rteget_data_linux_compat.State.{
  M, State, Status, com_cannot_open_port, error, if_ok, no_error, ok, pop_or, pure, set_last_error,
  ◌>>=◌, ◌>>◌,
}

abbrev pub held : Status → ℕ
held ok = 1
held error = 0

-- Behind a call with this status: one handle more is open after success, and none after an error.
abbrev pub Balances : ℕ → State → State → Type 0
Balances n s s1 =
    s1.com_link.handles_opened + s.com_link.handles_closed
    ≡ s.com_link.handles_opened + s1.com_link.handles_closed + n

Balances-refl : (s : State) → Balances 0 s s
Balances-refl s = omega arith

open_device-Balances :
    (s : State) → Balances (if (open_device s).0 then 1 else 0) s (open_device s).1
unfolding open_device
open_device-Balances s = elim (Bool-cases (pop_or true s.com_link.com_opens)) [
  | inl e ↦ rw (e, open_device) (omega arith)
  | inr e ↦ rw (e, open_device) (omega arith)
]

-- Windows: from an open handle on.
configure_port-Balances :
    (calls : ℕ) (s0 s : State)
    → Balances 1 s0 s
    → Balances (held (configure_port calls s).0) s0 (configure_port calls s).1
unfolding configure_port close_handle settings_call
configure_port-Balances zero s0 s h = h
configure_port-Balances (suc calls) s0 s h =
    elim (Bool-cases (pop_or true s.com_link.com_settings)) [
      | inl e ↦ rw (e, configure_port) (configure_port-Balances calls s0 (settings_call s).1 h)
      | inr e ↦ rw (e, configure_port) (omega (arith, h))
    ]

no_error_left :
    (set : Status) (s0 s : State)
    → Balances (held set) s0 s
    → Balances
        (held (if_ok set (do set_last_error no_error; pure ok) s).0)
        s0
        (if_ok set (do set_last_error no_error; pure ok) s).1
no_error_left ok s0 s h = h
no_error_left error s0 s h = h

opened_port-Balances :
    (granted : Bool) (s0 s : State)
    → Balances (if granted then 1 else 0) s0 s
    → Balances (held (opened_port granted s).0) s0 (opened_port granted s).1
unfolding opened_port
opened_port-Balances false s0 s h = h
opened_port-Balances true s0 s h =
    no_error_left (configure_port 4 s).0 s0 (configure_port 4 s).1
      (configure_port-Balances 4 s0 s h)

named_port-Balances :
    (port_name : Option (List ℕ)) (s : State)
    → Balances (held (named_port port_name s).0) s (named_port port_name s).1
unfolding named_port create_file
named_port-Balances none s = Balances-refl s
named_port-Balances (some port_name) s =
    opened_port-Balances (open_device s).0 s (open_device s).1 (open_device-Balances s)

pub com_open_win32-Balances :
    (s : State) → Balances (held (com_open_win32 s).0) s (com_open_win32 s).1
unfolding com_open_win32 upper_name
com_open_win32-Balances s =
    let s1 = (upper_name (record s { last_error = com_cannot_open_port })).1 in
    named_port-Balances (prepare_com_port_name s1.parameters.com_port.name max_port_name_len) s1

-- Linux.
store_tty-Balances :
    (taken : Bool) (s0 s : State) → Balances 1 s0 s → Balances 1 s0 (store_tty taken s).1
unfolding store_tty
store_tty-Balances true s0 s h = h
store_tty-Balances false s0 s h = h

judged : Status → M Status
unfolding close_device
judged set = elim set [ ok ↦ pure ok | error ↦ do close_device; pure error ]

judged-Balances :
    (set : Status) (s0 s : State)
    → Balances 1 s0 s
    → Balances (held (judged set s).0) s0 (judged set s).1
unfolding judged close_device
judged-Balances ok s0 s h = h
judged-Balances error s0 s h = omega (arith, h)

set_serial_attributes-Balances :
    (s0 s : State) → Balances 1 s0 s → Balances 1 s0 (set_serial_attributes s).1
unfolding set_serial_attributes settings_call store_tty
set_serial_attributes-Balances s0 s h =
    let store : M Status = (do taken ← settings_call; store_tty taken) in
    Keeps-if (Balances 1 s0) (settings_call s).0 store (pure error)
      (λ s1 k. store_tty-Balances (settings_call s1).0 s0 (settings_call s1).1 k) (λ s1 k. k)
      (settings_call s).1 h

configure_device-Balances :
    (granted : Bool) (s0 s : State)
    → Balances (if granted then 1 else 0) s0 s
    → Balances (held (configure_device granted s).0) s0 (configure_device granted s).1
unfolding configure_device judged
configure_device-Balances false s0 s h = h
configure_device-Balances true s0 s h =
    judged-Balances (set_serial_attributes s).0 s0 (set_serial_attributes s).1
      (set_serial_attributes-Balances s0 s h)

pub com_open_linux-Balances :
    (s : State) → Balances (held (com_open_linux s).0) s (com_open_linux s).1
unfolding com_open_linux
com_open_linux-Balances s = elim (Option-cases (device_path s.parameters.com_port.name)) [
  | inl e ↦ rw (e, com_open_linux) (Balances-refl s)
  | inr (p, e) ↦
      rw (e, com_open_linux)
        (configure_device-Balances (open_device s).0 s (open_device s).1 (open_device-Balances s))
]
