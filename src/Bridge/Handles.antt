-- ===== src/Bridge/Handles.antt =====
-- The handles of the COM port, on either system.
use rteget_data_linux_compat.Bridge.{com_open}
use rteget_data_linux_compat.Com.Open.{
  close_handle, com_close_win32, com_open_win32, configure_port, create_file, max_port_name_len,
  named_port, opened_port, prepare_com_port_name, upper_name, upper_text,
}
use rteget_data_linux_compat.Com.Open.Handles.{
  Balances, com_open_linux-Balances, com_open_win32-Balances, held,
}
use rteget_data_linux_compat.Com.Serial.{com_open_linux, open_device, settings_call}
use rteget_data_linux_compat.Prelude.{
  Bool, Bool-cases, List, Option, arith, false, inl, inr, none, refl, some, suc, true, zero, ℕ, ◌∙◌,
  ◌≡◌,
}
use rteget_data_linux_compat.State.{
  Platform, State, Status, com_cannot_open_port, error, if_ok, linux, no_error, ok, pop_or, pure,
  set_last_error, win32, ◌>>◌,
}
use mathlib.Core.Path.{subst}

-- On Windows and on Linux, whatever the port is called and whichever call of the system fails: `com_open`
-- leaves one handle more open than before if it returns RTE_OK, and none if it returns RTE_ERROR.
pub com_open-Balances : (s : State) → Balances (held (com_open s).0) s (com_open s).1
unfolding com_open
com_open-Balances s = branch s.platform
  where
    branch :
        (p : Platform)
        → (let r : Status × State = elim p [
          | win32 ↦ com_open_win32 s
          | linux ↦ com_open_linux s
        ] in
            Balances (held r.0) s r.1)
    branch win32 = com_open_win32-Balances s
    branch linux = com_open_linux-Balances s

closed_once_more :
    (s0 s : State)
    → Balances 0 s0 s
    → s.com_link.port_is_open ≡ true
    → s0.com_link.handles_closed ≡ s0.com_link.handles_opened
    → (com_close_win32 s).1.com_link.handles_closed
      ≡ suc (com_close_win32 s).1.com_link.handles_opened
unfolding com_close_win32 close_handle
closed_once_more s0 s b e h = rw (e, com_close_win32) (omega (arith, b, h))

configure_port-open :
    (calls : ℕ) (s : State)
    → (configure_port calls s).1.com_link.port_is_open ≡ s.com_link.port_is_open
unfolding configure_port settings_call close_handle
configure_port-open zero s = refl
configure_port-open (suc calls) s = elim (Bool-cases (settings_call s).0) [
  | inl e ↦ rw (e, configure_port) (configure_port-open calls (settings_call s).1)
  | inr e ↦ rw (e, configure_port) refl
]

opened_port-open :
    (s : State) → (opened_port true s).1.com_link.port_is_open ≡ s.com_link.port_is_open
unfolding opened_port
opened_port-open s =
    configured (configure_port 4 s).0 (configure_port 4 s).1 (configure_port-open 4 s)
  where
    configured :
        (r : Status) (s1 : State)
        → s1.com_link.port_is_open ≡ s.com_link.port_is_open
        → (if_ok r (do set_last_error no_error; pure ok) s1).1.com_link.port_is_open
          ≡ s.com_link.port_is_open
    configured ok s1 h = h
    configured error s1 h = h

granted_port-open :
    (granted : Bool) (s : State)
    → granted ≡ true
    → s.com_link.port_is_open ≡ granted
    → (opened_port granted s).1.com_link.port_is_open ≡ true
granted_port-open true s g h = opened_port-open s ∙ h
granted_port-open false s g h = absurd (ground arith)

named_port-open :
    (name : Option (List ℕ)) (port_name : List ℕ) (s : State)
    → name ≡ some port_name
    → pop_or true s.com_link.com_opens ≡ true
    → (named_port name s).1.com_link.port_is_open ≡ true
unfolding named_port create_file open_device
named_port-open none port_name s e g = absurd (ground arith)
named_port-open (some n) port_name s e g =
    granted_port-open (pop_or true s.com_link.com_opens) (create_file s).1 g refl

-- On Windows, if the name of the port is good and the system grants it, but `com_open` returns RTE_ERROR
-- all the same: it has closed the handle and keeps it, and if before it as many handles had been closed as
-- opened, the next `com_close` closes one handle more than was ever opened.
pub com_close_win32-stale :
    (s : State) (port_name : List ℕ)
    → s.com_link.handles_closed ≡ s.com_link.handles_opened
    → prepare_com_port_name (upper_text s.parameters.com_port.name) max_port_name_len
      ≡ some port_name
    → pop_or true s.com_link.com_opens ≡ true
    → (com_open_win32 s).0 ≡ error
    → (com_close_win32 (com_open_win32 s).1).1.com_link.handles_closed
      ≡ suc (com_close_win32 (com_open_win32 s).1).1.com_link.handles_opened
unfolding com_open_win32 upper_name
com_close_win32-stale s port_name h good granted e =
    closed_once_more s (com_open_win32 s).1
      (subst (λ r. Balances (held r) s (com_open_win32 s).1) e (com_open_win32-Balances s))
      (named_port-open
        (prepare_com_port_name (upper_text s.parameters.com_port.name) max_port_name_len) port_name
        (upper_name (set_last_error com_cannot_open_port s).1).1 good granted)
      h
