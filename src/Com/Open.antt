-- ===== src/Com/Open.antt =====
-- Opening and closing the COM port on Windows: `prepare_com_port_name`, `com_open` and `com_close`.
pub mod Handles
use rteget_data_linux_compat.Com.Serial.{open_device, settings_call}
use rteget_data_linux_compat.Prelude.{
  Bool, List, Option, [], codes, false, if◌then◌else◌, length, ltb, none, not, some, starts_with,
  suc, toupper, true, zero, ℕ, ◌+◌, ◌∷◌,
}
use rteget_data_linux_compat.State.{
  M, Status, com_cannot_open_port, com_port, error, if_ok, modify_com, no_error, ok, pure,
  set_last_error, ◌>>=◌, ◌>>◌,
}

-- The name behind \\.\, in a buffer of `buffer_size` characters.
unfoldable pub prepare_com_port_name : List ℕ → ℕ → Option (List ℕ)
unfolding starts_with
prepare_com_port_name input_port buffer_size =
    if not (starts_with input_port (codes "COM"))
    then none
    else if ltb buffer_size (4 + length input_port + 1)
    then none
    else some (92 ∷ 92 ∷ b'.' ∷ 92 ∷ input_port)

-- MAX_PORT_NAME_LEN
abbrev pub max_port_name_len : ℕ
max_port_name_len = 16

unfoldable pub upper_text : List ℕ → List ℕ
unfolding toupper
upper_text [] = []
upper_text (c ∷ p) = toupper c ∷ upper_text p

-- The name is changed in place.
unfoldable pub upper_name : M (Unit {0})
unfolding upper_text
upper_name s = (
  tt,
  record s {
    parameters = record s.parameters {
      com_port = record s.parameters.com_port { name = upper_text s.parameters.com_port.name };
    };
  },
)

-- h_com_port = CreateFile(…); without a port the handle is invalid.
unfoldable pub create_file : M Bool
unfolding open_device
create_file = open_device

-- CloseHandle(h_com_port), which leaves the variable as it is.
unfoldable pub close_handle : M (Unit {0})
close_handle = modify_com (λ c. record c { handles_closed = c.handles_closed + 1 })

-- GetCommState, SetCommState, SetCommTimeouts and SetupComm: each may fail, and then the handle is closed.
unfoldable pub configure_port : ℕ → M Status
unfolding settings_call close_handle
configure_port zero s = (ok, s)
configure_port (suc calls) s = elim (settings_call s).0 [
  | true ↦ configure_port calls (settings_call s).1
  | false ↦ (error, (close_handle (settings_call s).1).1)
]

unfoldable pub opened_port : Bool → M Status
unfolding configure_port
opened_port false s = (error, s)
opened_port true s = (do set ← configure_port 4; if_ok set (do set_last_error no_error; pure ok)) s

unfoldable pub named_port : Option (List ℕ) → M Status
unfolding create_file opened_port
named_port none s = (error, s)
named_port (some port_name) s = (do granted ← create_file; opened_port granted) s

unfoldable pub com_open_win32 : M Status
unfolding upper_name prepare_com_port_name named_port
com_open_win32 = do
  set_last_error com_cannot_open_port
  upper_name
  λ s. named_port (prepare_com_port_name s.parameters.com_port.name max_port_name_len) s

unfoldable pub com_close_win32 : M (Unit {0})
unfolding close_handle
com_close_win32 s = if s.com_link.port_is_open then close_handle s else (tt, s)
