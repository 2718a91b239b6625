-- ===== src/Com/Serial.antt =====
-- Opening the serial port on Linux: `get_baud_rate`, `set_serial_attributes` and `com_open`.
pub mod Names
use rteget_data_linux_compat.Hex.{print_decimal}
use rteget_data_linux_compat.Prelude.{
  Bool, List, Option, [], codes, drop, false, if◌then◌else◌, leb, min, next, none, peek, some,
  starts_with, take, true, ℕ, ◌%◌, ◌++◌, ◌+◌, ◌-◌, ◌/◌, ◌==◌, ◌^◌, ◌||◌, ◌∷◌,
}
use rteget_data_linux_compat.Scan.{scan_prefixed, skip_space}
use rteget_data_linux_compat.State.{
  ComPortPars, M, Parity, Status, StopBits, Tty, com_port, error, even_parity, modify_com,
  no_parity, odd_parity, ok, one_stop_bit, pop_or, pop_rest, pure, two_stop_bits, ◌>>=◌, ◌>>◌,
}

-- The baud rates that have a constant `B…`.
abbrev pub linux_speeds : List ℕ
linux_speeds =
    9600 ∷ 19200 ∷ 38400 ∷ 57600 ∷ 115200 ∷ 230400 ∷ 460800 ∷ 500000 ∷ 576000 ∷ 921600 ∷ 1000000
    ∷ 1152000 ∷ 1500000 ∷ 2000000 ∷ 2500000 ∷ 3000000 ∷ 3500000 ∷ 4000000 ∷ []

unfoldable pub listed : ℕ → List ℕ → Bool
listed n [] = false
listed n (m ∷ ms) = n == m || listed n ms

unfoldable pub get_baud_rate : ℕ → ℕ
unfolding listed
get_baud_rate baud = if listed baud linux_speeds then baud else 9600

unfoldable pub with_parity : Parity → Tty → Tty
with_parity odd_parity tty = record tty { parenb = true; parodd = true }
with_parity even_parity tty = record tty { parenb = true; parodd = false }
with_parity no_parity tty = record tty { parenb = false }

unfoldable pub has_two_stop_bits : StopBits → Bool
has_two_stop_bits one_stop_bit = false
has_two_stop_bits two_stop_bits = true

-- VTIME is a byte of tenths of a second. The other flags of the port stay as they were.
unfoldable pub configured_tty : ComPortPars → Tty → Tty
unfolding get_baud_rate with_parity has_two_stop_bits
configured_tty pars tty = record (with_parity pars.parity (record tty { parenb = false })) {
  speed = get_baud_rate pars.baudrate;
  cstopb = has_two_stop_bits pars.stop_bits;
  cs8 = true;
  crtscts = false;
  cread_clocal = true;
  input_processing = false;
  output_processing = false;
  canonical_echo = false;
  vtime = pars.recv_start_timeout / 100 % 256;
  vmin = 0;
}

-- One call that reads or writes the settings of the port.
unfoldable pub settings_call : M Bool
settings_call s = (
  pop_or true s.com_link.com_settings,
  record s { com_link = record s.com_link { com_settings = pop_rest s.com_link.com_settings } },
)

-- tcsetattr, which fails or takes the settings.
unfoldable pub store_tty : Bool → M Status
unfolding configured_tty
store_tty false s = (error, s)
store_tty true s = (
  ok,
  record s {
    com_link = record s.com_link { tty = configured_tty s.parameters.com_port s.com_link.tty };
  },
)

unfoldable pub set_serial_attributes : M Status
unfolding settings_call store_tty
set_serial_attributes = do
  got ← settings_call
  if got then (do taken ← settings_call; store_tty taken) else pure error

-- atoi: (int) strtol(p, NULL, 10), where strtol stops at the bounds of a 64-bit `long`; `none` is a
-- number that is not positive.
unfoldable pub atoi : List ℕ → Option ℕ
unfolding scan_prefixed skip_space
atoi p =
    let q = skip_space p in
    let magnitude : ℕ =
      elim (scan_prefixed 10 (if peek q == b'-' || peek q == b'+' then next q else q)) [
        | none ↦ 0
        | some (n, rest) ↦ n
      ] in
    let low : ℕ =
      (if peek q == b'-'
        then (2 ^ 64 - min magnitude (2 ^ 63)) % 2 ^ 32
        else min magnitude (2 ^ 63 - 1) % 2 ^ 32) in
    if low == 0 || leb (2 ^ 31) low then none else some low

-- The path that is opened; the buffer holds 63 characters.
unfoldable pub device_path : List ℕ → Option (List ℕ)
unfolding starts_with atoi print_decimal
device_path name =
    if starts_with name (codes "COM")
    then (elim (atoi (drop 3 name)) [
      | none ↦ none
      | some port_num ↦ some (take 63 (codes "/dev/ttyS" ++ print_decimal (port_num - 1)))
    ])
    else if peek name == b'/'
    then some (take 63 name)
    else some (take 63 (codes "/dev/" ++ name))

-- serial_fd = open(…)
unfoldable pub open_device : M Bool
open_device s =
    let granted = pop_or true s.com_link.com_opens in
    (
      granted,
      record s {
        com_link = record s.com_link {
          com_opens = pop_rest s.com_link.com_opens;
          port_is_open = granted;
          handles_opened =
              if granted then s.com_link.handles_opened + 1 else s.com_link.handles_opened;
        };
      },
    )

-- close(serial_fd); serial_fd = -1;
unfoldable pub close_device : M (Unit {0})
close_device =
    modify_com (λ c. record c { port_is_open = false; handles_closed = c.handles_closed + 1 })

unfoldable pub configure_device : Bool → M Status
unfolding set_serial_attributes close_device
configure_device false s = (error, s)
configure_device true s =
    (do
      set ← set_serial_attributes
      elim set [ ok ↦ pure ok | error ↦ do close_device; pure error ])
      s

unfoldable pub com_open_linux : M Status
unfolding device_path open_device configure_device
com_open_linux s = elim (device_path s.parameters.com_port.name) [
  | none ↦ (error, s)
  | some path ↦ (do granted ← open_device; configure_device granted) s
]

unfoldable pub com_close_linux : M (Unit {0})
unfolding close_device
com_close_linux s = if s.com_link.port_is_open then close_device s else (tt, s)
