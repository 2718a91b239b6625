-- ===== src/CmdLine/Port.antt =====
-- `process_port_type` of Code/cmd_line.cpp, as it is compiled on Linux.
pub mod Limits
use rteget_data_linux_compat.Prelude.{
  Bool, List, Option, [], codes, drop, false, if◌then◌else◌, is_digit, length, ltb, next, none,
  peek, some, starts_with, take, toupper, true, ℕ, ◌%◌, ◌&&◌, ◌-◌, ◌==◌, ◌^◌, ◌||◌, ◌∷◌,
}
use rteget_data_linux_compat.Scan.{is_space, scan_long, scan_word}
use rteget_data_linux_compat.State.{
  Parameters, Parity, StopBits, com_port, even_parity, gdb_port, no_parity, odd_parity,
  one_stop_bit, two_stop_bits,
}

unfoldable pub upper_prefix : List ℕ → List ℕ → Bool
unfolding toupper
upper_prefix [] p = true
upper_prefix (t ∷ ts) p = t == toupper (peek p) && upper_prefix ts (next p)

-- The name of a serial port: COM or tty in any case, or a path below /dev/.
unfoldable pub is_serial_name : List ℕ → Bool
unfolding upper_prefix starts_with
is_serial_name p =
    upper_prefix (codes "COM") p || (starts_with p (codes "/dev/") || upper_prefix (codes "TTY") p)

-- while (isdigit(*p)) p++
unfoldable pub skip_digits : List ℕ → List ℕ
unfolding is_digit
skip_digits [] = []
skip_digits (c ∷ p) = elim (is_digit c) [ true ↦ skip_digits p | false ↦ c ∷ p ]

-- while (*p && *p != '=' && !isspace(*p)) p++
unfoldable pub skip_name : List ℕ → List ℕ
unfolding is_space
skip_name [] = []
skip_name (c ∷ p) = elim (c == 0 || (c == b'=' || is_space c)) [
  | true ↦ c ∷ p
  | false ↦ skip_name p
]

-- What is behind the port's name.
unfoldable pub behind_name : List ℕ → List ℕ
unfolding upper_prefix skip_digits skip_name
behind_name p = if upper_prefix (codes "COM") p then skip_digits (drop 3 p) else skip_name p

-- Whether the loop over the name has taken a character.
unfoldable pub name_given : List ℕ → Bool
unfolding behind_name
name_given p =
    if upper_prefix (codes "COM") p
    then ltb (length (behind_name p)) (length (drop 3 p))
    else ltb (length (behind_name p)) (length p)

-- The parity for a letter, in upper case; 0 is the end of the text.
unfoldable pub parity_of : ℕ → Option Parity
parity_of c =
    if c == 0 || c == b'N'
    then some no_parity
    else if c == b'O'
    then some odd_parity
    else if c == b'E'
    then some even_parity
    else none

unfoldable pub stop_bits_of : ℕ → Option StopBits
stop_bits_of c =
    if c == 0 || c == b'1'
    then some one_stop_bit
    else if c == b'2'
    then some two_stop_bits
    else none

-- The letter, the digit and what is behind them.
unfoldable pub frame_of : List ℕ → Option (Parity × StopBits)
unfolding parity_of stop_bits_of toupper
frame_of p =
    let parity_char = toupper (peek p) in
    let after_parity = if parity_char == 0 then p else next p in
    let stop_bits_char = if parity_char == 0 then 0 else peek after_parity in
    let after_stop = if stop_bits_char == 0 then after_parity else next after_parity in
    elim (stop_bits_of stop_bits_char) [
      | none ↦ none
      | some bits ↦ elim (parity_of parity_char) [
        | none ↦ none
        | some frame_parity ↦ if peek after_stop == 0 then some (frame_parity, bits) else none
      ]
    ]

-- The default frame, and the greatest message (MAX_COM_RECEIVE_MSG_SIZE).
with_com_defaults : List ℕ → Parameters → Parameters
with_com_defaults name p = record p {
  active_interface = com_port;
  max_message_size = 65520;
  com_port = record p.com_port {
    name = name;
    baudrate = 9600;
    recv_start_timeout = 50;
    parity = no_parity;
    stop_bits = one_stop_bit;
  };
}

-- The name in front of what is behind it.
name_before : List ℕ → List ℕ → List ℕ
name_before p rest = take (length p - length rest) p

set_frame : ℕ → Option (Parity × StopBits) → Parameters → Option Parameters
set_frame baudrate none p = none
set_frame baudrate (some (frame_parity, bits)) p = some (record p {
  com_port = record p.com_port { baudrate = baudrate; parity = frame_parity; stop_bits = bits };
})

-- The text behind '=': a decimal number and the frame.
set_speed : Option (ℕ × List ℕ) → Parameters → Option Parameters
unfolding frame_of set_frame
set_speed none p = none
set_speed (some (baudrate, rest)) p = set_frame baudrate (frame_of rest) p

unfoldable pub process_com_port : List ℕ → Parameters → Option Parameters
unfolding behind_name name_given name_before with_com_defaults set_speed scan_long
process_com_port text p =
    let rest = behind_name text in
    let q = with_com_defaults (name_before text rest) p in
    if peek rest == 0
    then (if name_given text then some q else none)
    else if peek rest == b'='
    then set_speed (scan_long 10 (next rest)) q
    else none

unfoldable pub set_gdb_port : Option (ℕ × List ℕ) → Parameters → Option Parameters
set_gdb_port none p = none
set_gdb_port (some (n, rest)) p =
    some (record p { gdb_port = n % 2 ^ 16; active_interface = gdb_port })

unfoldable pub process_port_type : List ℕ → Parameters → Option Parameters
unfolding is_serial_name process_com_port set_gdb_port scan_word
process_port_type text p =
    if is_serial_name text then process_com_port text p else set_gdb_port (scan_word 10 text) p
