-- ===== src/CmdLine/Options.antt =====
-- The optional parameters: `process_one_cmd_line_parameter` of Code/cmd_line.cpp and what it calls.
pub mod Quotes
pub mod Limits
use rteget_data_linux_compat.Prelude.{
  Bool, List, Option, [], codes, drop, false, if◌then◌else◌, leb, length, ltb, next, none, peek,
  same_text, some, starts_with, true, ℕ, ◌&&◌, ◌++◌, ◌==◌, ◌∷◌,
}
use rteget_data_linux_compat.Scan.{scan_word}
use rteget_data_linux_compat.State.{Parameters, RtePort, com_port, gdb_port, tcp_buff_length, unset}
use mathlib.Core.Option

-- The sscanf of a number and the test that it is not zero.
nonzero : Option (ℕ × List ℕ) → Option ℕ
nonzero none = none
nonzero (some (n, rest)) = if n == 0 then none else some n

in_message_range : Option (ℕ × List ℕ) → Option ℕ
in_message_range none = none
in_message_range (some (n, rest)) = if leb 256 n && leb n tcp_buff_length then some n else none

unfoldable pub process_filter_value : List ℕ → Parameters → Option Parameters
unfolding scan_word
process_filter_value number p =
    Option.map (λ r. record p { filter = r.0; set_filter = true }) (scan_word 16 number)

unfoldable pub process_max_msg_length_value : List ℕ → Parameters → Option Parameters
unfolding scan_word in_message_range
process_max_msg_length_value number p =
    Option.map (λ n. record p { max_message_size = n }) (in_message_range (scan_word 10 number))

unfoldable pub process_delay_value : List ℕ → Parameters → Option Parameters
unfolding scan_word nonzero
process_delay_value number p =
    Option.map (λ n. record p { delay = n }) (nonzero (scan_word 10 number))

unfoldable pub process_com_timeout_value : List ℕ → Parameters → Option Parameters
unfolding scan_word nonzero
process_com_timeout_value number p =
    Option.map (λ n. record p { com_port = record p.com_port { recv_start_timeout = n } })
      (nonzero (scan_word 10 number))

unfoldable pub last_or : ℕ → List ℕ → ℕ
last_or d [] = d
last_or d (c ∷ p) = last_or c p

-- A text without its last character.
unfoldable pub init : List ℕ → List ℕ
init [] = []
init (c ∷ []) = []
init (c ∷ d ∷ p) = c ∷ init (d ∷ p)

-- Both marks or neither.
unfoldable pub remove_quotation_marks : List ℕ → Option (List ℕ)
unfolding last_or init
remove_quotation_marks parameter =
    if peek parameter == 34
    then (if ltb 1 (length parameter) && last_or 0 parameter == 34
        then some (init (next parameter))
        else none)
    else some parameter

-- MAX_DRIVERS is 5.
unfoldable pub add_driver_name : List ℕ → Parameters → Option Parameters
add_driver_name driver_name p =
    if leb 5 (length p.driver_names)
    then none
    else some
        (record p { driver_names = p.driver_names ++ (driver_name ∷ []); elevated_priority = true })

same_port : RtePort → RtePort → Bool
same_port gdb_port gdb_port = true
same_port com_port com_port = true
same_port unset unset = true
same_port a b = false

-- The option is allowed only for the port `mode`.
unfoldable pub check_mode : RtePort → Option Parameters → Parameters → Option Parameters
unfolding same_port
check_mode mode result p = if same_port mode p.active_interface then result else none

unfoldable pub with_text : List ℕ → (List ℕ → Option Parameters) → Option Parameters
unfolding remove_quotation_marks
with_text text use_text = elim (remove_quotation_marks text) [ none ↦ none | some t ↦ use_text t ]

needs_log_file : Parameters → Option Parameters
needs_log_file p = elim p.log_file [ none ↦ none | some f ↦ some (record p { debug_mode = true }) ]

-- The options without a value.
unfoldable pub process_flag : List ℕ → Parameters → Option Parameters
unfolding same_text check_mode needs_log_file
process_flag t p =
    if same_text t (codes "-clear")
    then some (record p { clear_buffer = true })
    else if same_text t (codes "-priority")
    then some (record p { elevated_priority = true })
    else if same_text t (codes "-debug")
    then needs_log_file p
    else if same_text t (codes "-detach")
    then check_mode gdb_port (some (record p { detach = true })) p
    else if same_text t (codes "-p")
    then some (record p { persistent_connection = true })
    else if same_text t (codes "-single_wire")
    then check_mode com_port
        (some (record p { com_port = record p.com_port { single_wire_communication = true } })) p
    else if starts_with t (codes "-com_timeout=")
    then check_mode com_port (process_com_timeout_value (drop 13 t) p) p
    else none

unfoldable pub process_one_cmd_line_parameter : List ℕ → Parameters → Option Parameters
unfolding starts_with process_delay_value process_filter_value with_text check_mode
    process_max_msg_length_value add_driver_name process_flag process_com_timeout_value
process_one_cmd_line_parameter t p =
    if starts_with t (codes "-delay=")
    then process_delay_value (drop 7 t) p
    else if starts_with t (codes "-filter=")
    then process_filter_value (drop 8 t) p
    else if starts_with t (codes "-bin=")
    then with_text (drop 5 t) (λ f. some (record p { bin_file_name = f }))
    else if starts_with t (codes "-ip=")
    then check_mode gdb_port (with_text (drop 4 t) (λ f. some (record p { ip_address = f }))) p
    else if starts_with t (codes "-log=")
    then with_text (drop 5 t) (λ f. some (record p { log_file = some f }))
    else if starts_with t (codes "-msgsize=")
    then process_max_msg_length_value (drop 9 t) p
    else if starts_with t (codes "-decode=")
    then with_text (drop 8 t) (λ f. some (record p { decode_file = some f }))
    else if starts_with t (codes "-start=")
    then with_text (drop 7 t) (λ f. some (record p { start_cmd_file = some f }))
    else if starts_with t (codes "-filter_names=")
    then with_text (drop 14 t) (λ f. some (record p { filter_names = some f }))
    else if starts_with t (codes "-driver=")
    then with_text (drop 8 t) (λ f. add_driver_name f p)
    else process_flag t p
