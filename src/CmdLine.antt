-- ===== src/CmdLine.antt =====
-- Code/cmd_line.cpp: the command line. `none` is the exit with the help text.
pub mod Port
pub mod Options
pub mod Check
pub mod Valid
use rteget_data_linux_compat.CmdLine.Check.{check_parameters}
use rteget_data_linux_compat.CmdLine.Options.{process_one_cmd_line_parameter}
use rteget_data_linux_compat.CmdLine.Port.{process_port_type}
use rteget_data_linux_compat.Prelude.{List, Option, [], codes, none, some, ℕ, ◌∷◌}
use rteget_data_linux_compat.Scan.{scan_word}
use rteget_data_linux_compat.State.{Parameters}

-- What a parameter does to the parameters read so far.
abbrev pub Setting : Type 0
Setting = Parameters → Option Parameters

abbrev pub both : Setting → Setting → Setting
both f g p = elim (f p) [ none ↦ none | some q ↦ g q ]

unfoldable pub set_start_address : Option (ℕ × List ℕ) → Setting
set_start_address none p = none
set_start_address (some (n, rest)) p = some (record p { start_address = n })

unfoldable pub set_structure_size : Option (ℕ × List ℕ) → Setting
set_structure_size none p = none
set_structure_size (some (n, rest)) p = some (record p { size = n })

-- The defaults are set before the first parameter is read.
unfoldable pub set_defaults : Setting
set_defaults p =
    some (record p { bin_file_name = codes "data.bin"; ip_address = codes "127.0.0.1" })

unfoldable pub process_options : List (List ℕ) → Setting
unfolding process_one_cmd_line_parameter
process_options [] p = some p
process_options (parameter ∷ parameters) p = elim (process_one_cmd_line_parameter parameter p) [
  | none ↦ none
  | some q ↦ process_options parameters q
]

-- The arguments behind the program's name.
unfoldable pub process_command_line_parameters : List (List ℕ) → Setting
unfolding set_defaults process_port_type set_start_address set_structure_size process_options
    check_parameters scan_word
process_command_line_parameters (port ∷ address ∷ size ∷ options) = both set_defaults (
    both (process_port_type port) (
      both (set_start_address (scan_word 16 address)) (
        both (set_structure_size (scan_word 16 size))
          (both (process_options options) check_parameters))))
process_command_line_parameters _ = λ p. none
