-- ===== src/App/Commands.antt =====
-- Command files and the commands in them.
use rteget_data_linux_compat.App.Buffer.{initialize_data_logging_structure}
use rteget_data_linux_compat.App.Filter.{set_new_filter_value}
use rteget_data_linux_compat.Bridge.{
  port_execute_command, port_flush, port_handle_unexpected_messages,
}
use rteget_data_linux_compat.Prelude.{
  List, Option, [], before_newline, codes, drop, if◌then◌else◌, none, some, starts_with, ℕ, ◌+◌,
  ◌==◌, ◌∷◌,
}
use rteget_data_linux_compat.Scan.{scan_word}
use rteget_data_linux_compat.State.{M, Status, error, ok}

-- "#delay xxx"
delay_command : Option (ℕ × List ℕ) → M (Unit {0})
unfolding port_flush
delay_command none s = (tt, s)
delay_command (some (n, rest)) s =
    if n == 0 then (tt, s) else port_flush (record s { now = s.now + n })

-- "#init config_word timestamp_frequency"
init_frequency : ℕ → Option (ℕ × List ℕ) → M (Unit {0})
unfolding initialize_data_logging_structure
init_frequency cfg_word none s = (tt, s)
init_frequency cfg_word (some (n, rest)) s =
    (tt, (initialize_data_logging_structure cfg_word n s).1)

init_command : Option (ℕ × List ℕ) → M (Unit {0})
unfolding init_frequency scan_word
init_command none s = (tt, s)
init_command (some (cfg_word, rest)) s = init_frequency cfg_word (scan_word 10 rest) s

unfoldable pub internal_command : List ℕ → M (Unit {0})
unfolding starts_with delay_command init_command set_new_filter_value scan_word
internal_command cmd_text s =
    if starts_with cmd_text (codes "##")
    then (tt, s)
    else if starts_with cmd_text (codes "#delay ")
    then delay_command (scan_word 10 (drop 7 cmd_text)) s
    else if starts_with cmd_text (codes "#init ")
    then init_command (scan_word 16 (drop 6 cmd_text)) s
    else if starts_with cmd_text (codes "#filter ")
    then set_new_filter_value (some (drop 8 cmd_text)) s
    else (tt, s)

-- Whether the loop over the lines goes on.
command_line : List ℕ → M Status
unfolding internal_command port_execute_command
command_line [] s = (ok, s)
command_line (c ∷ text) s =
    if c == b'#' then (ok, (internal_command (c ∷ text) s).1) else port_execute_command (c ∷ text) s

-- The lines of the file, as fgets returns them.
unfoldable pub execute_lines : List (List ℕ) → M (Unit {0})
unfolding before_newline command_line
execute_lines [] s = (tt, s)
execute_lines (line ∷ lines) s = elim (command_line (before_newline line) s).0 [
  | ok ↦ execute_lines lines (command_line (before_newline line) s).1
  | error ↦ (tt, (command_line (before_newline line) s).1)
]

execute_file : Option (List (List ℕ)) → M Status
unfolding execute_lines
execute_file none s = (error, s)
execute_file (some lines) s = (ok, (execute_lines lines s).1)

unfoldable pub execute_commands_from_file : Option (List ℕ) → M Status
unfolding execute_file port_handle_unexpected_messages
execute_commands_from_file none s = (ok, s)
execute_commands_from_file (some cmd_file) s =
    let s1 = (port_handle_unexpected_messages s).1 in execute_file (s1.host.text_file cmd_file) s1

-- The file of the -start argument.
unfoldable pub repeat_start_command_file : M (Unit {0})
unfolding execute_commands_from_file
repeat_start_command_file s = elim s.parameters.start_cmd_file [
  | none ↦ (tt, s)
  | some cmd_file ↦ (tt, (execute_commands_from_file (some cmd_file) s).1)
]

-- 1.cmd to 9.cmd
unfoldable pub execute_commands_from_file_x : ℕ → M (Unit {0})
unfolding execute_commands_from_file
execute_commands_from_file_x name_start s =
    (tt, (execute_commands_from_file (some (name_start ∷ codes ".cmd")) s).1)
