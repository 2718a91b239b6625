-- ===== src/App/Keys.antt =====
-- The keys of the persistent connection, and the main program.
use rteget_data_linux_compat.App.Benchmark.{benchmark_data_transfer}
use rteget_data_linux_compat.App.Commands.{
  execute_commands_from_file, execute_commands_from_file_x, repeat_start_command_file,
}
use rteget_data_linux_compat.App.Display.{load_and_display_rtedbg_structure_header}
use rteget_data_linux_compat.App.Filter.{set_new_filter_value}
use rteget_data_linux_compat.App.Modes.{
  display_logging_state, switch_to_post_mortem_logging, switch_to_single_shot_logging,
}
use rteget_data_linux_compat.App.Transfer.{single_data_transfer}
use rteget_data_linux_compat.Bridge.{port_close, port_display_errors, port_open, port_reconnect}
use rteget_data_linux_compat.Logger.{disable_enable_logging_to_file, logging_to_file}
use rteget_data_linux_compat.Prelude.{
  List, Option, [], codes, false, if◌then◌else◌, leb, none, some, toupper, true, ℕ, ◌&&◌, ◌==◌,
  ◌||◌, ◌∷◌,
}
use rteget_data_linux_compat.State.{M, Status, error, ok, pure, ◌>>=◌, ◌>>◌}

-- Whether a call returns or ends the program.
pub data Flow : Type 0 where
  returns exits : Flow

unfoldable pub flow_of : Option (List ℕ) → Flow
flow_of none = exits
flow_of (some text) = returns

unfoldable pub display_key : M Flow
unfolding load_and_display_rtedbg_structure_header flow_of
display_key s = (
  flow_of (load_and_display_rtedbg_structure_header s).0,
  (load_and_display_rtedbg_structure_header s).1,
)

-- The actions of the keys. The help and the message for an unknown key only print.
unfoldable pub key_action : ℕ → M (Unit {0})
unfolding switch_to_single_shot_logging switch_to_post_mortem_logging set_new_filter_value
    port_reconnect repeat_start_command_file execute_commands_from_file_x single_data_transfer
    toupper benchmark_data_transfer disable_enable_logging_to_file
key_action key s =
    if toupper key == b'B'
    then (tt, (benchmark_data_transfer s).1)
    else if toupper key == b'S'
    then (tt, (switch_to_single_shot_logging s).1)
    else if toupper key == b'P'
    then (tt, (switch_to_post_mortem_logging s).1)
    else if toupper key == b'F'
    then set_new_filter_value none s
    else if toupper key == b'L'
    then (tt, (disable_enable_logging_to_file s).1)
    else if toupper key == b'R'
    then (tt, (port_reconnect s).1)
    else if key == b'0'
    then repeat_start_command_file s
    else if leb b'1' key && leb key b'9'
    then execute_commands_from_file_x key s
    else if key == 32
    then (tt, (single_data_transfer s).1)
    else (tt, s)

unfoldable pub key_flow : ℕ → M Flow
unfolding key_action display_key toupper
key_flow key s = if toupper key == b'H' then display_key s else (returns, (key_action key s).1)

unfoldable pub show_key_errors : M (Unit {0})
unfolding port_display_errors
show_key_errors s = (tt, (port_display_errors (codes "\nCould not execute command: ") s).1)

-- What the program waits for: a key, the answer to Esc, or the second code of a function key.
pub data Waiting : Type 0 where
  for_key for_answer for_second_code : Waiting

-- What a key starts.
pub data KeyKind : Type 0 where
  escape function_key command_key : KeyKind

unfoldable pub key_kind : ℕ → KeyKind
key_kind key =
    if key == 27 then escape else if key == 0xE0 || key == 0 then function_key else command_key

-- The polls of the keyboard, in order; getch waits through those that find no key. The program ends with
-- RTE_OK, by the answer Y, or in a call; it goes on when the list of polls ends.
unfoldable pub persistent_connection : Waiting → ℕ → List (Option ℕ) → M (Option Flow)
unfolding key_flow show_key_errors display_logging_state key_kind toupper
persistent_connection waiting start_time [] s = (none, s)
persistent_connection for_key start_time (none ∷ keys) s =
    let shown = display_logging_state start_time s in
    persistent_connection for_key shown.0.1 keys shown.1
persistent_connection for_key start_time (some key ∷ keys) s = elim (key_kind key) [
  | escape ↦ persistent_connection for_answer start_time keys s
  | function_key ↦ persistent_connection for_second_code start_time keys s
  | command_key ↦ elim (key_flow key s).0 [
    | exits ↦ (some exits, (key_flow key s).1)
    | returns ↦ persistent_connection for_key start_time keys (show_key_errors (key_flow key s).1).1
  ]
]
persistent_connection for_answer start_time (none ∷ keys) s =
    persistent_connection for_answer start_time keys s
persistent_connection for_answer start_time (some key ∷ keys) s = elim (toupper key == b'Y') [
  | true ↦ (some returns, s)
  | false ↦ persistent_connection for_key start_time keys (show_key_errors s).1
]
persistent_connection for_second_code start_time (none ∷ keys) s =
    persistent_connection for_second_code start_time keys s
persistent_connection for_second_code start_time (some key ∷ keys) s =
    persistent_connection for_key start_time keys (show_key_errors s).1

-- The exit code behind the keys: 0 after Y, 1 after an exit, none while the program runs.
unfoldable pub close_after : Option Flow → M (Option Status)
unfolding port_close
close_after none s = (none, s)
close_after (some exits) s = (some error, s)
close_after (some returns) s = (some ok, (port_close s).1)

run_persistent : M (Option Status)
unfolding persistent_connection close_after
run_persistent = do
  ended ← λ s. persistent_connection for_key s.now s.host.keys s
  close_after ended

report_transfer : Status → M (Unit {0})
unfolding port_display_errors logging_to_file
report_transfer ok s = (tt, s)
report_transfer error s =
    if logging_to_file s
    then (tt, (port_display_errors (codes "\nFailed to read data from the embedded system:") s).1)
    else (tt, s)

run_once : M (Option Status)
unfolding single_data_transfer report_transfer port_close
run_once = do rez ← single_data_transfer; report_transfer rez; port_close; pure (some rez)

connected : M (Option Status)
unfolding execute_commands_from_file run_persistent run_once port_close
connected = do
  started ← λ s. execute_commands_from_file s.parameters.start_cmd_file s
  elim started [
    | error ↦ do port_close; pure (some error)
    | ok ↦ λ s. if s.parameters.persistent_connection then run_persistent s else run_once s
  ]

-- `main` behind the command line: the exit code.
unfoldable pub run_program : M (Option Status)
unfolding port_open connected
run_program = do opened ← port_open; elim opened [ error ↦ pure (some error) | ok ↦ connected ]
