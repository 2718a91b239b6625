-- ===== src/App/Display.antt =====
-- The display of the header: `print_rtedbg_header_info`, `print_filter_info` and
-- `load_and_display_rtedbg_structure_header`. A result holds the text that is printed; `none` stands for
-- a call that ends the program.
pub mod Numbers
use rteget_data_linux_compat.App.Header.{
  check_header_info, msg_filtering_enabled, single_shot_logging_enabled, single_shot_was_active,
}
use rteget_data_linux_compat.App.Load.{load_rtedbg_structure_header}
use rteget_data_linux_compat.Bridge.{port_close_files_and_exit}
use rteget_data_linux_compat.Hex.{print_decimal, print_hex}
use rteget_data_linux_compat.Prelude.{
  Bool, List, Option, [], before_newline, bit, c_str, codes, false, if◌then◌else◌, length, ltb,
  mul32, none, not, some, suc, true, zero, ℕ, ◌&&◌, ◌++◌, ◌+◌, ◌==◌, ◌||◌, ◌∷◌,
}
use rteget_data_linux_compat.State.{M, Status, error, ok, pop_or, pop_rest, pure, ◌>>=◌, ◌>>◌}
use mathlib.Core.Option

-- filter & 0x80000000UL
unfoldable pub top_bit : ℕ → Bool
top_bit filter = bit filter 31 == 1

-- The numbers of the filters that are on, with the rounds left.
unfoldable pub print_filter_numbers : ℕ → ℕ → ℕ → Bool → List ℕ
unfolding top_bit print_decimal
print_filter_numbers zero i filter printed = []
print_filter_numbers (suc k) i filter printed =
    let rest = print_filter_numbers k (i + 1) (mul32 filter 2) (printed || top_bit filter) in
    if top_bit filter
    then (if printed then codes ", " else []) ++ (print_decimal i ++ rest)
    else rest

-- %2u
unfoldable pub print_number_2 : ℕ → List ℕ
unfolding print_decimal
print_number_2 i = if ltb i 10 then 32 ∷ print_decimal i else print_decimal i

-- Their names, a line of the file for each filter.
unfoldable pub print_filter_names : ℕ → ℕ → ℕ → List (List ℕ) → List ℕ
unfolding top_bit print_number_2 before_newline c_str
print_filter_names zero i filter names = []
print_filter_names (suc k) i filter names =
    let rest = print_filter_names k (i + 1) (mul32 filter 2) (pop_rest names) in
    let filter_name = before_newline (c_str (pop_or [] names)) in
    if top_bit filter && not (length filter_name == 0)
    then codes "\n" ++ (print_number_2 i ++ (codes " - " ++ (filter_name ++ rest)))
    else rest

unfoldable pub filter_title : ℕ → List ℕ
unfolding print_hex
filter_title filter =
    codes "\nEnabled message filters (0x" ++ (print_hex true 8 filter ++ codes "): ")

unfoldable pub print_filter_info : M (Option (List ℕ))
unfolding filter_title print_filter_numbers print_filter_names port_close_files_and_exit
print_filter_info s =
    let filter = s.rtedbg_header.filter in
    if filter == 0
    then (some (codes "\nMessage filter is zero (data logging disabled)."), s)
    else (elim s.parameters.filter_names [
      | none ↦ (some (filter_title filter ++ print_filter_numbers 32 0 filter false), s)
      | some name ↦ elim (s.host.text_file name) [
        | none ↦ (none, (port_close_files_and_exit s).1)
        | some names ↦ (some (filter_title filter ++ print_filter_names 32 0 filter names), s)
      ]
    ])

-- The mode is printed in front; the line with the sizes and the frequency is left out.
unfoldable pub print_rtedbg_header_info : M (Option (List ℕ))
unfolding print_filter_info
print_rtedbg_header_info s =
    let h = s.rtedbg_header in
    let mode =
      if single_shot_logging_enabled h && single_shot_was_active h
      then codes ", single shot mode"
      else codes ", post-mortem mode" in
    if not (msg_filtering_enabled h)
    then (some (mode ++ codes "\nMessage filtering disabled in the firmware."), s)
    else (Option.map (λ text. mode ++ text) (print_filter_info s).0, (print_filter_info s).1)

display_checked : Status → M (Option (List ℕ))
unfolding print_rtedbg_header_info
display_checked error s =
    (some (codes "\nIncorrect header info (incorrect address or rte_init() not executed)."), s)
display_checked ok s = print_rtedbg_header_info s

unfoldable pub load_and_display_rtedbg_structure_header : M (Option (List ℕ))
unfolding load_rtedbg_structure_header check_header_info display_checked
load_and_display_rtedbg_structure_header = do
  loaded ← load_rtedbg_structure_header
  elim loaded [
    | error ↦ pure (some [])
    | ok ↦ do checked ← check_header_info; display_checked checked
  ]
