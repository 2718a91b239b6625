-- ===== src/CmdLine/Check.antt =====
-- `check_parameters` of Code/cmd_line.cpp.
use rteget_data_linux_compat.Prelude.{
  Bool, Option, false, if◌then◌else◌, ltb, none, not, some, true, ◌%◌, ◌&&◌, ◌==◌, ◌||◌,
}
use rteget_data_linux_compat.State.{Parameters, RtePort, com_port, gdb_port, unset}

unfoldable pub is_com_port : RtePort → Bool
is_com_port com_port = true
is_com_port gdb_port = false
is_com_port unset = false

unfoldable pub check_parameters : Parameters → Option Parameters
unfolding is_com_port
check_parameters p =
    if not (p.size % 4 == 0) || (ltb p.size 80 && not (p.size == 0))
    then none
    else if not (p.start_address % 4 == 0)
    then none
    else if is_com_port p.active_interface && not (p.start_address == 0)
    then none
    else some p
