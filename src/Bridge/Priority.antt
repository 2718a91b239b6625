-- ===== src/Bridge/Priority.antt =====
-- Process priorities: `GetProcessIdByName`, `set_process_priority`, `increase_priorities` and
-- `decrease_priorities` of Code/bridge.cpp. A snapshot that cannot be taken is an empty list of processes.
pub mod Restore
use rteget_data_linux_compat.Prelude.{
  List, [], if◌then◌else◌, leb, length, same_text, ℕ, ◌==◌, ◌||◌, ◌∷◌,
}
use rteget_data_linux_compat.State.{M, Priority, linux, normal, realtime, win32}

-- The first process of the name; 0 if there is none.
unfoldable pub first_process : List ℕ → List (List ℕ × ℕ) → ℕ
unfolding same_text
first_process name [] = 0
first_process name (p ∷ ps) =
    let later = first_process name ps in if same_text name p.0 then p.1 else later

-- _MAX_PATH: a longer name is truncated, which counts as a failure.
abbrev pub max_path : ℕ
max_path = 260

unfoldable pub get_process_id_by_name : List ℕ → List (List ℕ × ℕ) → ℕ
unfolding first_process
get_process_id_by_name name snapshot =
    if length name == 0 || leb max_path (length name) then 0 else first_process name snapshot

-- OpenProcess and SetPriorityClass; either may be refused.
unfoldable pub set_priority_class : ℕ → Priority → M (Unit {0})
set_priority_class id class s = if s.processes.refuses id then (tt, s) else (
  tt,
  record s {
    processes = record s.processes {
      priority = λ other. if other == id then class else s.processes.priority other;
    };
  },
)

unfoldable pub set_process_priority : List ℕ → Priority → M (Unit {0})
unfolding get_process_id_by_name set_priority_class
set_process_priority name class s =
    if get_process_id_by_name name s.processes.running == 0
    then (tt, s)
    else set_priority_class (get_process_id_by_name name s.processes.running) class s

-- The loop over the drivers.
unfoldable pub set_driver_priorities : List (List ℕ) → Priority → M (Unit {0})
unfolding set_process_priority
set_driver_priorities [] class s = (tt, s)
set_driver_priorities (name ∷ names) class s =
    set_driver_priorities names class (set_process_priority name class s).1

unfoldable pub set_priorities : Priority → M (Unit {0})
unfolding set_priority_class set_driver_priorities
set_priorities class s =
    if s.parameters.elevated_priority
    then (elim s.platform [
      | win32 ↦
          set_driver_priorities s.parameters.driver_names class
            (set_priority_class s.processes.own_id class s).1
      | linux ↦ (tt, s)
    ])
    else (tt, s)

unfoldable pub increase_priorities : M (Unit {0})
unfolding set_priorities
increase_priorities = set_priorities realtime

unfoldable pub decrease_priorities : M (Unit {0})
unfolding set_priorities
decrease_priorities = set_priorities normal
