-- ===== src/App/Benchmark/Ends.antt =====
-- How the benchmark ends.
use rteget_data_linux_compat.App.Benchmark.{
  allocate_times, benchmark_data_transfer, benchmark_is_over, benchmark_loop,
  benchmark_repeat_count, measure, poll_key, read_memory_block,
}
use rteget_data_linux_compat.App.Load.{load_rtedbg_structure_header}
use rteget_data_linux_compat.App.Modes.{quiet_log}
use rteget_data_linux_compat.Logger.{enable_logging}
use rteget_data_linux_compat.Prelude.{
  Bool, Option, arith, false, if◌then◌else◌, none, refl, some, suc, true, zero, ℕ, ◌+◌, ◌≡◌, ◌≤◌,
}
use rteget_data_linux_compat.State.{M, State, Status, error, ok, pure, ◌>>=◌, ◌>>◌}

over_or_on :
    (over : Bool) (n measurements : ℕ) (r r' : ℕ × State)
    → r.0 ≤ measurements + suc n
    → r'.0 ≤ suc measurements + n
    → (elim over as (λ x. ℕ × State) [ true ↦ r | false ↦ r' ]).0 ≤ measurements + suc n
over_or_on true n measurements r r' h h' = h
over_or_on false n measurements r r' h h' = omega (arith, h')

read_or_not :
    (read : Status) (bound : ℕ) (r r' : ℕ × State)
    → r.0 ≤ bound
    → r'.0 ≤ bound
    → (elim read as (λ x. ℕ × State) [ error ↦ r | ok ↦ r' ]).0 ≤ bound
read_or_not error bound r r' h h' = h
read_or_not ok bound r r' h h' = h'

benchmark_loop-le :
    (n begun measurements : ℕ) (s : State)
    → (benchmark_loop n begun measurements s).0 ≤ measurements + n
unfolding benchmark_loop
benchmark_loop-le zero begun measurements s = omega arith
benchmark_loop-le (suc n) begun measurements s =
    let r = read_memory_block s.parameters.start_address s.parameters.size s in
    let k = poll_key r.1 in
    let again = benchmark_loop n begun (suc measurements) k.1 in
    read_or_not r.0 (measurements + suc n) (measurements, r.1)
      (elim (benchmark_is_over begun k.0 k.1) [ true ↦ (suc measurements, k.1) | false ↦ again ])
      (omega arith)
      (over_or_on (benchmark_is_over begun k.0 k.1) n measurements (suc measurements, k.1) again
        (omega arith) (benchmark_loop-le n begun (suc measurements) k.1))

-- The number of measurements; none without a field for them.
abbrev pub measured : Option ℕ → ℕ
measured none = 0
measured (some n) = n

-- What holds of the end of a benchmark.
Ends : Option ℕ × State → Type 0
Ends r = (r.1.log.enabled ≡ true) × (measured r.0 ≤ benchmark_repeat_count)

exit : M (Option ℕ)
unfolding enable_logging
exit = do enable_logging true; pure none

exit-Ends : (s : State) → Ends (exit s)
unfolding Ends exit
exit-Ends s = (refl, omega arith)

measured-Ends :
    (granted : Bool) (s : State)
    → Ends (
        (if granted
            then (do
              measurements ← (λ s1. benchmark_loop benchmark_repeat_count s1.now 0 s1)
              enable_logging true
              pure (some measurements))
            else exit)
          s)
unfolding Ends enable_logging
measured-Ends true s = (refl, benchmark_loop-le benchmark_repeat_count s.now 0 s)
measured-Ends false s = exit-Ends s

measure-Ends : (s : State) → Ends (measure s)
unfolding measure exit
measure-Ends s = measured-Ends (allocate_times s).0 (allocate_times s).1

loaded-Ends :
    (loaded : Status) (s : State)
    → Ends ((elim loaded as (λ x. M (Option ℕ)) [ error ↦ exit | ok ↦ measure ]) s)
loaded-Ends error s = exit-Ends s
loaded-Ends ok s = measure-Ends s

-- On every path, also where the header cannot be loaded, no memory is left or a read fails, the benchmark
-- leaves the log switched on; and the measurements that it counts fit the field of 1000 that it allocates.
pub benchmark_data_transfer-ends :
    (s : State)
    → ((benchmark_data_transfer s).1.log.enabled ≡ true)
      × (measured (benchmark_data_transfer s).0 ≤ benchmark_repeat_count)
unfolding benchmark_data_transfer exit Ends
benchmark_data_transfer-ends s =
    let r = load_rtedbg_structure_header (quiet_log s).1 in loaded-Ends r.0 r.1
