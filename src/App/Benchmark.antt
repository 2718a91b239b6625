-- ===== src/App/Benchmark.antt =====
-- The benchmark of reading memory: `benchmark_data_transfer`. The times it measures and the report it
-- prints and writes are left out.
pub mod Ends
use rteget_data_linux_compat.App.Buffer.{store_block}
use rteget_data_linux_compat.App.Load.{load_rtedbg_structure_header}
use rteget_data_linux_compat.App.Modes.{quiet_log}
use rteget_data_linux_compat.Bridge.{port_read_memory}
use rteget_data_linux_compat.Logger.{enable_logging}
use rteget_data_linux_compat.Prelude.{
  Bool, Option, false, if◌then◌else◌, ltb, none, some, suc, true, zero, ℕ, ◌-◌, ◌||◌,
}
use rteget_data_linux_compat.State.{
  M, State, Status, error, ok, pop_or, pop_rest, pure, ◌>>=◌, ◌>>◌,
}

-- BENCHMARK_REPEAT_COUNT and MAX_BENCHMARK_TIME_MS
abbrev pub benchmark_repeat_count : ℕ
benchmark_repeat_count = 1000

abbrev pub max_benchmark_time_ms : ℕ
max_benchmark_time_ms = 20000

-- The block is read into the buffer for the structure.
unfoldable pub read_memory_block : ℕ → ℕ → M Status
unfolding port_read_memory store_block
read_memory_block address block_size s =
    let r = port_read_memory address block_size s in
    (r.0.0, elim r.1.p_rtedbg_structure [ none ↦ r.1 | some b ↦ store_block b r.0.1 r.1 ])

-- kbhit()
unfoldable pub poll_key : M Bool
poll_key s = (
  pop_or false s.host.benchmark_polls,
  record s { host = record s.host { benchmark_polls = pop_rest s.host.benchmark_polls } },
)

-- After a measurement: a key or the time ends the benchmark.
unfoldable pub benchmark_is_over : ℕ → Bool → State → Bool
benchmark_is_over benchmark_start key s = key || ltb max_benchmark_time_ms (s.now - benchmark_start)

-- The number of measurements that succeeded, with the rounds left.
unfoldable pub benchmark_loop : ℕ → ℕ → ℕ → M ℕ
unfolding read_memory_block poll_key benchmark_is_over
benchmark_loop zero benchmark_start measurements s = (measurements, s)
benchmark_loop (suc n) benchmark_start measurements s =
    let r = read_memory_block s.parameters.start_address s.parameters.size s in
    let k = poll_key r.1 in
    elim r.0 [
      | error ↦ (measurements, r.1)
      | ok ↦ elim (benchmark_is_over benchmark_start k.0 k.1) [
        | true ↦ (suc measurements, k.1)
        | false ↦ benchmark_loop n benchmark_start (suc measurements) k.1
      ]
    ]

-- malloc of the field of measurements.
unfoldable pub allocate_times : M Bool
allocate_times s = (
  pop_or true s.host.mallocs,
  record s { host = record s.host { mallocs = pop_rest s.host.mallocs } },
)

-- The number of measurements; there is a report if it is more than one.
unfoldable pub measure : M (Option ℕ)
unfolding allocate_times benchmark_loop enable_logging
measure = do
  granted ← allocate_times
  if granted
      then (do
        measurements ← (λ s. benchmark_loop benchmark_repeat_count s.now 0 s)
        enable_logging true
        pure (some measurements))
      else (do enable_logging true; pure none)

unfoldable pub benchmark_data_transfer : M (Option ℕ)
unfolding quiet_log load_rtedbg_structure_header measure enable_logging
benchmark_data_transfer = do
  quiet_log
  loaded ← load_rtedbg_structure_header
  elim loaded [ error ↦ do enable_logging true; pure none | ok ↦ measure ]
