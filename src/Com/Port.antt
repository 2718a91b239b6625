-- ===== src/Com/Port.antt =====
-- The Windows implementation: bytes over the COM port. `com_send`, `com_receive` and what they call.
pub mod Sound
use rteget_data_linux_compat.Hex.Text.{total}
use rteget_data_linux_compat.Prelude.{
  Bool, List, Option, [], false, if◌then◌else◌, length, ltb, min, none, not, some, suc, take, true,
  zero, ℕ, ◌++◌, ◌+◌, ◌-◌, ◌==◌, ◌||◌, ◌∷◌,
}
use rteget_data_linux_compat.State.{
  ComRead, ComStat, M, Status, bad_input_data, chunk, com_buffer_overrun, com_receive, error, fail,
  ok, pop_or, pop_rest, pure, rcv_timeout, read_failed, send_timeout, ◌>>=◌, ◌>>◌,
}

unfoldable pub write_file : List ℕ → M (Option ℕ)
write_file p s = (
  pop_or (some (length p)) s.com_link.com_writes,
  record s {
    com_link = record s.com_link {
      com_writes = pop_rest s.com_link.com_writes;
      com_sent = s.com_link.com_sent ++ (p ∷ []);
    };
  },
)

unfoldable pub flush_file_buffers : M Bool
flush_file_buffers s = (
  pop_or true s.com_link.com_drains,
  record s { com_link = record s.com_link { com_drains = pop_rest s.com_link.com_drains } },
)

unfoldable pub at_most : ℕ → ComRead → ComRead
at_most n (chunk bs) = chunk (take n bs)
at_most n read_failed = read_failed

-- At most `n` bytes.
unfoldable pub read_file : ℕ → M ComRead
unfolding at_most
read_file n s = (
  at_most n (pop_or (chunk []) s.com_link.com_reads),
  record s { com_link = record s.com_link { com_reads = pop_rest s.com_link.com_reads } },
)

abbrev no_errors : ComStat
no_errors = record { any_error = false; overrun = false; in_queue = 0 }

unfoldable pub clear_comm_error : M (Option ComStat)
clear_comm_error s = (
  pop_or (some no_errors) s.com_link.com_stats,
  record s { com_link = record s.com_link { com_stats = pop_rest s.com_link.com_stats } },
)

-- The port takes all bytes and drains them, or the call fails.
unfoldable pub written_all : ℕ → Option ℕ → M Status
unfolding flush_file_buffers
written_all n none = fail send_timeout
written_all n (some k) =
    if k == n
    then (do drained ← flush_file_buffers; if drained then pure ok else fail send_timeout)
    else fail send_timeout

unfoldable pub com_send : List ℕ → M Status
unfolding write_file written_all
com_send p s =
    if not s.com_link.port_is_open || length p == 0
    then fail bad_input_data s
    else (do taken ← write_file p; written_all (length p) taken) s

-- What is in the receive queue is read once, 40 bytes at most, and the queue is purged.
unfoldable pub discard_queue : Option ComStat → M (Unit {0})
unfolding read_file
discard_queue none s = (tt, s)
discard_queue (some stat) s =
    if stat.in_queue == 0 then (tt, s) else (tt, (read_file (min 40 stat.in_queue) s).1)

unfoldable pub com_purge_and_log : M (Unit {0})
unfolding clear_comm_error discard_queue
com_purge_and_log s =
    if s.com_link.port_is_open then (do stat ← clear_comm_error; discard_queue stat) s else (tt, s)

unfoldable pub com_log_error : Option ComStat → M (Unit {0})
com_log_error none s = (tt, s)
com_log_error (some stat) s =
    if stat.any_error
    then (tt, record s { last_error = if stat.overrun then com_buffer_overrun else com_receive })
    else (tt, s)

-- The bytes of one call go in front of those of the next calls. An empty read ends the loop. The
-- status is that of the last call.
unfoldable pub more_bytes : ComRead → (ℕ → M (Status × List ℕ)) → M (Status × List ℕ)
more_bytes read_failed again s = ((error, []), s)
more_bytes (chunk []) again s = ((ok, []), s)
more_bytes (chunk (b ∷ bs)) again s = (
  ((again (length (b ∷ bs)) s).0.0, (b ∷ bs) ++ (again (length (b ∷ bs)) s).0.1),
  (again (length (b ∷ bs)) s).1,
)

-- The loop, with fuel for the bytes still wanted: each round but the last gets one at least.
unfoldable pub receive_loop : ℕ → ℕ → ℕ → M (Status × List ℕ)
unfolding read_file more_bytes
receive_loop zero size total s = ((ok, []), s)
receive_loop (suc fuel) size total s = elim (ltb total size) [
  | false ↦ ((ok, []), s)
  | true ↦
      let r = read_file (size - total) s in
      more_bytes r.0 (λ n. receive_loop fuel size (total + n)) r.1
]

-- The errors of the port, once something has come.
unfoldable pub log_errors : List ℕ → M (Unit {0})
unfolding clear_comm_error com_log_error
log_errors [] s = (tt, s)
log_errors (b ∷ bs) s = com_log_error (clear_comm_error s).0 (clear_comm_error s).1

-- `size` bytes have come, or the port timed out.
unfoldable pub received_all : ℕ → Status × List ℕ → M (Status × List ℕ)
unfolding log_errors
received_all size (error, bs) s = ((error, bs), s)
received_all size (ok, bs) s =
    let s1 = (log_errors bs s).1 in
    if length bs == size
    then ((ok, bs), s1)
    else ((error, bs), record s1 { last_error = rcv_timeout })

unfoldable pub com_receive_bytes : ℕ → M (Status × List ℕ)
unfolding receive_loop received_all
com_receive_bytes size s =
    if not s.com_link.port_is_open || size == 0
    then ((error, []), record s { last_error = bad_input_data })
    else (do bs ← receive_loop size size 0; received_all size bs) s
