-- ===== src/Com/Frame.antt =====
-- The transfers over the COM port leave the port as it is, and change nothing else but the error code.
pub mod Whole
use rteget_data_linux_compat.Com.Port.{
  clear_comm_error, com_log_error, com_purge_and_log, com_receive_bytes, com_send, discard_queue,
  flush_file_buffers, log_errors, more_bytes, read_file, receive_loop, received_all, write_file,
  written_all,
}
use rteget_data_linux_compat.Hex.Text.{total}
use rteget_data_linux_compat.Keeps.{IsComFrame, Keeps, Keeps-if, Keeps-if_at}
use rteget_data_linux_compat.Prelude.{
  Bool-cases, List, Option, [], if◌then◌else◌, inl, inr, length, ltb, min, none, not, refl, some,
  suc, zero, ℕ, ◌+◌, ◌-◌, ◌==◌, ◌||◌, ◌∷◌,
}
use rteget_data_linux_compat.State.{
  ComRead, ComStat, ErrCode, M, State, Status, bad_input_data, chunk, com_buffer_overrun,
  com_receive, error, fail, ok, pure, rcv_timeout, read_failed, send_timeout, ◌>>=◌, ◌>>◌,
}

module _ {κ} (P : State → Type κ) (f : IsComFrame P) where
  pub write_file-Frame : (p : List ℕ) → Keeps P (write_file p)
  unfolding write_file
  write_file-Frame p s h = f.keeps_com s _ (refl, refl, refl) h

  pub read_file-Frame : (n : ℕ) → Keeps P (read_file n)
  unfolding read_file
  read_file-Frame n s h = f.keeps_com s _ (refl, refl, refl) h

  flush_file_buffers-Frame : Keeps P flush_file_buffers
  unfolding flush_file_buffers
  flush_file_buffers-Frame s h = f.keeps_com s _ (refl, refl, refl) h

  clear_comm_error-Frame : Keeps P clear_comm_error
  unfolding clear_comm_error
  clear_comm_error-Frame s h = f.keeps_com s _ (refl, refl, refl) h

  pub fail-Frame : (e : ErrCode) → Keeps P (fail e)
  fail-Frame e s h = f.keeps_com_error s e h

  written_all-Frame : (n : ℕ) (taken : Option ℕ) → Keeps P (written_all n taken)
  unfolding written_all
  written_all-Frame n none s h = fail-Frame send_timeout s h
  written_all-Frame n (some k) s h =
      Keeps-if P (k == n)
        (do drained ← flush_file_buffers; if drained then pure ok else fail send_timeout)
        (fail send_timeout)
        (λ s1 k1.
          Keeps-if P (flush_file_buffers s1).0 (pure ok) (fail send_timeout) (λ s2 k2. k2)
            (fail-Frame send_timeout) (flush_file_buffers s1).1 (flush_file_buffers-Frame s1 k1))
        (fail-Frame send_timeout) s h

  pub com_send-Frame : (p : List ℕ) → Keeps P (com_send p)
  unfolding com_send
  com_send-Frame p s h =
      Keeps-if_at P (not s.com_link.port_is_open || length p == 0) (fail bad_input_data s)
        (written_all (length p) (write_file p s).0 (write_file p s).1)
        (fail-Frame bad_input_data s h)
        (written_all-Frame (length p) (write_file p s).0 (write_file p s).1
          (write_file-Frame p s h))

  discard_queue-Frame : (stat : Option ComStat) → Keeps P (discard_queue stat)
  unfolding discard_queue
  discard_queue-Frame none s h = h
  discard_queue-Frame (some stat) s h =
      Keeps-if_at P (stat.in_queue == 0) (tt, s) (tt, (read_file (min 40 stat.in_queue) s).1) h
        (read_file-Frame (min 40 stat.in_queue) s h)

  pub com_purge_and_log-Frame : Keeps P com_purge_and_log
  unfolding com_purge_and_log
  com_purge_and_log-Frame s h =
      let r = clear_comm_error s in
      Keeps-if_at P s.com_link.port_is_open (discard_queue r.0 r.1) (tt, s)
        (discard_queue-Frame r.0 r.1 (clear_comm_error-Frame s h)) h

  com_log_error-Frame : (stat : Option ComStat) → Keeps P (com_log_error stat)
  unfolding com_log_error
  com_log_error-Frame none s h = h
  com_log_error-Frame (some stat) s h =
      let e = if stat.overrun then com_buffer_overrun else com_receive in
      Keeps-if_at P stat.any_error (tt, record s { last_error = e }) (tt, s)
        (f.keeps_com_error s e h) h

  more_bytes-Frame :
      (r : ComRead) (again : ℕ → M (Status × List ℕ))
      → ((n : ℕ) → Keeps P (again n))
      → Keeps P (more_bytes r again)
  unfolding more_bytes
  more_bytes-Frame read_failed again k s h = h
  more_bytes-Frame (chunk []) again k s h = h
  more_bytes-Frame (chunk (b ∷ bs)) again k s h = k (length (b ∷ bs)) s h

  receive_loop-Frame : (fuel size total : ℕ) → Keeps P (receive_loop fuel size total)
  unfolding receive_loop
  receive_loop-Frame zero size total s h = h
  receive_loop-Frame (suc fuel) size total s h = elim (Bool-cases (ltb total size)) [
    | inl e ↦
        let r = read_file (size - total) s in
        rw (e, receive_loop)
          (more_bytes-Frame r.0 (λ n. receive_loop fuel size (total + n))
            (λ n. receive_loop-Frame fuel size (total + n)) r.1
            (read_file-Frame (size - total) s h))
    | inr e ↦ rw (e, receive_loop) h
  ]

  log_errors-Frame : (bs : List ℕ) → Keeps P (log_errors bs)
  unfolding log_errors
  log_errors-Frame [] s h = h
  log_errors-Frame (b ∷ bs) s h =
      com_log_error-Frame (clear_comm_error s).0 (clear_comm_error s).1 (clear_comm_error-Frame s h)

  received_all-Frame : (size : ℕ) (r : Status × List ℕ) → Keeps P (received_all size r)
  unfolding received_all
  received_all-Frame size (error, bs) s h = h
  received_all-Frame size (ok, bs) s h =
      let s1 = (log_errors bs s).1 in
      Keeps-if_at P (length bs == size) ((ok, bs), s1)
        ((error, bs), record s1 { last_error = rcv_timeout }) (log_errors-Frame bs s h)
        (f.keeps_com_error s1 rcv_timeout (log_errors-Frame bs s h))

  pub com_receive_bytes-Frame : (size : ℕ) → Keeps P (com_receive_bytes size)
  unfolding com_receive_bytes
  com_receive_bytes-Frame size s h =
      let r = receive_loop size size 0 s in
      Keeps-if_at P (not s.com_link.port_is_open || size == 0)
        ((error, []), record s { last_error = bad_input_data }) (received_all size r.0 r.1)
        (f.keeps_com_error s bad_input_data h)
        (received_all-Frame size r.0 r.1 (receive_loop-Frame size size 0 s h))
