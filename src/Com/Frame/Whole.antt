-- ===== src/Com/Frame/Whole.antt =====
-- The commands of the COM port leave it as it is, on either system.
use rteget_data_linux_compat.Com.Frame.{
  com_purge_and_log-Frame, com_receive_bytes-Frame, com_send-Frame, read_file-Frame,
  write_file-Frame,
}
use rteget_data_linux_compat.Com.Linux.{
  com_read_memory_linux, com_write_memory_linux, judge_read, read_command, serial_write,
  write_command,
}
use rteget_data_linux_compat.Com.Port.{
  com_purge_and_log, com_receive_bytes, com_send, read_file, write_file,
}
use rteget_data_linux_compat.Com.Protocol.{
  after_block, after_word, check_echo, check_response, com_read_loop, com_read_memory_block,
  com_read_memory_win32, com_resynchronize, com_send_command, com_write_loop,
  com_write_memory_block, com_write_memory_win32, command_bytes, judge_response, rtecom_checksum,
  rtecom_max_recv_len, rtecom_read_rtedbg, rtecom_write_rtedbg, same_bytes,
}
use rteget_data_linux_compat.Keeps.{
  IsComFrame, Keeps, Keeps-if, Keeps-if_at, Keeps-if_ok, Keeps-status,
}
use rteget_data_linux_compat.Prelude.{
  Bool-cases, List, Option, [], add32, drop, if◌then◌else◌, inl, inr, length, ltb, min, none, not,
  replicate, some, suc, take, word_at, zero, ℕ, ◌%◌, ◌-◌, ◌/◌, ◌==◌, ◌||◌, ◌∷◌,
}
use rteget_data_linux_compat.State.{
  ComRead, M, State, Status, chunk, error, if_ok, ok, pure, rcv_timeout, read_failed, ◌>>=◌,
}

module _ {κ} (P : State → Type κ) (f : IsComFrame P) where
  compared-Frame :
      (echo : Status × List ℕ) (message : List ℕ)
      → Keeps P (if_ok echo.0 (if same_bytes echo.1 message then pure ok else pure error))
  compared-Frame (error, bs) message s h = h
  compared-Frame (ok, bs) message s h =
      Keeps-if P (same_bytes bs message) (pure ok) (pure error) (λ s1 k. k) (λ s1 k. k) s h

  check_echo-Frame : (message : List ℕ) → Keeps P (check_echo message)
  unfolding check_echo
  check_echo-Frame message s h =
      let r = com_receive_bytes 10 s in
      Keeps-if_at P s.parameters.com_port.single_wire_communication
        (if_ok r.0.0 (if same_bytes r.0.1 message then pure ok else pure error) r.1) (ok, s)
        (compared-Frame r.0 message r.1 (com_receive_bytes-Frame P f 10 s h)) h

  com_send_command-Frame :
      (command address word : ℕ) → Keeps P (com_send_command command address word)
  unfolding com_send_command
  com_send_command-Frame command address word s h =
      let message = command_bytes command address word in
      let s1 = (com_purge_and_log s).1 in
      Keeps-if_ok P (com_send message s1).0 (check_echo message) (check_echo-Frame message)
        (com_send message s1).1 (com_send-Frame P f message s1 (com_purge_and_log-Frame P f s h))

  resynchronized-Frame :
      (sent : Status) (s : State)
      → P s
      → P
          (elim sent as (λ x. Unit {0} × State) [
            | error ↦ (tt, s)
            | ok ↦
                if s.parameters.com_port.single_wire_communication
                then (tt, (com_receive_bytes 10 s).1)
                else (tt, s)
          ]).1
  resynchronized-Frame error s h = h
  resynchronized-Frame ok s h =
      Keeps-if_at P s.parameters.com_port.single_wire_communication (tt, (com_receive_bytes 10 s).1)
        (tt, s) (com_receive_bytes-Frame P f 10 s h) h

  com_resynchronize-Frame : Keeps P com_resynchronize
  unfolding com_resynchronize
  com_resynchronize-Frame s h =
      let r = com_send (replicate 10 0xFF) s in
      resynchronized-Frame r.0 r.1 (com_send-Frame P f (replicate 10 0xFF) s h)

  com_read_memory_block-Frame : (address size : ℕ) → Keeps P (com_read_memory_block address size)
  unfolding com_read_memory_block
  com_read_memory_block-Frame address size s h =
      let r = com_send_command rtecom_read_rtedbg address size s in
      Keeps-if_at P (ltb rtecom_max_recv_len size || size == 0) ((error, []), s)
        (elim r.0 as (λ x. M (Status × List ℕ)) [
          | error ↦ pure (error, [])
          | ok ↦ com_receive_bytes size
        ]
          r.1)
        h
        (Keeps-status P r.0 (com_receive_bytes size) (pure (error, []))
          (com_receive_bytes-Frame P f size) (λ s1 k. k) r.1
          (com_send_command-Frame rtecom_read_rtedbg address size s h))

  after_block-Frame :
      (again : M (Status × List ℕ)) (r : Status × List ℕ)
      → Keeps P again
      → Keeps P (after_block again r)
  unfolding after_block
  after_block-Frame again (error, bs) k s h = com_resynchronize-Frame s h
  after_block-Frame again (ok, bs) k s h = k s h

  com_read_loop-Frame :
      (fuel max_size address left : ℕ) → Keeps P (com_read_loop fuel max_size address left)
  unfolding com_read_loop
  com_read_loop-Frame zero max_size address left s h = h
  com_read_loop-Frame (suc fuel) max_size address left s h = elim (Bool-cases (ltb 0 left)) [
    | inl e ↦
        let size = if ltb max_size left then max_size else left in
        let r = com_read_memory_block address size s in
        rw (e, com_read_loop)
          (after_block-Frame (com_read_loop fuel max_size (add32 address size) (left - size)) r.0
            (com_read_loop-Frame fuel max_size (add32 address size) (left - size)) r.1
            (com_read_memory_block-Frame address size s h))
    | inr e ↦ rw (e, com_read_loop) h
  ]

  pub com_read_memory_win32-Frame :
      (address size : ℕ) → Keeps P (com_read_memory_win32 address size)
  unfolding com_read_memory_win32
  com_read_memory_win32-Frame address size s h =
      com_read_loop-Frame (suc size) (min s.parameters.max_message_size rtecom_max_recv_len) address
        size s h

  judge_response-Frame : (command : ℕ) (r : ComRead) → Keeps P (judge_response command r)
  unfolding judge_response
  judge_response-Frame command read_failed s h = h
  judge_response-Frame command (chunk []) s h = f.keeps_com_error s rcv_timeout h
  judge_response-Frame command (chunk (b ∷ bs)) s h =
      Keeps-if_at P (b == rtecom_checksum) (ok, s)
        (if b == command then (error, s) else (error, (com_purge_and_log s).1)) h
        (Keeps-if_at P (b == command) (error, s) (error, (com_purge_and_log s).1) h
          (com_purge_and_log-Frame P f s h))

  check_response-Frame : (command : ℕ) → Keeps P (check_response command)
  unfolding check_response
  check_response-Frame command s h =
      let r = read_file 1 s in
      Keeps-if_at P s.com_link.port_is_open (judge_response command r.0 r.1) (error, s)
        (judge_response-Frame command r.0 r.1 (read_file-Frame P f 1 s h)) h

  com_write_memory_block-Frame :
      (buffer : List ℕ) (address size : ℕ) → Keeps P (com_write_memory_block buffer address size)
  unfolding com_write_memory_block
  com_write_memory_block-Frame buffer address size s h =
      let r = com_send_command rtecom_write_rtedbg (address / 4) (word_at buffer) s in
      Keeps-if_at P (not (size == 4) || not (address % 4 == 0)) (error, s)
        (if_ok r.0 (check_response rtecom_write_rtedbg) r.1) h
        (Keeps-if_ok P r.0 (check_response rtecom_write_rtedbg)
          (check_response-Frame rtecom_write_rtedbg) r.1
          (com_send_command-Frame rtecom_write_rtedbg (address / 4) (word_at buffer) s h))

  after_word-Frame : (again : M Status) (r : Status) → Keeps P again → Keeps P (after_word again r)
  unfolding after_word
  after_word-Frame again error k s h = com_resynchronize-Frame s h
  after_word-Frame again ok k s h = k s h

  com_write_loop-Frame :
      (words : ℕ) (buffer : List ℕ) (address : ℕ) → Keeps P (com_write_loop words buffer address)
  unfolding com_write_loop
  com_write_loop-Frame zero buffer address s h = h
  com_write_loop-Frame (suc words) buffer address s h =
      let r = com_write_memory_block buffer address 4 s in
      after_word-Frame (com_write_loop words (drop 4 buffer) (add32 address 4)) r.0
        (com_write_loop-Frame words (drop 4 buffer) (add32 address 4)) r.1
        (com_write_memory_block-Frame buffer address 4 s h)

  pub com_write_memory_win32-Frame :
      (buffer : List ℕ) (address size : ℕ) → Keeps P (com_write_memory_win32 buffer address size)
  unfolding com_write_memory_win32
  com_write_memory_win32-Frame buffer address size s h =
      Keeps-if_at P (not (size % 4 == 0) || not (address % 4 == 0)) (error, s)
        (com_write_loop (size / 4) buffer address s) h
        (com_write_loop-Frame (size / 4) buffer address s h)

  serial_write-Frame : (p : List ℕ) → Keeps P (serial_write p)
  unfolding serial_write
  serial_write-Frame p s h =
      written (write_file p s).0 (write_file p s).1 (write_file-Frame P f p s h)
    where
      written :
          (taken : Option ℕ) (s1 : State)
          → P s1
          → P (elim taken as (λ x. Status × State) [ none ↦ (error, s1) | some k ↦ (ok, s1) ]).1
      written none s1 k = k
      written (some n) s1 k = k

  judge_read-Frame : (size : ℕ) (r : ComRead) → Keeps P (judge_read size r)
  unfolding judge_read
  judge_read-Frame size read_failed s h = h
  judge_read-Frame size (chunk bs) s h =
      Keeps-if_at P (length bs == size) ((ok, bs), s) ((error, bs), s) h h

  pub com_read_memory_linux-Frame :
      (address size : ℕ) → Keeps P (com_read_memory_linux address size)
  unfolding com_read_memory_linux
  com_read_memory_linux-Frame address size s h =
      let read : M (Status × List ℕ) = (do answer ← read_file size; judge_read size answer) in
      let r = serial_write (read_command address size) s in
      Keeps-if_at P s.com_link.port_is_open
        (elim r.0 as (λ x. M (Status × List ℕ)) [ error ↦ pure (error, []) | ok ↦ read ] r.1)
        ((error, []), s)
        (Keeps-status P r.0 read (pure (error, []))
          (λ s1 k.
            judge_read-Frame size (read_file size s1).0 (read_file size s1).1
              (read_file-Frame P f size s1 k))
          (λ s1 k. k) r.1 (serial_write-Frame (read_command address size) s h))
        h

  pub com_write_memory_linux-Frame :
      (buffer : List ℕ) (address size : ℕ) → Keeps P (com_write_memory_linux buffer address size)
  unfolding com_write_memory_linux
  com_write_memory_linux-Frame buffer address size s h =
      let r = serial_write (write_command address size) s in
      Keeps-if_at P s.com_link.port_is_open (if_ok r.0 (serial_write (take size buffer)) r.1)
        (error, s)
        (Keeps-if_ok P r.0 (serial_write (take size buffer)) (serial_write-Frame (take size buffer))
          r.1 (serial_write-Frame (write_command address size) s h))
        h
