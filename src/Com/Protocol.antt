-- ===== src/Com/Protocol.antt =====
-- The Windows implementation: the commands of Code/rte_com.h. A command has ten bytes, and only one
-- word is written at a time.
pub mod Sound
pub mod Write
use rteget_data_linux_compat.Com.Port.{com_purge_and_log, com_receive_bytes, com_send, read_file}
use rteget_data_linux_compat.Prelude.{
  Bool, List, [], add32, drop, false, if◌then◌else◌, ltb, min, not, replicate, suc, true, word_at,
  word_bytes, zero, ℕ, ◌%◌, ◌&&◌, ◌++◌, ◌-◌, ◌/◌, ◌==◌, ◌||◌, ◌∷◌,
}
use rteget_data_linux_compat.State.{
  ComRead, M, Status, chunk, com_port, error, fail, if_ok, ok, pure, rcv_timeout, read_failed,
  ◌>>=◌, ◌>>◌,
}
use Prim.Native.Nat.{bit_xor}

-- RTECOM_CHECKSUM, which is also RTECOM_ACK.
abbrev pub rtecom_checksum : ℕ
rtecom_checksum = 0x0F

abbrev pub rtecom_write_rtedbg : ℕ
rtecom_write_rtedbg = 0

abbrev pub rtecom_read_rtedbg : ℕ
rtecom_read_rtedbg = 1

-- RTECOM_MAX_RECV_LEN
abbrev pub rtecom_max_recv_len : ℕ
rtecom_max_recv_len = 65520

unfoldable pub xor_bytes : List ℕ → ℕ → ℕ
xor_bytes [] checksum = checksum
xor_bytes (b ∷ bs) checksum = xor_bytes bs (bit_xor checksum b)

-- The ten bytes from `message.command` on.
unfoldable pub command_bytes : ℕ → ℕ → ℕ → List ℕ
unfolding xor_bytes word_bytes
command_bytes command address word =
    let body = word_bytes address ++ word_bytes word in
    command ∷ xor_bytes body rtecom_checksum ∷ body

unfoldable pub same_bytes : List ℕ → List ℕ → Bool
same_bytes [] [] = true
same_bytes (a ∷ p) (b ∷ q) = a == b && same_bytes p q
same_bytes p q = false

-- On a single wire the port receives what it sends.
unfoldable pub check_echo : List ℕ → M Status
unfolding com_receive_bytes same_bytes
check_echo message s =
    if s.parameters.com_port.single_wire_communication
    then (do
      echo ← com_receive_bytes 10
      if_ok (echo.0) (if same_bytes echo.1 message then pure ok else pure error))
        s
    else (ok, s)

unfoldable pub com_send_command : ℕ → ℕ → ℕ → M Status
unfolding command_bytes com_purge_and_log com_send check_echo
com_send_command command address word = do
  com_purge_and_log
  sent ← com_send (command_bytes command address word)
  if_ok sent (check_echo (command_bytes command address word))

unfoldable pub com_resynchronize : M (Unit {0})
unfolding com_send com_receive_bytes
com_resynchronize s =
    let s1 = (com_send (replicate 10 0xFF) s).1 in
    elim (com_send (replicate 10 0xFF) s).0 [
      | error ↦ (tt, s1)
      | ok ↦
          if s1.parameters.com_port.single_wire_communication
          then (tt, (com_receive_bytes 10 s1).1)
          else (tt, s1)
    ]

unfoldable pub com_read_memory_block : ℕ → ℕ → M (Status × List ℕ)
unfolding com_send_command com_receive_bytes
com_read_memory_block address size s =
    if ltb rtecom_max_recv_len size || size == 0
    then ((error, []), s)
    else (do
      sent ← com_send_command rtecom_read_rtedbg address size
      elim sent [ error ↦ pure (error, []) | ok ↦ com_receive_bytes size ])
        s

-- Behind a block: an error resynchronizes and ends the loop.
unfoldable pub after_block : M (Status × List ℕ) → Status × List ℕ → M (Status × List ℕ)
unfolding com_resynchronize
after_block again (error, bs) s = ((error, bs), (com_resynchronize s).1)
after_block again (ok, bs) s = (((again s).0.0, bs ++ (again s).0.1), (again s).1)

-- The loop over `length`, with fuel for the blocks; a block that succeeds is not empty.
unfoldable pub com_read_loop : ℕ → ℕ → ℕ → ℕ → M (Status × List ℕ)
unfolding com_read_memory_block after_block
com_read_loop zero max_size address left s = ((error, []), s)
com_read_loop (suc fuel) max_size address left s = elim (ltb 0 left) [
  | false ↦ ((ok, []), s)
  | true ↦
      let size = if ltb max_size left then max_size else left in
      let r = com_read_memory_block address size s in
      after_block (com_read_loop fuel max_size (add32 address size) (left - size)) r.0 r.1
]

unfoldable pub com_read_memory_win32 : ℕ → ℕ → M (Status × List ℕ)
unfolding com_read_loop
com_read_memory_win32 address size s =
    com_read_loop (suc size) (min s.parameters.max_message_size rtecom_max_recv_len) address size s

-- One byte: RTECOM_ACK, or the command as a refusal.
unfoldable pub judge_response : ℕ → ComRead → M Status
unfolding com_purge_and_log
judge_response command read_failed s = (error, s)
judge_response command (chunk []) s = fail rcv_timeout s
judge_response command (chunk (b ∷ bs)) s =
    if b == rtecom_checksum
    then (ok, s)
    else if b == command
    then (error, s)
    else (error, (com_purge_and_log s).1)

unfoldable pub check_response : ℕ → M Status
unfolding read_file judge_response
check_response command s =
    if s.com_link.port_is_open
    then (do answer ← read_file 1; judge_response command answer) s
    else (error, s)

unfoldable pub com_write_memory_block : List ℕ → ℕ → ℕ → M Status
unfolding com_send_command check_response word_at
com_write_memory_block buffer address size s =
    if not (size == 4) || not (address % 4 == 0)
    then (error, s)
    else (do
      sent ← com_send_command rtecom_write_rtedbg (address / 4) (word_at buffer)
      if_ok sent (check_response rtecom_write_rtedbg))
        s

unfoldable pub after_word : M Status → Status → M Status
unfolding com_resynchronize
after_word again error s = (error, (com_resynchronize s).1)
after_word again ok s = again s

-- The loop, with the words left.
unfoldable pub com_write_loop : ℕ → List ℕ → ℕ → M Status
unfolding com_write_memory_block after_word
com_write_loop zero buffer address s = (ok, s)
com_write_loop (suc words) buffer address s =
    let r = com_write_memory_block buffer address 4 s in
    after_word (com_write_loop words (drop 4 buffer) (add32 address 4)) r.0 r.1

unfoldable pub com_write_memory_win32 : List ℕ → ℕ → ℕ → M Status
unfolding com_write_loop
com_write_memory_win32 buffer address size s =
    if not (size % 4 == 0) || not (address % 4 == 0)
    then (error, s)
    else com_write_loop (size / 4) buffer address s
