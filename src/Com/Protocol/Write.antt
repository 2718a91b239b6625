-- ===== src/Com/Protocol/Write.antt =====
-- `com_write_memory` of the Windows implementation with a system that acknowledges each word.
use rteget_data_linux_compat.Com.Port.{
  at_most, clear_comm_error, com_purge_and_log, com_send, discard_queue, flush_file_buffers,
  read_file, write_file, written_all,
}
use rteget_data_linux_compat.Com.Protocol.{
  after_word, check_echo, check_response, com_send_command, com_write_loop, com_write_memory_block,
  com_write_memory_win32, command_bytes, judge_response, rtecom_checksum, rtecom_write_rtedbg,
  xor_bytes,
}
use rteget_data_linux_compat.Prelude.{
  All, IsByte, List, [], add32, ap, append-nil, append_assoc, arith, false, length, refl, suc, sym,
  true, word_at, word_bytes, zero, ℕ, ◌%◌, ◌*◌, ◌++◌, ◌+◌, ◌/◌, ◌==◌, ◌∙◌, ◌∷◌, ◌≡◌,
}
use rteget_data_linux_compat.State.{ComRead, State, Status, chunk, ok}
use Prim.Native.Nat.{bit_xor}

-- A port that takes all that is sent and echoes nothing, with these reads to come and this sent so far.
abbrev pub listening : State → List ComRead → List (List ℕ) → State
listening s reads sent = record s {
  parameters = record s.parameters {
    com_port = record s.parameters.com_port { single_wire_communication = false };
  };
  com_link = record s.com_link {
    port_is_open = true;
    com_writes = [];
    com_drains = [];
    com_reads = reads;
    com_stats = [];
    com_sent = sent;
  };
}

-- The ten bytes that write the word with the bytes `a`, `b`, `c` and `d` at an address: the command 0, the
-- exclusive or of 0x0F and the other eight bytes, the number of the word in memory, lowest byte first, and
-- the word.
pub write_message : ℕ → ℕ → ℕ → ℕ → ℕ → List ℕ
write_message address a b c d =
    let n = address / 4 in
    let p = n % 256 in
    let q = n / 256 % 256 in
    let r = n / 65536 % 256 in
    let t = n / 16777216 % 256 in
    let sum =
      bit_xor
        (bit_xor (bit_xor (bit_xor (bit_xor (bit_xor (bit_xor (bit_xor 0x0F p) q) r) t) a) b) c)
        d in
    0 ∷ sum ∷ p ∷ q ∷ r ∷ t ∷ a ∷ b ∷ c ∷ d ∷ []

-- The commands for the words of the buffer, at successive addresses.
pub write_commands : List ℕ → ℕ → List (List ℕ)
write_commands (a ∷ b ∷ c ∷ d ∷ buffer) address =
    write_message address a b c d ∷ write_commands buffer (add32 address 4)
write_commands buffer address = []

-- `n` acknowledgements, and what comes later.
abbrev pub acks : ℕ → List ComRead → List ComRead
acks zero later = later
acks (suc n) later = chunk (rtecom_checksum ∷ []) ∷ acks n later

aligned_lem : (address : ℕ) → address % 4 ≡ 0 → (address % 4 == 0) ≡ true
aligned_lem address h = ground arith

com_write_memory_block-acknowledged :
    (buffer : List ℕ) (address : ℕ) (later : List ComRead) (sent : List (List ℕ)) (s : State)
    → address % 4 ≡ 0
    → com_write_memory_block buffer address 4 (listening s (acks 1 later) sent) ≡ (
      ok,
      listening s later
          (sent ++ (command_bytes rtecom_write_rtedbg (address / 4) (word_at buffer) ∷ [])),
    )
unfolding com_write_memory_block com_send_command command_bytes com_purge_and_log clear_comm_error
    discard_queue com_send write_file written_all flush_file_buffers check_echo check_response
    read_file at_most judge_response
com_write_memory_block-acknowledged buffer address later sent s h =
    rw (aligned_lem address h, com_write_memory_block) refl

word_bytes-word_at :
    (a b c d : ℕ) (rest : List ℕ)
    → IsByte a
    → IsByte b
    → IsByte c
    → IsByte d
    → word_bytes (word_at (a ∷ b ∷ c ∷ d ∷ rest)) ≡ a ∷ b ∷ c ∷ d ∷ []
unfolding word_bytes word_at
word_bytes-word_at a b c d rest ha hb hc hd =
    let n = a + b * 256 + c * 65536 + d * 16777216 in
    let e0 : n % 256 ≡ a = omega (arith, ha) in
    let e1 : n / 256 % 256 ≡ b = omega (arith, ha, hb) in
    let e2 : n / 65536 % 256 ≡ c = omega (arith, ha, hb, hc) in
    let e3 : n / 16777216 % 256 ≡ d = omega (arith, ha, hb, hc, hd) in
    ap (λ x. x ∷ n / 256 % 256 ∷ n / 65536 % 256 ∷ n / 16777216 % 256 ∷ []) e0
    ∙ ap (λ x. a ∷ x ∷ n / 65536 % 256 ∷ n / 16777216 % 256 ∷ []) e1
    ∙ ap (λ x. a ∷ b ∷ x ∷ n / 16777216 % 256 ∷ []) e2
    ∙ ap (λ x. a ∷ b ∷ c ∷ x ∷ []) e3

command_bytes_lem :
    (address a b c d : ℕ) (rest : List ℕ)
    → IsByte a
    → IsByte b
    → IsByte c
    → IsByte d
    → command_bytes rtecom_write_rtedbg (address / 4) (word_at (a ∷ b ∷ c ∷ d ∷ rest))
      ≡ write_message address a b c d
unfolding command_bytes xor_bytes write_message
command_bytes_lem address a b c d rest ha hb hc hd =
    ap
      (λ w.
        let body = word_bytes (address / 4) ++ w in
        rtecom_write_rtedbg ∷ xor_bytes body rtecom_checksum ∷ body)
      (word_bytes-word_at a b c d rest ha hb hc hd)

com_write_loop-acknowledged :
    (n : ℕ) (buffer : List ℕ) (address : ℕ) (later : List ComRead) (sent : List (List ℕ))
    (s : State)
    → address % 4 ≡ 0
    → length buffer ≡ n * 4
    → All IsByte buffer
    → com_write_loop n buffer address (listening s (acks n later) sent)
      ≡ (ok, listening s later (sent ++ write_commands buffer address))
unfolding com_write_loop after_word write_commands
com_write_loop-acknowledged zero [] address later sent s h l q =
    ap (λ (m : List (List ℕ)). (ok, listening s later m)) (sym (append-nil sent))
com_write_loop-acknowledged zero (a ∷ buffer) address later sent s h l q = absurd (omega arith)
com_write_loop-acknowledged (suc n) [] address later sent s h l q = absurd (omega arith)
com_write_loop-acknowledged (suc n) (a ∷ []) address later sent s h l q = absurd (omega arith)
com_write_loop-acknowledged (suc n) (a ∷ b ∷ []) address later sent s h l q = absurd (omega arith)
com_write_loop-acknowledged (suc n) (a ∷ b ∷ c ∷ []) address later sent s h l q =
    absurd (omega arith)
com_write_loop-acknowledged (suc n) (a ∷ b ∷ c ∷ d ∷ buffer) address later sent s h l q =
    let word = a ∷ b ∷ c ∷ d ∷ buffer in
    let command = command_bytes rtecom_write_rtedbg (address / 4) (word_at word) in
    let message = command_bytes_lem address a b c d buffer q.0 q.1.0 q.1.1.0 q.1.1.1.0 in
    ap (λ (r : Status × State). after_word (com_write_loop n buffer (add32 address 4)) r.0 r.1)
      (com_write_memory_block-acknowledged word address (acks n later) sent s h)
    ∙ com_write_loop-acknowledged n buffer (add32 address 4) later (sent ++ (command ∷ [])) s
        (omega arith) (omega (arith, l)) q.1.1.1.1
    ∙ ap (λ (m : List (List ℕ)). (ok, listening s later m))
        (append_assoc sent (command ∷ []) (write_commands buffer (add32 address 4)))
    ∙ ap
        (λ (m : List ℕ).
          (ok, listening s later (sent ++ (m ∷ write_commands buffer (add32 address 4)))))
        message

words_lem : (n : ℕ) → (n * 4 % 4 ≡ 0) × (n * 4 / 4 ≡ n)
words_lem n = (omega arith, omega arith)

-- At an aligned address, over a port with separate wires and empty queues that takes all that is sent, and
-- with a system that acknowledges each command: `com_write_memory` of a buffer of `n` words succeeds. It
-- has sent `n` messages of ten bytes, each with the number of the next word in memory, the next four bytes
-- of the buffer and their checksum, and leaves later bytes unread.
pub com_write_memory_win32-acknowledged :
    (n : ℕ) (buffer : List ℕ) (address : ℕ) (later : List ComRead) (sent : List (List ℕ))
    (s : State)
    → address % 4 ≡ 0
    → length buffer ≡ n * 4
    → All IsByte buffer
    → com_write_memory_win32 buffer address (n * 4) (listening s (acks n later) sent)
      ≡ (ok, listening s later (sent ++ write_commands buffer address))
unfolding com_write_memory_win32
com_write_memory_win32-acknowledged n buffer address later sent s h l q =
    rw
      (
        aligned_lem (n * 4) (words_lem n).0,
        aligned_lem address h,
        (words_lem n).1,
        com_write_memory_win32,
      )
      (com_write_loop-acknowledged n buffer address later sent s h l q)
