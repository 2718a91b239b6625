-- ===== src/Gdb/Safety/Console.antt =====
-- Console output is decoded in place: `message_buffer` gets no longer.
use rteget_data_linux_compat.Gdb.Console.{
  console_buffer, console_digits, console_round, console_text, cut_hash, decode_pairs,
  gdb_execute_command, handle_response, more_console, newlines_to_spaces, no_more_console,
  print_o_type_message,
}
use rteget_data_linux_compat.Gdb.Message.{
  before_hash, error_data_timeout, gdb_error_reported, gdb_get_message,
}
use rteget_data_linux_compat.Gdb.Message.Limits.{InBuffer, gdb_get_message-InBuffer}
use rteget_data_linux_compat.Gdb.Packet.{gdb_send_command, with_checksum}
use rteget_data_linux_compat.Gdb.Safety.Packets.{gdb_error_reported-Keeps}
use rteget_data_linux_compat.Gdb.Safety.Socket.{gdb_flush_socket-Keeps, gdb_send-Keeps}
use rteget_data_linux_compat.Gdb.Socket.{answers, gdb_flush_socket, gdb_send}
use rteget_data_linux_compat.Keeps.{Keeps, Keeps-if, Keeps-if_at, Keeps-if_ok}
use rteget_data_linux_compat.Loop.{repeat, repeat_inv}
use rteget_data_linux_compat.Prelude.{
  Bool-cases, List, [], arith, blit, codes, drop, false, if◌then◌else◌, inl, inr, leb, length,
  length-append, length-blit, length-drop, length-take, ltb, peek, refl, starts_with, take, true, ℕ,
  ◌*◌, ◌++◌, ◌+◌, ◌==◌, ◌||◌, ◌∷◌, ◌≡◌, ◌≤◌,
}
use rteget_data_linux_compat.State.{
  M, State, Status, bad_input_data, error, fail, if_ok, no_error, ok, pure, ◌>>=◌,
}

length-cut_hash : (p : List ℕ) → length (cut_hash p) ≡ length p
unfolding cut_hash
length-cut_hash [] = refl
length-cut_hash (c ∷ p) = ground (arith, length-cut_hash p)

length-before_hash : (p : List ℕ) → length (before_hash p) ≤ length p
unfolding before_hash
length-before_hash [] = omega arith
length-before_hash (c ∷ p) = ground (arith, length-before_hash p)

length-newlines_to_spaces : (p : List ℕ) → length (newlines_to_spaces p) ≡ length p
unfolding newlines_to_spaces
length-newlines_to_spaces [] = refl
length-newlines_to_spaces (c ∷ p) = ground (arith, length-newlines_to_spaces p)

length-decode_pairs : (p : List ℕ) → length (decode_pairs p) * 2 ≤ length p
unfolding decode_pairs
length-decode_pairs [] = omega arith
length-decode_pairs (a ∷ []) = omega arith
length-decode_pairs (a ∷ b ∷ p) = elim (Bool-cases (a == 0 || b == 0)) [
  | inl e ↦ rw (e, decode_pairs) (omega arith)
  | inr e ↦ rw (e, decode_pairs) (omega (arith, length-decode_pairs p))
]

digits_fit :
    (message : List ℕ)
    → 2 ≤ length (console_digits message).1
    → (console_digits message).0 + length (console_digits message).1 ≤ length message
unfolding console_digits
digits_fit message = elim (Bool-cases (starts_with message (codes "$O"))) [
  | inl e ↦
      rw (e, console_digits)
        (λ h. omega (arith, length-before_hash (drop 2 message), length-drop 2 message))
  | inr e ↦ rw (e, console_digits) (λ h. omega (arith, length-before_hash message))
]

cut_fits :
    (i : ℕ) (message : List ℕ)
    → length (take i message ++ cut_hash (drop i message)) ≤ length message
cut_fits i message = omega (
  arith,
  length-append (take i message) (cut_hash (drop i message)),
  length-take i message,
  length-cut_hash (drop i message),
  length-drop i message,
)

text_fits :
    (message : List ℕ) → length (console_text message) * 2 ≤ length (console_digits message).1
unfolding console_text
text_fits message = omega (
  arith,
  length-newlines_to_spaces (decode_pairs (console_digits message).1),
  length-decode_pairs (console_digits message).1,
)

blit_fits :
    (k : ℕ) (cut text message : List ℕ) (i : ℕ)
    → length cut ≤ length message
    → length text * 2 ≤ k
    → (2 ≤ k → i + k ≤ length message)
    → ltb k 2 ≡ false
    → length (blit cut i (text ++ (0 ∷ []))) ≤ length message
blit_fits k cut text message i h1 h2 h3 e =
    let atleast : 2 ≤ k = ground arith in
    omega (arith, length-blit cut i (text ++ (0 ∷ [])), length-append text (0 ∷ []), h3 atleast)

pub length-console_buffer : (message : List ℕ) → length (console_buffer message) ≤ length message
unfolding console_buffer
length-console_buffer message =
    let d = console_digits message in
    let cut = take d.0 message ++ cut_hash (drop d.0 message) in
    elim (Bool-cases (ltb (length d.1) 2)) [
      | inl e ↦ rw (e, console_buffer) (cut_fits d.0 message)
      | inr e ↦
          rw (e, console_buffer)
            (blit_fits (length d.1) cut (console_text message) message d.0 (cut_fits d.0 message)
              (text_fits message) (digits_fit message) e)
    ]

pub print_o_type_message-Keeps : Keeps InBuffer print_o_type_message
unfolding print_o_type_message
print_o_type_message-Keeps s h = omega (arith, length-console_buffer s.gdb.message_buffer, h)

no_more_console-Keeps : (s : State) → InBuffer s → InBuffer (no_more_console s).1
unfolding no_more_console
no_more_console-Keeps s h = gdb_error_reported-Keeps s h

more_console-Keeps : (got : Status) (s : State) → InBuffer s → InBuffer (more_console got s).1
unfolding more_console
more_console-Keeps ok s h = h
more_console-Keeps error s h = no_more_console-Keeps s h

console_round-Keeps : (s : State) → InBuffer s → InBuffer (console_round s).1
unfolding console_round
console_round-Keeps s h =
    let s1 = (print_o_type_message s).1 in
    more_console-Keeps (gdb_get_message error_data_timeout s1).0
      (gdb_get_message error_data_timeout s1).1
      (gdb_get_message-InBuffer error_data_timeout s1 (print_o_type_message-Keeps s h))

cut_state : State → State
unfolding cut_hash
cut_state s = record s { gdb = record s.gdb { message_buffer = cut_hash s.gdb.message_buffer } }

handle_response-Keeps : Keeps InBuffer handle_response
unfolding handle_response cut_state
handle_response-Keeps s h =
    Keeps-if_at InBuffer (starts_with s.gdb.message_buffer (codes "$O"))
      (if peek (drop 2 s.gdb.message_buffer) == b'K'
        then (ok, s)
        else repeat (answers s.gdb.recv_events) error console_round s)
      (error, (gdb_flush_socket (cut_state s)).1)
      (Keeps-if_at InBuffer (peek (drop 2 s.gdb.message_buffer) == b'K') (ok, s)
        (repeat (answers s.gdb.recv_events) error console_round s) h
        (repeat_inv console_round InBuffer console_round-Keeps (answers s.gdb.recv_events) error s
          h))
      (gdb_flush_socket-Keeps (cut_state s)
        (omega (arith, length-cut_hash s.gdb.message_buffer, h)))

pub gdb_send_command-Keeps : (command : List ℕ) → Keeps InBuffer (gdb_send_command command)
unfolding gdb_send_command
gdb_send_command-Keeps command s h =
    Keeps-if_at InBuffer (leb 1020 (length command)) (fail bad_input_data s)
      (gdb_send (with_checksum true (b'$' ∷ command)) s) h
      (gdb_send-Keeps (with_checksum true (b'$' ∷ command)) s h)

report_or_handle :
    Keeps InBuffer
      (do reported ← gdb_error_reported; if reported then pure error else handle_response)
report_or_handle s h =
    Keeps-if InBuffer (gdb_error_reported s).0 (pure error) handle_response (λ s1 k. k)
      handle_response-Keeps (gdb_error_reported s).1 (gdb_error_reported-Keeps s h)

pub gdb_execute_command-Keeps : (command : List ℕ) → Keeps InBuffer (gdb_execute_command command)
unfolding gdb_execute_command
gdb_execute_command-Keeps command s h =
    let answer : M Status = (do
      reported ← gdb_error_reported
      if reported then pure error else handle_response) in
    let receive : M Status = (do got ← gdb_get_message 0; if_ok got answer) in
    let s0 = record s { last_error = no_error } in
    Keeps-if_ok InBuffer (gdb_send_command command s0).0 receive
      (λ s1 k.
        Keeps-if_ok InBuffer (gdb_get_message 0 s1).0 answer report_or_handle
          (gdb_get_message 0 s1).1 (gdb_get_message-InBuffer 0 s1 k))
      (gdb_send_command command s0).1 (gdb_send_command-Keeps command s0 h)
