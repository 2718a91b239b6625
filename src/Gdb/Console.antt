-- ===== src/Gdb/Console.antt =====
-- Text commands and the console output that answers them: `print_O_type_message` and
-- `gdb_execute_command` of Code/gdb_lib.cpp.
use rteget_data_linux_compat.Gdb.Message.{
  before_hash, error_data_timeout, gdb_error_reported, gdb_get_message,
}
use rteget_data_linux_compat.Gdb.Packet.{gdb_send_command}
use rteget_data_linux_compat.Gdb.Socket.{answers, gdb_flush_socket}
use rteget_data_linux_compat.Loop.{repeat}
use rteget_data_linux_compat.Prelude.{
  List, Option, [], blit, codes, drop, if◌then◌else◌, length, ltb, none, peek, some, starts_with,
  take, toupper, ℕ, ◌%◌, ◌&&◌, ◌*◌, ◌++◌, ◌+◌, ◌-◌, ◌==◌, ◌||◌, ◌∷◌,
}
use rteget_data_linux_compat.State.{
  M, State, Status, error, if_ok, modify_gdb, no_error, ok, pure, set_last_error, ◌>>=◌, ◌>>◌,
}
use Prim.Native.Nat.{bit_or}

-- toupper(c) - '0' - ((c > '9') ? 7 : 0) for a signed `char`, in eight bits.
unfoldable pub nibble : ℕ → ℕ
unfolding toupper
nibble c = (toupper c + 256 - 48 - (if ltb b'9' c && ltb c 128 then 7 else 0)) % 256

-- Pairs of digits, up to a zero.
unfoldable pub decode_pairs : List ℕ → List ℕ
unfolding nibble
decode_pairs [] = []
decode_pairs (a ∷ []) = []
decode_pairs (a ∷ b ∷ p) =
    let rest = bit_or (nibble a * 16 % 256) (nibble b) ∷ decode_pairs p in
    if a == 0 || b == 0 then [] else rest

-- The search for newlines ends at a zero.
unfoldable pub newlines_to_spaces : List ℕ → List ℕ
newlines_to_spaces [] = []
newlines_to_spaces (c ∷ p) =
    let rest = newlines_to_spaces p in
    if c == 0 then c ∷ p else (if c == 10 then 32 ∷ rest else c ∷ rest)

-- The digits that are decoded, and their offset in the message.
unfoldable pub console_digits : List ℕ → ℕ × List ℕ
unfolding starts_with before_hash
console_digits message =
    if starts_with message (codes "$O")
    then (2, before_hash (drop 2 message))
    else (0, before_hash message)

-- The text that is logged.
unfoldable pub console_text : List ℕ → List ℕ
unfolding console_digits decode_pairs newlines_to_spaces
console_text message = newlines_to_spaces (decode_pairs (console_digits message).1)

-- *strchr(p, '#') = '\0', where there is one.
unfoldable pub cut_hash : List ℕ → List ℕ
cut_hash [] = []
cut_hash (c ∷ p) =
    let rest = c ∷ cut_hash p in if c == 0 then c ∷ p else if c == b'#' then 0 ∷ p else rest

-- The message is decoded in place, unless it has less than two digits.
unfoldable pub console_buffer : List ℕ → List ℕ
unfolding console_text cut_hash
console_buffer message =
    let (offset, digits) = console_digits message in
    let cut = take offset message ++ cut_hash (drop offset message) in
    if ltb (length digits) 2 then cut else blit cut offset (console_text message ++ (0 ∷ []))

unfoldable pub print_o_type_message : M (Unit {0})
unfolding console_buffer
print_o_type_message =
    modify_gdb (λ g. record g { message_buffer = console_buffer g.message_buffer })

-- Behind a message that did not come.
unfoldable pub no_more_console : State → Option Status × State
unfolding gdb_error_reported
no_more_console s =
    (some (if (gdb_error_reported s).0 then error else ok), (gdb_error_reported s).1)

unfoldable pub more_console : Status → State → Option Status × State
unfolding no_more_console
more_console ok s = (none, s)
more_console error s = no_more_console s

-- One message after another, until one does not come.
unfoldable pub console_round : State → Option Status × State
unfolding print_o_type_message gdb_get_message more_console
console_round s =
    let s1 = (print_o_type_message s).1 in
    more_console (gdb_get_message error_data_timeout s1).0 (gdb_get_message error_data_timeout s1).1

unfoldable pub handle_response : M Status
unfolding repeat console_round answers cut_hash gdb_flush_socket starts_with
handle_response s =
    if starts_with s.gdb.message_buffer (codes "$O")
    then (if peek (drop 2 s.gdb.message_buffer) == b'K'
        then (ok, s)
        else repeat (answers s.gdb.recv_events) error console_round s)
    else (do
      modify_gdb (λ g. record g { message_buffer = cut_hash g.message_buffer })
      gdb_flush_socket
      pure error)
        s

unfoldable pub gdb_execute_command : List ℕ → M Status
unfolding gdb_send_command gdb_get_message gdb_error_reported handle_response
gdb_execute_command command = do
  set_last_error no_error
  sent ← gdb_send_command command
  if_ok sent (do
    got ← gdb_get_message 0
    if_ok got (do reported ← gdb_error_reported; if reported then pure error else handle_response))
