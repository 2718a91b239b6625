-- ===== src/Gdb/Message/Ends.antt =====
-- The end of the loop of `gdb_get_message`: the fuel is the number of answers that a script can give,
-- and no more rounds are ever taken.
use rteget_data_linux_compat.Gdb.Message.{
  after_data, after_timeout, append_received, buffer_is_full, gdb_get_message, message_answer,
  message_is_complete, message_round, recv_timeout, write_buffer,
}
use rteget_data_linux_compat.Gdb.Socket.{answers, recv}
use rteget_data_linux_compat.Gdb.Socket.Receives.{goes_on, recv-Receives}
use rteget_data_linux_compat.Loop.{repeat, repeat_fuel}
use rteget_data_linux_compat.Prelude.{
  Bool, List, [], ap, arith, blit, false, if◌then◌else◌, ltb, none, refl, true, ℕ, ◌-◌, ◌<◌, ◌==◌,
  ◌∷◌, ◌≡◌, ◌≤◌,
}
use rteget_data_linux_compat.State.{
  Received, RecvEvent, State, Status, bytes, error, failed, other_error, shut, tcp_buff_length,
  timed_out, would_block,
}

-- Every round that goes on has used up an answer.
abbrev waiting : State → ℕ
waiting s = answers s.gdb.recv_events - 1

pub answers_pos : (events : List RecvEvent) → 0 < answers events
unfolding answers
answers_pos [] = omega arith
answers_pos (e ∷ events) = omega arith

after_data-none :
    (full complete : Bool) (s : State)
    → (after_data full complete s).0 ≡ none
    → (after_data full complete s).1.gdb.recv_events ≡ s.gdb.recv_events
unfolding after_data
after_data-none true complete s e = absurd (ground arith)
after_data-none false true s e = absurd (ground arith)
after_data-none false false s e = refl

after_timeout-none :
    (late : Bool) (s : State)
    → (after_timeout late s).0 ≡ none
    → (after_timeout late s).1.gdb.recv_events ≡ s.gdb.recv_events
unfolding after_timeout
after_timeout-none true s e = absurd (ground arith)
after_timeout-none false s e = refl

-- A round goes on only behind data or a timeout, and uses nothing of the script itself.
message_answer-none :
    (timeout start : ℕ) (r : Received) (s : State)
    → (message_answer timeout start r s).0 ≡ none
    → (goes_on r ≡ true)
      × ((message_answer timeout start r s).1.gdb.recv_events ≡ s.gdb.recv_events)
unfolding message_answer append_received
message_answer-none timeout start (bytes []) s e = absurd (ground arith)
message_answer-none timeout start (bytes (b ∷ bs)) s e =
    let s1 = (append_received (b ∷ bs) s).1 in
    (refl, after_data-none (buffer_is_full s1) (message_is_complete s1) s1 e)
message_answer-none timeout start shut s e = absurd (ground arith)
message_answer-none timeout start (failed timed_out) s e =
    (refl, after_timeout-none (ltb timeout (s.now - start)) s e)
message_answer-none timeout start (failed would_block) s e = absurd (ground arith)
message_answer-none timeout start (failed other_error) s e = absurd (ground arith)

message_round_falls :
    (timeout start : ℕ) (s : State)
    → (message_round timeout start s).0 ≡ none
    → waiting (message_round timeout start s).1 < waiting s
unfolding message_round
message_round_falls timeout start s e =
    let n = tcp_buff_length - s.gdb.data_received in
    let k = message_answer-none timeout start (recv n s).0 (recv n s).1 e in
    let lower = (recv-Receives n s).falls k.0 in
    omega (arith, ap answers k.1, lower, answers_pos (recv n s).1.gdb.recv_events)

-- The state in which the loop of `gdb_get_message` starts.
abbrev pub emptied : State → State
emptied s = record s {
  gdb = record s.gdb { data_received = 0; message_buffer = blit s.gdb.message_buffer 0 (0 ∷ []) };
}

-- The fuel is enough: on any amount of it that is at least the number of answers to come, and with any
-- result for the end of the fuel, the loop has the result and the state of `gdb_get_message`.
pub gdb_get_message_fuel :
    (timeout fuel : ℕ) (stuck : Status) (s : State)
    → answers s.gdb.recv_events ≤ fuel
    → repeat fuel stuck
        (message_round (if timeout == 0 then recv_timeout else timeout) s.now)
        (emptied s)
      ≡ gdb_get_message timeout s
unfolding gdb_get_message write_buffer
gdb_get_message_fuel timeout fuel stuck s h =
    let limit = if timeout == 0 then recv_timeout else timeout in
    let pos = answers_pos s.gdb.recv_events in
    repeat_fuel (message_round limit s.now) waiting (message_round_falls limit s.now) fuel
      (answers s.gdb.recv_events) stuck error (emptied s) (omega (arith, pos)) (omega (arith, pos))
