-- ===== src/Gdb/Message/Receive.antt =====
-- `gdb_get_message` where a whole message is there to be read.
use rteget_data_linux_compat.Gdb.Message.{
  after_data, buffer_is_full, finish_message, gdb_get_message, message_answer, message_is_complete,
  message_round, recv_timeout, write_buffer,
}
use rteget_data_linux_compat.Gdb.Socket.{answers, gdb_send_ack, recv}
use rteget_data_linux_compat.Loop.{repeat, repeat-some}
use rteget_data_linux_compat.Prelude.{
  List, Option, [], ap, arith, blit, blit-blit_end, drop, drop_all, false, if◌then◌else◌, length,
  peek, peek-blit, some, suc, take_all, true, ℕ, ◌++◌, ◌+◌, ◌-◌, ◌<◌, ◌==◌, ◌∙◌, ◌∷◌, ◌≡◌, ◌≤◌,
}
use rteget_data_linux_compat.State.{
  Received, RecvEvent, State, Status, bytes, error, ok, tcp_buff_length,
}
use native.Mathlib.Nat.{zero-add}

-- A message ends in '#' and two digits, and fits the buffer with its terminating zero.
pub record IsMessage (m : List ℕ) : Type 0 where
  pub long_enough : 4 ≤ length m
  pub fits : length m < tcp_buff_length - 1
  pub hash : peek (drop (length m - 3) m) ≡ b'#'

-- The globals behind the receipt of `m`, with `rest` still to come.
abbrev pub received : List ℕ → ℕ → List RecvEvent → State → State
received m after rest s = record s {
  now = s.now + after;
  gdb = record s.gdb {
    message_buffer = m ++ (0 ∷ drop (suc (length m)) (blit s.gdb.message_buffer 0 (0 ∷ [])));
    data_received = length m;
    recv_events = rest;
  };
}

recv_whole :
    (s : State) (m : List ℕ) (after n : ℕ) (rest : List RecvEvent)
    → s.gdb.recv_events ≡ record { after = after; what = bytes m } ∷ rest
    → length m ≤ n
    → recv n s
      ≡ (bytes m, record s { now = s.now + after; gdb = record s.gdb { recv_events = rest } })
unfolding recv
recv_whole s m after n rest e h = rw (e, take_all n m h, drop_all n m h)

finish_quietly :
    (s : State)
    → s.gdb.ack_mode_enabled ≡ false
    → finish_message s ≡ (ok, (write_buffer s.gdb.data_received (0 ∷ []) s).1)
unfolding finish_message gdb_send_ack
finish_quietly s a = rw (a, gdb_send_ack)

cleared : State → State
cleared s = record s {
  gdb = record s.gdb { data_received = 0; message_buffer = blit s.gdb.message_buffer 0 (0 ∷ []) };
}

-- The state behind a whole segment `m`, before it is looked at.
segment : List ℕ → ℕ → List RecvEvent → State → State
segment m after rest s = record s {
  now = s.now + after;
  gdb = record s.gdb {
    message_buffer = blit (blit s.gdb.message_buffer 0 (0 ∷ [])) 0 m;
    data_received = length m;
    recv_events = rest;
  };
}

module _ (s : State) (m : List ℕ) (after : ℕ) (rest : List RecvEvent) (h : IsMessage m) where
  not_full : buffer_is_full (segment m after rest s) ≡ false
  unfolding buffer_is_full segment
  not_full = ground (arith, h.fits)

  complete : message_is_complete (segment m after rest s) ≡ true
  unfolding message_is_complete segment
  complete = ground (
    arith,
    h.hash,
    h.long_enough,
    peek-blit (blit s.gdb.message_buffer 0 (0 ∷ [])) m (length m - 3)
        (omega (arith, h.long_enough)),
  )

  terminated :
      s.gdb.ack_mode_enabled ≡ false
      → finish_message (segment m after rest s) ≡ (ok, received m after rest s)
  unfolding segment write_buffer
  terminated a =
      finish_quietly (segment m after rest s) a
      ∙ rw (blit-blit_end (blit s.gdb.message_buffer 0 (0 ∷ [])) m)

-- What the loop makes of the state behind a segment.
judged : State → Option Status × State
unfolding after_data
judged s = after_data (buffer_is_full s) (message_is_complete s) s

message_round-segment :
    (timeout start : ℕ) (s : State) (m : List ℕ) (after : ℕ) (rest : List RecvEvent)
    → IsMessage m
    → s.gdb.ack_mode_enabled ≡ false
    → s.gdb.recv_events ≡ record { after = after; what = bytes m } ∷ rest
    → message_round timeout start (cleared s) ≡ (some ok, received m after rest s)
unfolding message_round cleared judged segment
message_round-segment timeout start s [] after rest h a e = absurd (omega arith)
message_round-segment timeout start s (b ∷ bs) after rest h a e =
    let m : List ℕ = b ∷ bs in
    let seg = segment m after rest s in
    ap (λ (r : Received × State). message_answer timeout start r.0 r.1)
      (recv_whole (cleared s) m after tcp_buff_length rest e (omega (arith, h.fits)))
    ∙ ap (λ (d : ℕ). judged (record seg { gdb = record seg.gdb { data_received = d } }))
        (zero-add (length m))
    ∙ ap (λ full. after_data full (message_is_complete seg) seg) (not_full s m after rest h)
    ∙ ap (λ whole. after_data false whole seg) (complete s m after rest h)
    ∙ ap (λ (r : Status × State). (some r.0, r.1)) (terminated s m after rest h a)

-- A message that comes in one piece is received without acknowledgements, and without its bytes being
-- changed.
pub gdb_get_message-received :
    (s : State) (m : List ℕ) (timeout after : ℕ) (rest : List RecvEvent)
    → IsMessage m
    → s.gdb.ack_mode_enabled ≡ false
    → s.gdb.recv_events ≡ record { after = after; what = bytes m } ∷ rest
    → gdb_get_message timeout s ≡ (ok, received m after rest s)
unfolding gdb_get_message write_buffer cleared answers
gdb_get_message-received s m timeout after rest h a e =
    let round = message_round (if timeout == 0 then recv_timeout else timeout) s.now in
    ap (λ events. repeat (answers events) error round (cleared s)) e
    ∙ repeat-some round _ error (cleared s) (message_round-segment _ s.now s m after rest h a e)
