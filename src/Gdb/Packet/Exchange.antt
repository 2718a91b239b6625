-- ===== src/Gdb/Packet/Exchange.antt =====
-- A request and its answer over the socket, in no-ack mode: `gdb_send`, `gdb_get_message`, and the two
-- memory packets over them.
use rteget_data_linux_compat.Gdb.Message.{gdb_error_reported, gdb_get_message, write_buffer}
use rteget_data_linux_compat.Gdb.Message.Receive.{IsMessage, gdb_get_message-received, received}
use rteget_data_linux_compat.Gdb.Packet.{
  bad_read_size, check_message, check_reply, read_answer, read_memory_packet, read_request, report,
  transact,
}
use rteget_data_linux_compat.Gdb.Packet.Reply.{check_reply-reply, reply}
use rteget_data_linux_compat.Gdb.Socket.{gdb_send}
use rteget_data_linux_compat.Hex.{hex_char, hex_fixed}
use rteget_data_linux_compat.Hex.Text.{hex_text, length-hex_text, total}
use rteget_data_linux_compat.Prelude.{
  ==_refl, All, Bool, IsByte, List, [], ap, arith, blit, drop, drop-append, false, if◌then◌else◌,
  length, length-append, peek, refl, suc, ℕ, ◌%◌, ◌*◌, ◌++◌, ◌+◌, ◌-◌, ◌<◌, ◌∙◌, ◌∷◌, ◌≡◌, ◌≢◌, ◌≤◌,
}
use rteget_data_linux_compat.State.{
  M, RecvEvent, State, Status, bad_input_data, bytes, error, if_ok, ok, ◌>>=◌,
}

-- The socket takes all that is sent, acknowledgements are off, and `answer` is the next segment.
pub record IsAnswered (answer : List ℕ) (after : ℕ) (rest : List RecvEvent) (s : State)
    : Type 0 where
  pub accepts : s.gdb.send_events ≡ []
  pub quiet : s.gdb.ack_mode_enabled ≡ false
  pub comes : s.gdb.recv_events ≡ record { after = after; what = bytes answer } ∷ rest

-- The globals behind `request` and `answer`.
abbrev pub requested : List ℕ → State → State
requested request s = record s {
  gdb = record s.gdb {
    message_buffer = blit s.gdb.message_buffer 0 (request ++ (0 ∷ []));
    sent = s.gdb.sent ++ (request ∷ []);
  };
}

abbrev pub exchanged : List ℕ → List ℕ → ℕ → List RecvEvent → State → State
exchanged request answer after rest s = received answer after rest (requested request s)

gdb_send-accepts :
    (c : ℕ) (msg : List ℕ) (s : State)
    → s.gdb.send_events ≡ []
    → gdb_send (c ∷ msg) s
      ≡ (ok, record s { gdb = record s.gdb { sent = s.gdb.sent ++ ((c ∷ msg) ∷ []) } })
unfolding gdb_send
gdb_send-accepts c msg s e = rw e (rw (==_refl (suc (length msg))))

length-reply : (upper : Bool) (bs : List ℕ) → length (reply upper bs) ≡ length bs * 2 + 4
unfolding hex_fixed
length-reply upper bs = omega (
  arith,
  length-append (hex_text upper bs) (b'#' ∷ hex_fixed upper 2 (total (hex_text upper bs) % 256)),
  length-hex_text upper bs,
)

reply-IsMessage : (upper : Bool) (bs : List ℕ) → length bs ≤ 32764 → IsMessage (reply upper bs)
reply-IsMessage upper bs h = record {
  long_enough = omega (arith, length-reply upper bs);
  fits = omega (arith, length-reply upper bs);
  hash =
      ap (λ n. peek (drop n (reply upper bs)))
        (let e : length (reply upper bs) - 3 ≡ suc (length (hex_text upper bs) + 0) =
            omega (arith, length-reply upper bs, length-hex_text upper bs) in
          e)
      ∙ ap peek (drop-append (hex_text upper bs) _ 0);
}

pub transact-answered :
    (request answer : List ℕ) (after : ℕ) (rest : List RecvEvent) (s : State)
    → 0 < length request
    → IsMessage answer
    → IsAnswered answer after rest s
    → transact request s ≡ (ok, exchanged request answer after rest s)
unfolding transact write_buffer
transact-answered [] answer after rest s lo m h = absurd (omega arith)
transact-answered (c ∷ msg) answer after rest s lo m h =
    let s0 : State = record s {
      gdb = record s.gdb { message_buffer = blit s.gdb.message_buffer 0 ((c ∷ msg) ++ (0 ∷ [])) };
    } in
    ap (λ (r : Status × State). if_ok r.0 (gdb_get_message 0) r.1)
      (gdb_send-accepts c msg s0 h.accepts)
    ∙ gdb_get_message-received (requested (c ∷ msg) s) answer 0 after rest m h.quiet h.comes

good_read_size : (size : ℕ) → 0 < size → size ≤ 32764 → bad_read_size size ≡ false
unfolding bad_read_size
good_read_size size lo hi = ground arith

-- The second character decides whether an answer is taken for an error report.
not_reported :
    (upper : Bool) (bs stale : List ℕ) (s : State)
    → s.gdb.message_buffer ≡ reply upper bs ++ (0 ∷ stale)
    → peek (hex_text upper bs ++ (b'#' ∷ [])) ≢ b'E'
    → gdb_error_reported s ≡ (false, s)
unfolding gdb_error_reported hex_fixed
not_reported upper [] stale s e h =
    ground (arith, ap peek e, ap (λ (m : List ℕ). peek (drop 1 m)) e)
not_reported upper (b ∷ bs) stale s e h =
    ground (arith, ap peek e, ap (λ (m : List ℕ). peek (drop 1 m)) e)

lower_not_e : (bs : List ℕ) → peek (hex_text false bs ++ (b'#' ∷ [])) ≢ b'E'
unfolding hex_fixed hex_char
lower_not_e [] h = absurd (omega arith)
lower_not_e (b ∷ bs) h = ground arith

read_answer-reply :
    (bs stale : List ℕ) (s : State)
    → All IsByte bs
    → s.gdb.message_buffer ≡ reply false bs ++ (0 ∷ stale)
    → read_answer (length bs) ok s ≡ ((ok, bs), s)
unfolding read_answer check_message report
read_answer-reply bs stale s b e = rw (not_reported false bs stale s e (lower_not_e bs)) (
    ap (λ m. report (check_reply (length bs) m) s) e
    ∙ ap (λ r. report r s) (check_reply-reply false bs stale b))

-- A read packet of `length bs` bytes that the server answers with `bs`, in lower case, returns them.
-- What was sent is the request alone, and no other answer is used up.
pub read_memory_packet-reply :
    (bs : List ℕ) (address after : ℕ) (rest : List RecvEvent) (s : State)
    → All IsByte bs
    → 0 < length bs
    → length bs ≤ 32764
    → IsAnswered (reply false bs) after rest s
    → read_memory_packet address (length bs) s
      ≡ ((ok, bs), exchanged (read_request address (length bs)) (reply false bs) after rest s)
unfolding read_memory_packet
read_memory_packet-reply bs address after rest s b lo hi h =
    ap (λ bad. if bad then ((error, []), record s { last_error = bad_input_data }) else go s)
      (good_read_size (length bs) lo hi)
    ∙ ap (λ (r : Status × State). read_answer (length bs) r.0 r.1)
        (transact-answered (read_request address (length bs)) (reply false bs) after rest s
          (omega arith) (reply-IsMessage false bs hi) h)
    ∙ read_answer-reply bs _ _ b refl
  where
    go : M (Status × List ℕ)
    go = do got ← transact (read_request address (length bs)); read_answer (length bs) got
