-- ===== src/Gdb/Socket/Receives.antt =====
-- What a call of `recv` leaves behind, whatever the script holds.
use rteget_data_linux_compat.Gdb.Socket.{answers, delivered, leave, pieces, recv, recv_from}
use rteget_data_linux_compat.Prelude.{
  Bool, List, [], ap, arith, drop, false, length, length-drop, length-take, refl, suc, take, true,
  zero, ℕ, ◌+◌, ◌<◌, ◌∷◌, ◌≡◌, ◌≤◌,
}
use rteget_data_linux_compat.State.{Received, RecvEvent, State, bytes, failed, shut}

-- The answers behind which a loop may call `recv` again.
abbrev pub goes_on : Received → Bool
goes_on (bytes []) = false
goes_on (bytes (b ∷ bs)) = true
goes_on shut = false
goes_on (failed x) = true

-- The buffer is as it was, at most `n` bytes came, and a script goes down.
pub record Receives (n : ℕ) (s : State) (r : Received) (s1 : State) : Type 0 where
  pub buffer : s1.gdb.message_buffer ≡ s.gdb.message_buffer
  pub received : s1.gdb.data_received ≡ s.gdb.data_received
  pub piece : pieces r ≤ n
  pub falls : goes_on r ≡ true → answers s1.gdb.recv_events < answers s.gdb.recv_events

leave_le :
    (bs : List ℕ) (events : List RecvEvent)
    → answers (leave bs events) ≤ suc (length bs + answers events)
unfolding answers
leave_le [] events = omega arith
leave_le (b ∷ bs) events = omega arith

leave_falls :
    (n : ℕ) (bs : List ℕ) (events : List RecvEvent)
    → goes_on (bytes (take n bs)) ≡ true
    → answers (leave (drop n bs) events) < suc (length bs + answers events)
leave_falls zero bs events e = absurd (ground arith)
leave_falls (suc n) [] events e = absurd (ground arith)
leave_falls (suc n) (b ∷ bs) events e = omega (arith, leave_le (drop n bs) events, length-drop n bs)

delivered-Receives :
    (n after : ℕ) (what : Received) (events : List RecvEvent) (s : State)
    → answers s.gdb.recv_events ≡ suc (pieces what + answers events)
    → Receives n s
        (delivered n (record { after = after; what = what }) events s).0
        (delivered n (record { after = after; what = what }) events s).1
unfolding delivered
delivered-Receives n after (bytes bs) events s e = record {
  buffer = refl;
  received = refl;
  piece = omega (arith, length-take n bs);
  falls = λ g. omega (arith, leave_falls n bs events g, e);
}
delivered-Receives n after shut events s e = record {
  buffer = refl;
  received = refl;
  piece = omega arith;
  falls = λ g. absurd (ground arith);
}
delivered-Receives n after (failed x) events s e = record {
  buffer = refl;
  received = refl;
  piece = omega arith;
  falls = λ g. omega (arith, e);
}

recv_from-Receives :
    (events : List RecvEvent) (n : ℕ) (s : State)
    → s.gdb.recv_events ≡ events
    → Receives n s (recv_from events n s).0 (recv_from events n s).1
unfolding recv_from answers
recv_from-Receives [] n s e = record {
  buffer = refl;
  received = refl;
  piece = omega arith;
  falls = λ g. absurd (ground arith);
}
recv_from-Receives (x ∷ events) n s e = delivered-Receives n x.after x.what events s (ap answers e)

pub recv-Receives : (n : ℕ) (s : State) → Receives n s (recv n s).0 (recv n s).1
unfolding recv
recv-Receives n s = recv_from-Receives s.gdb.recv_events n s refl
