-- ===== src/Gdb/Socket/Sends.antt =====
-- What a call of `gdb_send` or `gdb_send_ack` leaves as it was.
use rteget_data_linux_compat.Gdb.Socket.{gdb_send, gdb_send_ack, send, send_to, sent_status}
use rteget_data_linux_compat.Prelude.{
  Bool, Bool-cases, List, [], false, if◌then◌else◌, inl, inr, length, refl, true, ℕ, ◌==◌, ◌∙◌, ◌∷◌,
  ◌≡◌,
}
use rteget_data_linux_compat.State.{
  Sent, State, accepted, other_error, refused, timed_out, would_block,
}

-- The message received so far, and the answers to come.
abbrev pub KeepsReceived : State → State → Type 0
KeepsReceived s s1 =
    (s1.gdb.message_buffer ≡ s.gdb.message_buffer)
    × (s1.gdb.data_received ≡ s.gdb.data_received)
    × (s1.gdb.recv_events ≡ s.gdb.recv_events)

sent_status-KeepsReceived : (n : ℕ) (r : Sent) (s : State) → KeepsReceived s (sent_status n r s).1
unfolding sent_status
sent_status-KeepsReceived n (accepted k) s = elim (Bool-cases (k == n)) [
  | inl e ↦ rw (e, sent_status) (refl, refl, refl)
  | inr e ↦ rw (e, sent_status) (refl, refl, refl)
]
sent_status-KeepsReceived n (refused timed_out) s = (refl, refl, refl)
sent_status-KeepsReceived n (refused would_block) s = (refl, refl, refl)
sent_status-KeepsReceived n (refused other_error) s = (refl, refl, refl)

send_to-KeepsReceived :
    (rs : List Sent) (msg : List ℕ) (s : State) → KeepsReceived s (send_to rs msg s).1
unfolding send_to
send_to-KeepsReceived [] msg s = (refl, refl, refl)
send_to-KeepsReceived (r ∷ rs) msg s = (refl, refl, refl)

KeepsReceived-trans :
    (s s1 s2 : State) → KeepsReceived s s1 → KeepsReceived s1 s2 → KeepsReceived s s2
KeepsReceived-trans s s1 s2 h k = (k.0 ∙ h.0, k.1 ∙ h.1, k.2 ∙ h.2)

pub gdb_send-KeepsReceived : (msg : List ℕ) (s : State) → KeepsReceived s (gdb_send msg s).1
unfolding gdb_send send
gdb_send-KeepsReceived [] s = (refl, refl, refl)
gdb_send-KeepsReceived (c ∷ msg) s =
    KeepsReceived-trans s (send (c ∷ msg) s).1 (gdb_send (c ∷ msg) s).1
      (send_to-KeepsReceived s.gdb.send_events (c ∷ msg) s)
      (sent_status-KeepsReceived (length (c ∷ msg)) (send (c ∷ msg) s).0 (send (c ∷ msg) s).1)

acknowledged-KeepsReceived :
    (enabled : Bool) (s : State)
    → KeepsReceived s
        (if◌then◌else◌ {A = Unit {0} × State} enabled (tt, (gdb_send (b'+' ∷ []) s).1) (tt, s)).1
acknowledged-KeepsReceived true s = gdb_send-KeepsReceived (b'+' ∷ []) s
acknowledged-KeepsReceived false s = (refl, refl, refl)

pub gdb_send_ack-KeepsReceived : (s : State) → KeepsReceived s (gdb_send_ack s).1
unfolding gdb_send_ack
gdb_send_ack-KeepsReceived s = acknowledged-KeepsReceived s.gdb.ack_mode_enabled s
