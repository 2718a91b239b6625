-- ===== src/Gdb/Socket.antt =====
-- The socket calls of Code/gdb_lib.cpp, and the functions over them that exchange no whole message.
pub mod Receives
pub mod Sends
use rteget_data_linux_compat.Loop.{repeat}
use rteget_data_linux_compat.Prelude.{
  List, Option, [], drop, if◌then◌else◌, length, none, some, suc, take, ℕ, ◌++◌, ◌+◌, ◌==◌, ◌∷◌,
}
use rteget_data_linux_compat.State.{
  M, Received, RecvEvent, Sent, State, Status, accepted, bad_input_data, bytes, fail, failed,
  msg_not_sent_completely, ok, other_error, pure, refused, send_timeout, shut, socket, timed_out,
  would_block, ◌>>=◌, ◌>>◌,
}

-- The rest of a stream segment that a call of `recv` left.
abbrev leave : List ℕ → List RecvEvent → List RecvEvent
leave [] events = events
leave (b ∷ bs) events = record { after = 0; what = bytes (b ∷ bs) } ∷ events

unfoldable pub delivered : ℕ → RecvEvent → List RecvEvent → M Received
delivered n e events s = elim e.what [
  | bytes bs ↦ (
    bytes (take n bs),
    record s {
      now = s.now + e.after;
      gdb = record s.gdb { recv_events = leave (drop n bs) events };
    },
  )
  | shut ↦ (shut, record s { now = s.now + e.after; gdb = record s.gdb { recv_events = events } })
  | failed x ↦
      (failed x, record s { now = s.now + e.after; gdb = record s.gdb { recv_events = events } })
]

unfoldable pub recv_from : List RecvEvent → ℕ → M Received
unfolding delivered
recv_from [] n s = (shut, s)
recv_from (e ∷ events) n s = delivered n e events s

-- recv(gdb_socket, …, n, 0). A stream that has run dry is closed.
unfoldable pub recv : ℕ → M Received
unfolding recv_from
recv n s = recv_from s.gdb.recv_events n s

-- More calls of `recv` than the script can answer before it is closed.
abbrev pub pieces : Received → ℕ
pieces (bytes bs) = length bs
pieces _ = 0

unfoldable pub answers : List RecvEvent → ℕ
answers [] = 1
answers (e ∷ events) = suc (pieces e.what + answers events)

-- send(gdb_socket, msg, …, 0). A script that has run dry accepts all.
unfoldable pub send_to : List Sent → List ℕ → M Sent
send_to [] msg s =
    (accepted (length msg), record s { gdb = record s.gdb { sent = s.gdb.sent ++ (msg ∷ []) } })
send_to (r ∷ rs) msg s =
    (r, record s { gdb = record s.gdb { sent = s.gdb.sent ++ (msg ∷ []); send_events = rs } })

unfoldable pub send : List ℕ → M Sent
unfolding send_to
send msg s = send_to s.gdb.send_events msg s

-- What `gdb_send` makes of the answer of `send`.
unfoldable pub sent_status : ℕ → Sent → M Status
sent_status n (accepted k) = if k == n then pure ok else fail msg_not_sent_completely
sent_status n (refused timed_out) = fail send_timeout
sent_status n (refused would_block) = fail socket
sent_status n (refused other_error) = fail socket

unfoldable pub gdb_send : List ℕ → M Status
unfolding send sent_status
gdb_send [] = fail bad_input_data
gdb_send (c ∷ msg) = do r ← send (c ∷ msg); sent_status (length (c ∷ msg)) r

unfoldable pub gdb_send_ack : M (Unit {0})
unfolding gdb_send
gdb_send_ack s = if s.gdb.ack_mode_enabled then (tt, (gdb_send (b'+' ∷ []) s).1) else (tt, s)

-- One call of `recv` with what it returned, to go on or not.
abbrev pub after_recv {ℓ} :
    {A : Type ℓ} → (Received → State → Option A × State) → ℕ → State → Option A × State
after_recv handle n s = handle (recv n s).0 (recv n s).1

-- A loop over `recv` that ends when it returns 0 or less.
unfoldable pub until_dry : (List ℕ → State → State) → Received → State → Option (Unit {0}) × State
until_dry use_data (bytes []) s = (some tt, s)
until_dry use_data (bytes (b ∷ bs)) s = (none, use_data (b ∷ bs) s)
until_dry use_data shut s = (some tt, s)
until_dry use_data (failed x) s = (some tt, s)

unfoldable pub flush_round : State → Option (Unit {0}) × State
unfolding recv until_dry
flush_round = after_recv (until_dry (λ bs s. s)) 256

unfoldable pub gdb_flush_socket : M (Unit {0})
unfolding repeat flush_round answers
gdb_flush_socket s = repeat (answers s.gdb.recv_events) tt flush_round s
