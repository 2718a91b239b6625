-- ===== src/Gdb/Memory/Write.antt =====
-- `gdb_write_memory` against a server that acknowledges each request.
use rteget_data_linux_compat.Gdb.Memory.{
  after_write, gdb_write_memory, packet_size, write_memory_loop,
}
use rteget_data_linux_compat.Gdb.Packet.{write_memory_packet, write_request}
use rteget_data_linux_compat.Gdb.Packet.Exchange.{exchanged}
use rteget_data_linux_compat.Gdb.Packet.Written.{ok_answer, write_memory_packet-acknowledged}
use rteget_data_linux_compat.Prelude.{
  List, [], add32, ap, append_assoc, arith, drop, false, refl, suc, sym, zero, ℕ, ◌++◌, ◌+◌, ◌-◌,
  ◌<◌, ◌∙◌, ◌∷◌, ◌≡◌, ◌≤◌,
}
use rteget_data_linux_compat.State.{M, RecvEvent, State, Status, bytes, ok}
use mathlib.Core.Path.{subst}
use native.Mathlib.Nat.{zero-add}

-- How `left` bytes of the buffer from offset `done` on are written: `events` are the acknowledgements of
-- the requests, and `tail` is what comes later. Every packet but the last has the greatest size.
pub data Acknowledges (buffer : List ℕ) (base limit : ℕ) (tail : List RecvEvent)
    : ℕ → ℕ → List RecvEvent → List (List ℕ) → Type 0 where
  final :
      (done left after : ℕ)
      → 0 < left
      → left ≤ limit
      → Acknowledges buffer base limit tail done left
          (record { after = after; what = bytes ok_answer } ∷ tail)
          (write_request (drop done buffer) (add32 base done) left ∷ [])
  further :
      (done left after : ℕ) (events : List RecvEvent) (requests : List (List ℕ))
      → 0 < limit
      → 0 < left
      → Acknowledges buffer base limit tail (done + limit) left events requests
      → Acknowledges buffer base limit tail done
          (limit + left)
          (record { after = after; what = bytes ok_answer } ∷ events)
          (write_request (drop done buffer) (add32 base done) limit ∷ requests)

-- A socket that takes all that is sent, without acknowledgements, and the packet size in force.
pub record IsWriting (limit : ℕ) (events : List RecvEvent) (s : State) : Type 0 where
  pub accepts : s.gdb.send_events ≡ []
  pub quiet : s.gdb.ack_mode_enabled ≡ false
  pub comes : s.gdb.recv_events ≡ events
  pub packet : s.gdb.max_memo_write_packet_size ≡ limit

-- The state of the connection but for its messages.
abbrev pub SameLink : State → State → Type 0
SameLink s s1 =
    (s1.gdb.send_events ≡ s.gdb.send_events)
    × (s1.gdb.ack_mode_enabled ≡ s.gdb.ack_mode_enabled)
    × (s1.gdb.max_memo_read_packet_size ≡ s.gdb.max_memo_read_packet_size)

-- The block is written, the requests were sent in order, and later messages and the connection are
-- untouched.
abbrev pub Writes : Status × State → List (List ℕ) → List RecvEvent → State → Type 0
Writes r requests tail s =
    (r.0 ≡ ok)
    × (r.1.gdb.sent ≡ s.gdb.sent ++ requests)
    × (r.1.gdb.recv_events ≡ tail)
    × SameLink s r.1

one_write :
    (buffer : List ℕ) (fuel base size done n limit after : ℕ) (events : List RecvEvent) (s : State)
    → 0 < n
    → n ≤ 32757
    → packet_size (size - done) limit ≡ n
    → IsWriting limit (record { after = after; what = bytes ok_answer } ∷ events) s
    → write_memory_loop (suc fuel) buffer base size done s
      ≡ after_write size (done + n) (write_memory_loop fuel buffer base size) ok (
          exchanged (write_request (drop done buffer) (add32 base done) n) ok_answer after events s)
unfolding write_memory_loop
one_write buffer fuel base size done n limit after events s lo hi fits h =
    ap (λ k. go k (write_memory_packet (drop done buffer) (add32 base done) k s))
      (ap (packet_size (size - done)) h.packet ∙ fits)
    ∙ ap (go n) (
        write_memory_packet-acknowledged (drop done buffer) (add32 base done) n after events s lo hi
          (record { accepts = h.accepts; quiet = h.quiet; comes = h.comes }))
  where
    go : ℕ → Status × State → Status × State
    go k r = after_write size (done + k) (write_memory_loop fuel buffer base size) r.0 r.1

last_write :
    (size done : ℕ) (again : ℕ → M Status) (s : State)
    → size ≤ done
    → after_write size done again ok s ≡ (ok, s)
unfolding after_write
last_write size done again s h = ground arith

next_write :
    (size done : ℕ) (again : ℕ → M Status) (s : State)
    → done < size
    → after_write size done again ok s ≡ again done s
unfolding after_write
next_write size done again s h = ground arith

last_size : (n done limit : ℕ) → n ≤ limit → packet_size (done + n - done) limit ≡ n
unfolding packet_size
last_size n done limit h = ground arith

full_size : (left done limit : ℕ) → packet_size (done + (limit + left) - done) limit ≡ limit
unfolding packet_size
full_size left done limit = ground arith

joined :
    (r : Status × State) {tail : List RecvEvent} (s s1 : State) (request : List ℕ)
    (requests : List (List ℕ))
    → s1.gdb.sent ≡ s.gdb.sent ++ (request ∷ [])
    → SameLink s s1
    → Writes r requests tail s1
    → Writes r (request ∷ requests) tail s
joined r s s1 request requests t k h = (
  h.0,
  h.1
      ∙ ap (λ (l : List (List ℕ)). l ++ requests) t
      ∙ append_assoc s.gdb.sent (request ∷ []) requests,
  h.2,
  (h.3.0 ∙ k.0, h.3.1 ∙ k.1, h.3.2 ∙ k.2),
)

write_memory_loop-Acknowledges :
    {buffer : List ℕ} {base limit done left : ℕ} {tail events : List RecvEvent}
    {requests : List (List ℕ)}
    → Acknowledges buffer base limit tail done left events requests
    → (fuel : ℕ) (s : State) → left < fuel
    → limit ≤ 32757
    → IsWriting limit events s
    → Writes (write_memory_loop fuel buffer base (done + left) done s) requests tail s
write_memory_loop-Acknowledges v zero s f hi h = absurd (omega arith)
write_memory_loop-Acknowledges {buffer} {base} {limit} {tail = tail} (final done left after lo fits)
      (suc fuel) s f hi h =
    let request = write_request (drop done buffer) (add32 base done) left in
    let s1 = exchanged request ok_answer after tail s in
    subst (λ r. Writes r (request ∷ []) tail s)
      (sym (
        one_write buffer fuel base (done + left) done left limit after tail s lo (omega arith)
          (last_size left done limit fits) h
        ∙ last_write (done + left) (done + left) (write_memory_loop fuel buffer base (done + left))
            s1 (omega arith)))
      (refl, refl, refl, (refl, refl, refl))
write_memory_loop-Acknowledges {buffer} {base} {limit} {tail = tail}
      (further done left after events requests pos lo v) (suc fuel) s f hi h =
    let size = done + (limit + left) in
    let request = write_request (drop done buffer) (add32 base done) limit in
    let s1 = exchanged request ok_answer after events s in
    let sizes : done + limit + left ≡ size = omega arith in
    let ih : Writes (write_memory_loop fuel buffer base (done + limit + left) (done + limit) s1)
        requests tail s1 =
      write_memory_loop-Acknowledges {done = done + limit} v fuel s1 (omega arith) hi
        (record { accepts = h.accepts; quiet = h.quiet; comes = refl; packet = h.packet }) in
    subst (λ r. Writes r (request ∷ requests) tail s)
      (sym (
        one_write buffer fuel base size done limit limit after events s pos hi
          (full_size left done limit) h
        ∙ next_write size (done + limit) (write_memory_loop fuel buffer base size) s1
            (omega arith)))
      (joined (write_memory_loop fuel buffer base size (done + limit) s1) s s1 request requests refl
        (refl, refl, refl)
        (subst
          (λ n. Writes (write_memory_loop fuel buffer base n (done + limit) s1) requests tail s1)
          sizes ih))

-- A block is written in packets of the size in force, whatever their number and the delays: with a
-- server that acknowledges every request, `gdb_write_memory` returns RTE_OK, has sent the requests with the
-- successive parts of the buffer to the successive addresses, and leaves what comes later unread.
pub gdb_write_memory-Acknowledges :
    {buffer : List ℕ} {base limit size : ℕ} {tail events : List RecvEvent}
    {requests : List (List ℕ)} (s : State)
    → Acknowledges buffer base limit tail 0 size events requests
    → limit ≤ 32757
    → IsWriting limit events s
    → Writes (gdb_write_memory buffer base size s) requests tail s
unfolding gdb_write_memory
gdb_write_memory-Acknowledges {buffer} {base} {size = size} {tail = tail} {requests = requests} s v
      hi h =
    subst (λ n. Writes (write_memory_loop (suc size) buffer base n 0 s) requests tail s)
      (zero-add size) (write_memory_loop-Acknowledges v (suc size) s (omega arith) hi h)
