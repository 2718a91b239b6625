-- ===== src/Gdb/Memory/Read.antt =====
-- `gdb_read_memory` against a server that answers each request with the bytes that it asks for.
use rteget_data_linux_compat.Gdb.Memory.{after_read, gdb_read_memory, packet_size, read_memory_loop}
use rteget_data_linux_compat.Gdb.Packet.{read_memory_packet, read_request}
use rteget_data_linux_compat.Gdb.Packet.Exchange.{exchanged, read_memory_packet-reply}
use rteget_data_linux_compat.Gdb.Packet.Reply.{reply}
use rteget_data_linux_compat.Prelude.{
  All, All-append, IsByte, List, [], add32, ap, append_assoc, arith, false, length, length-append,
  refl, suc, sym, zero, ℕ, ◌++◌, ◌+◌, ◌-◌, ◌<◌, ◌∙◌, ◌∷◌, ◌≡◌, ◌≤◌,
}
use rteget_data_linux_compat.State.{M, RecvEvent, State, Status, bytes, ok}
use mathlib.Core.Path.{subst}
use native.Mathlib.Nat.{zero-add}

-- How a server serves the bytes `block` from offset `done` of a block on: `events` are its answers to
-- the requests, and `tail` is what comes later. Every packet but the last has the greatest size.
pub data Serves (base limit : ℕ) (tail : List RecvEvent)
    : ℕ → List ℕ → List RecvEvent → List (List ℕ) → Type 0 where
  last :
      (done : ℕ) (bs : List ℕ) (after : ℕ)
      → 0 < length bs
      → length bs ≤ limit
      → Serves base limit tail done bs
          (record { after = after; what = bytes (reply false bs) } ∷ tail)
          (read_request (add32 base done) (length bs) ∷ [])
  more :
      (done : ℕ) (bs left whole : List ℕ) (after : ℕ) (events : List RecvEvent)
      (requests : List (List ℕ))
      → whole ≡ bs ++ left
      → length bs ≡ limit
      → 0 < length bs
      → 0 < length left
      → Serves base limit tail (done + length bs) left events requests
      → Serves base limit tail done whole
          (record { after = after; what = bytes (reply false bs) } ∷ events)
          (read_request (add32 base done) (length bs) ∷ requests)

-- A socket that takes all that is sent, without acknowledgements, and the packet size in force.
pub record IsReading (limit : ℕ) (events : List RecvEvent) (s : State) : Type 0 where
  pub accepts : s.gdb.send_events ≡ []
  pub quiet : s.gdb.ack_mode_enabled ≡ false
  pub comes : s.gdb.recv_events ≡ events
  pub packet : s.gdb.max_memo_read_packet_size ≡ limit

-- The block is read, the requests were sent in order, and later messages are untouched.
abbrev pub Reads :
    (Status × List ℕ) × State → List ℕ → List (List ℕ) → List RecvEvent → State → Type 0
Reads r block requests tail s =
    (r.0 ≡ (ok, block)) × (r.1.gdb.sent ≡ s.gdb.sent ++ requests) × (r.1.gdb.recv_events ≡ tail)

one_packet :
    (fuel base size done limit after : ℕ) (bs : List ℕ) (events : List RecvEvent) (s : State)
    → All IsByte bs
    → 0 < length bs
    → length bs ≤ 32764
    → packet_size (size - done) limit ≡ length bs
    → IsReading limit (record { after = after; what = bytes (reply false bs) } ∷ events) s
    → read_memory_loop (suc fuel) base size done s
      ≡ after_read size
          (done + length bs)
          (read_memory_loop fuel base size)
          (ok, bs)
          (exchanged (read_request (add32 base done) (length bs)) (reply false bs) after events s)
unfolding read_memory_loop
one_packet fuel base size done limit after bs events s b lo hi fits h =
    ap (λ n. go n (read_memory_packet (add32 base done) n s))
      (ap (packet_size (size - done)) h.packet ∙ fits)
    ∙ ap (go (length bs)) (
        read_memory_packet-reply bs (add32 base done) after events s b lo hi
          (record { accepts = h.accepts; quiet = h.quiet; comes = h.comes }))
  where
    go : ℕ → (Status × List ℕ) × State → (Status × List ℕ) × State
    go n r = after_read size (done + n) (read_memory_loop fuel base size) r.0 r.1

last_packet :
    (size done : ℕ) (again : ℕ → M (Status × List ℕ)) (bs : List ℕ) (s : State)
    → size ≤ done
    → after_read size done again (ok, bs) s ≡ ((ok, bs), s)
unfolding after_read
last_packet size done again bs s h = ground arith

next_packet :
    (size done : ℕ) (again : ℕ → M (Status × List ℕ)) (bs left : List ℕ) (requests : List (List ℕ))
    (tail : List RecvEvent) (s : State)
    → done < size
    → Reads (again done s) left requests tail s
    → Reads (after_read size done again (ok, bs) s) (bs ++ left) requests tail s
unfolding after_read
next_packet size done again bs left requests tail s h r = ground arith

last_size : (n done limit : ℕ) → n ≤ limit → packet_size (done + n - done) limit ≡ n
unfolding packet_size
last_size n done limit h = ground arith

full_size :
    (n done whole limit : ℕ) → n ≡ limit → n < whole → packet_size (done + whole - done) limit ≡ n
unfolding packet_size
full_size n done whole limit e h = ground arith

-- The requests of the later packets follow the first.
joined :
    (r : (Status × List ℕ) × State) {tail : List RecvEvent} (s s1 : State) (request : List ℕ)
    (requests : List (List ℕ)) (bs left whole : List ℕ)
    → whole ≡ bs ++ left
    → s1.gdb.sent ≡ s.gdb.sent ++ (request ∷ [])
    → Reads r (bs ++ left) requests tail s1
    → Reads r whole (request ∷ requests) tail s
joined r s s1 request requests bs left whole e t h = (
  h.0 ∙ ap (λ (l : List ℕ). (ok, l)) (sym e),
  h.1
      ∙ ap (λ (l : List (List ℕ)). l ++ requests) t
      ∙ append_assoc s.gdb.sent (request ∷ []) requests,
  h.2,
)

pub read_memory_loop-Serves :
    {base limit done : ℕ} {tail : List RecvEvent} {block : List ℕ} {events : List RecvEvent}
    {requests : List (List ℕ)}
    → Serves base limit tail done block events requests
    → (fuel : ℕ) (s : State) → length block < fuel
    → limit ≤ 32764
    → All IsByte block
    → IsReading limit events s
    → Reads (read_memory_loop fuel base (done + length block) done s) block requests tail s
read_memory_loop-Serves v zero s f hi b h = absurd (omega arith)
read_memory_loop-Serves {base} {limit} {tail = tail} (last done bs after lo fits) (suc fuel) s f hi
      b h =
    let size = done + length bs in
    let s1 = exchanged (read_request (add32 base done) (length bs)) (reply false bs) after tail s in
    subst (λ r. Reads r bs (read_request (add32 base done) (length bs) ∷ []) tail s)
      (sym (
        one_packet fuel base size done limit after bs tail s b lo (omega arith)
          (last_size (length bs) done limit fits) h
        ∙ last_packet size (done + length bs) (read_memory_loop fuel base size) bs s1
            (omega arith)))
      (refl, refl, refl)
read_memory_loop-Serves {base} {limit} {tail = tail}
      (more done bs left whole after events requests e full pos lo v) (suc fuel) s f hi b h =
    let size = done + length whole in
    let request = read_request (add32 base done) (length bs) in
    let s1 = exchanged request (reply false bs) after events s in
    let parts = All-append IsByte bs left (subst (All IsByte) e b) in
    let sizes : size ≡ done + length bs + length left =
      omega (arith, ap length e, length-append bs left) in
    let ih : Reads
        (read_memory_loop fuel base (done + length bs + length left) (done + length bs) s1) left
        requests tail s1 =
      read_memory_loop-Serves {done = done + length bs} v fuel s1 (omega (arith, sizes)) hi parts.1
        (record { accepts = h.accepts; quiet = h.quiet; comes = refl; packet = h.packet }) in
    let ih' : Reads (read_memory_loop fuel base size (done + length bs) s1) left requests tail s1 =
      subst (λ n. Reads (read_memory_loop fuel base n (done + length bs) s1) left requests tail s1)
        (sym sizes) ih in
    subst (λ r. Reads r whole (request ∷ requests) tail s)
      (sym (
        one_packet fuel base size done limit after bs events s parts.0 pos (omega (arith, full))
          (full_size (length bs) done (length whole) limit full (omega (arith, sizes))) h))
      (joined (after_read size (done + length bs) (read_memory_loop fuel base size) (ok, bs) s1) s
        s1 request requests bs left whole e refl
        (next_packet size (done + length bs) (read_memory_loop fuel base size) bs left requests tail
          s1 (omega (arith, sizes)) ih'))

-- A block is read in packets of the size in force, whatever the number of packets and the delays: without
-- acknowledgements, and from a server that answers every request with the bytes asked for, in lower-case
-- digits, `gdb_read_memory` returns the block,
-- has sent the requests for its successive addresses, and leaves what comes later unread.
pub gdb_read_memory-Serves :
    {base limit : ℕ} {tail : List RecvEvent} {block : List ℕ} {events : List RecvEvent}
    {requests : List (List ℕ)} (s : State)
    → Serves base limit tail 0 block events requests
    → limit ≤ 32764
    → All IsByte block
    → IsReading limit events s
    → Reads (gdb_read_memory base (length block) s) block requests tail s
unfolding gdb_read_memory
gdb_read_memory-Serves {base} {tail = tail} {block = block} {requests = requests} s v hi b h =
    subst (λ n. Reads (read_memory_loop (suc (length block)) base n 0 s) block requests tail s)
      (zero-add (length block))
      (read_memory_loop-Serves v (suc (length block)) s (omega arith) hi b h)
