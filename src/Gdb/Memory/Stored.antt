-- ===== src/Gdb/Memory/Stored.antt =====
-- Writing a block to a server that holds a memory and reads the requests, and reading it back.
use rteget_data_linux_compat.Gdb.Memory.{gdb_read_memory, gdb_write_memory}
use rteget_data_linux_compat.Gdb.Memory.Answers.{
  answer-write_request, memory_after, memory_after-write_request, memory_after_all, server_answers,
  server_answers-append,
}
use rteget_data_linux_compat.Gdb.Memory.Block.{
  memory_block, memory_block-add, memory_block-from, memory_block-stored, memory_block_in_front,
  stored, stored-IsByte,
}
use rteget_data_linux_compat.Gdb.Memory.Server.{gdb_read_memory-memory_block, server_requests}
use rteget_data_linux_compat.Gdb.Memory.Write.{
  Acknowledges, Writes, final, further, gdb_write_memory-Acknowledges,
}
use rteget_data_linux_compat.Gdb.Packet.{write_request}
use rteget_data_linux_compat.Gdb.Packet.Written.{ok_answer}
use rteget_data_linux_compat.Prelude.{
  All, Bool-cases, IsByte, List, [], add32, ap, append_assoc, arith, drop, false, if◌then◌else◌,
  inl, inr, leb, length, length-drop, length-take, refl, suc, sym, take, take-add, take_all, zero,
  ℕ, ◌++◌, ◌+◌, ◌-◌, ◌<◌, ◌^◌, ◌∙◌, ◌∷◌, ◌≡◌, ◌≤◌,
}
use rteget_data_linux_compat.State.{RecvEvent, State, bytes, ok}
use mathlib.Core.Path.{subst}

-- The requests to write `left` bytes of the buffer from offset `done` on.
module _ (buffer : List ℕ) (base limit : ℕ) where
  unfoldable pub ack_requests : ℕ → ℕ → ℕ → List (List ℕ)
  unfolding write_request
  ack_requests zero done left = []
  ack_requests (suc fuel) done left =
      let others = ack_requests fuel (done + limit) (left - limit) in
      if leb left limit
      then write_request (drop done buffer) (add32 base done) left ∷ []
      else write_request (drop done buffer) (add32 base done) limit ∷ others

ack_step :
    (mem : ℕ → ℕ) (buffer : List ℕ) (address n : ℕ) (requests : List (List ℕ))
    (tail : List RecvEvent)
    → server_answers mem (write_request buffer address n ∷ requests) tail
      ≡ record { after = 0; what = bytes ok_answer }
        ∷ server_answers (memory_after mem (write_request buffer address n)) requests tail
unfolding server_answers
ack_step mem buffer address n requests tail =
    ap
      (λ r.
        record { after = 0; what = bytes r }
        ∷ server_answers (memory_after mem (write_request buffer address n)) requests tail)
      (answer-write_request mem buffer address n)

server-Acknowledges :
    (mem : ℕ → ℕ) (buffer : List ℕ) (base limit : ℕ) (tail : List RecvEvent) (fuel done left : ℕ)
    → 0 < limit
    → 0 < left
    → left ≤ fuel
    → Acknowledges buffer base limit tail done left
        (server_answers mem (ack_requests buffer base limit fuel done left) tail)
        (ack_requests buffer base limit fuel done left)
unfolding ack_requests server_answers
server-Acknowledges mem buffer base limit tail zero done left hl lo f = absurd (omega arith)
server-Acknowledges mem buffer base limit tail (suc fuel) done left hl lo f =
    elim (Bool-cases (leb left limit)) [
      | inl e ↦
          let fits : left ≤ limit = ground arith in
          let request = write_request (drop done buffer) (add32 base done) left in
          rw (e, ack_requests)
            (subst (λ v. Acknowledges buffer base limit tail done left v (request ∷ []))
              (sym (ack_step mem (drop done buffer) (add32 base done) left [] tail))
              (final done left 0 lo fits))
      | inr e ↦
          let more : limit < left = ground arith in
          let whole : limit + (left - limit) ≡ left = omega (arith, more) in
          let request = write_request (drop done buffer) (add32 base done) limit in
          let requests = ack_requests buffer base limit fuel (done + limit) (left - limit) in
          let events = server_answers (memory_after mem request) requests tail in
          rw (e, ack_requests)
            (subst (λ v. Acknowledges buffer base limit tail done left v (request ∷ requests))
              (sym (ack_step mem (drop done buffer) (add32 base done) limit requests tail))
              (subst
                (λ n.
                  Acknowledges buffer base limit tail done n
                    (record { after = 0; what = bytes ok_answer } ∷ events) (request ∷ requests))
                whole
                (further done (left - limit) 0 events requests hl (omega (arith, more)) (
                  server-Acknowledges (memory_after mem request) buffer base limit tail fuel
                    (done + limit) (left - limit) hl (omega (arith, more))
                    (omega (arith, f, hl))))))
    ]

All-take : (n : ℕ) (xs : List ℕ) → All IsByte xs → All IsByte (take n xs)
All-take zero xs h = tt
All-take (suc n) [] h = tt
All-take (suc n) (x ∷ xs) h = (h.0, All-take n xs h.1)

All-drop : (n : ℕ) (xs : List ℕ) → All IsByte xs → All IsByte (drop n xs)
All-drop zero xs h = h
All-drop (suc n) [] h = tt
All-drop (suc n) (x ∷ xs) h = All-drop n xs h.1

-- One packet extends what the server holds of the buffer.
one_more_packet :
    (mem : ℕ → ℕ) (base : ℕ) (buffer : List ℕ) (done n : ℕ)
    → done + n ≤ length buffer
    → length buffer ≤ 2 ^ 32
    → memory_block mem base 0 done ≡ take done buffer
    → memory_block (stored mem (add32 base done) (take n (drop done buffer))) base 0 (done + n)
      ≡ take (done + n) buffer
one_more_packet mem base buffer done n fits small h =
    let part = take n (drop done buffer) in
    let mem1 = stored mem (add32 base done) part in
    let size : length part ≡ n =
      omega (arith, fits, length-take n (drop done buffer), length-drop done buffer) in
    let here : done + 0 ≡ done = omega arith in
    let front : 0 + done ≡ done = omega arith in
    let there : memory_block mem1 base done n ≡ part =
      sym (ap (λ d. memory_block mem1 base d n) here)
      ∙ sym (memory_block-from mem1 base done 0 n)
      ∙ memory_block-stored mem (add32 base done) part n 0 (omega arith)
          (omega (arith, size, fits, small)) (omega (arith, size)) in
    memory_block-add mem1 base 0 done n
    ∙ ap (λ d. memory_block mem1 base 0 done ++ memory_block mem1 base d n) front
    ∙ ap (λ l. l ++ memory_block mem1 base done n)
        (memory_block_in_front mem base done 0 done part (omega arith)
            (omega (arith, size, fits, small))
          ∙ h)
    ∙ ap (λ l. take done buffer ++ l) there
    ∙ sym (take-add done n buffer)

written_step :
    (mem : ℕ → ℕ) (base : ℕ) (buffer : List ℕ) (done n : ℕ)
    → All IsByte buffer
    → n < 2 ^ 32
    → done + n ≤ length buffer
    → memory_after mem (write_request (drop done buffer) (add32 base done) n)
      ≡ stored mem (add32 base done) (take n (drop done buffer))
written_step mem base buffer done n b small fits =
    memory_after-write_request mem (drop done buffer) (add32 base done) n (omega arith) small
      (omega (arith, fits, length-drop done buffer)) (All-drop done buffer b)

-- What the server holds behind the requests of a write.
record Holds (mem : ℕ → ℕ) (base : ℕ) (buffer : List ℕ) (done : ℕ) : Type 0 where
  holds_bytes : (a : ℕ) → IsByte (mem a)
  holds_part : memory_block mem base 0 done ≡ take done buffer

memory_after-Holds :
    (mem : ℕ → ℕ) (base : ℕ) (buffer : List ℕ) (done n : ℕ)
    → All IsByte buffer
    → n < 2 ^ 32
    → done + n ≤ length buffer
    → length buffer ≤ 2 ^ 32
    → Holds mem base buffer done
    → Holds
        (memory_after mem (write_request (drop done buffer) (add32 base done) n))
        base
        buffer
        (done + n)
memory_after-Holds mem base buffer done n b little fits small h =
    let part = take n (drop done buffer) in
    subst (λ m. Holds m base buffer (done + n))
      (sym (written_step mem base buffer done n b little fits))
      (record {
        holds_bytes =
            stored-IsByte mem (add32 base done) part h.holds_bytes
              (All-take n (drop done buffer) (All-drop done buffer b));
        holds_part = one_more_packet mem base buffer done n fits small h.holds_part;
      })

nothing_yet : (mem : ℕ → ℕ) (base : ℕ) (buffer : List ℕ) → memory_block mem base 0 0 ≡ take 0 buffer
unfolding memory_block
nothing_yet mem base buffer = refl

memory_after_all-Holds :
    (mem : ℕ → ℕ) (base limit : ℕ) (buffer : List ℕ) (fuel done left : ℕ)
    → All IsByte buffer
    → length buffer ≤ 2 ^ 32
    → (0 < limit) × (limit ≤ 32757)
    → left ≤ fuel
    → done + left ≡ length buffer
    → Holds mem base buffer done
    → Holds
        (memory_after_all mem (ack_requests buffer base limit fuel done left))
        base
        buffer
        (length buffer)
unfolding ack_requests memory_after_all
memory_after_all-Holds mem base limit buffer zero done left b small hl f e h =
    let all : done ≡ length buffer = omega (arith, f, e) in subst (Holds mem base buffer) all h
memory_after_all-Holds mem base limit buffer (suc fuel) done left b small hl f e h =
    elim (Bool-cases (leb left limit)) [
      | inl e1 ↦
          let fits : left ≤ limit = ground arith in
          rw (e1, ack_requests)
            (subst
              (Holds (memory_after mem (write_request (drop done buffer) (add32 base done) left))
                base buffer)
              e
              (memory_after-Holds mem base buffer done left b (omega (arith, fits, hl))
                (omega (arith, e)) small h))
      | inr e1 ↦
          let behind : limit < left = ground arith in
          rw (e1, ack_requests)
            (memory_after_all-Holds
              (memory_after mem (write_request (drop done buffer) (add32 base done) limit)) base
              limit buffer fuel (done + limit) (left - limit) b small hl (omega (arith, f, hl))
              (omega (arith, behind, e))
              (memory_after-Holds mem base buffer done limit b (omega (arith, hl))
                (omega (arith, behind, e)) small h))
    ]

-- The requests of a write of the buffer, and of a read of the same bytes.
abbrev pub write_and_read : ℕ → ℕ → ℕ → List ℕ → List (List ℕ)
write_and_read write_limit read_limit base buffer =
    ack_requests buffer base write_limit (length buffer) 0 (length buffer)
    ++ server_requests base read_limit (length buffer) 0 (length buffer)

-- A connection to a server with this memory, and the packet sizes in force.
pub record IsStoring (mem : ℕ → ℕ) (base : ℕ) (buffer : List ℕ) (s : State) : Type 0 where
  pub accepts : s.gdb.send_events ≡ []
  pub quiet : s.gdb.ack_mode_enabled ≡ false
  pub write_limit :
      (0 < s.gdb.max_memo_write_packet_size) × (s.gdb.max_memo_write_packet_size ≤ 32757)
  pub read_limit : (0 < s.gdb.max_memo_read_packet_size) × (s.gdb.max_memo_read_packet_size ≤ 32764)
  pub comes :
      s.gdb.recv_events
      ≡ server_answers mem
          (write_and_read s.gdb.max_memo_write_packet_size s.gdb.max_memo_read_packet_size base
            buffer)
          []

-- What is written is read, over a connection without acknowledgements to a server that holds a memory of
-- bytes, finds addresses, sizes and data in the requests, stores the data of a write and answers a read
-- in lower case from what it holds then: `gdb_write_memory` of a buffer that is not empty succeeds, and
-- `gdb_read_memory` of the same place then returns the buffer. The requests that the server answered are
-- the requests that were sent. The packet sizes are from 1 to 32757 and to 32764; addresses may wrap around
-- at 2 ^ 32.
pub gdb_read_memory-gdb_write_memory :
    (mem : ℕ → ℕ) (base : ℕ) (buffer : List ℕ) (s : State)
    → ((a : ℕ) → IsByte (mem a))
    → All IsByte buffer
    → 0 < length buffer
    → length buffer ≤ 2 ^ 32
    → IsStoring mem base buffer s
    → ((gdb_write_memory buffer base (length buffer) s).0 ≡ ok)
      × ((gdb_read_memory base (length buffer) (gdb_write_memory buffer base (length buffer) s).1).0
          ≡ (ok, buffer))
      × ((gdb_read_memory base
            (length buffer)
            (gdb_write_memory buffer base (length buffer) s).1).1.gdb.sent
          ≡ s.gdb.sent
            ++ write_and_read s.gdb.max_memo_write_packet_size s.gdb.max_memo_read_packet_size base
                buffer)
gdb_read_memory-gdb_write_memory mem base buffer s m b lo small h =
    let n = length buffer in
    let s1 = (gdb_write_memory buffer base n s).1 in
    let read_limit = s.gdb.max_memo_read_packet_size in
    let write_limit = s.gdb.max_memo_write_packet_size in
    let writes = ack_requests buffer base write_limit n 0 n in
    let reads = server_requests base read_limit n 0 n in
    let mem1 = memory_after_all mem writes in
    let later = server_answers mem1 reads [] in
    let held : Holds mem1 base buffer n =
      memory_after_all-Holds mem base write_limit buffer n 0 n b small h.write_limit (omega arith)
        (omega arith) (record { holds_bytes = m; holds_part = nothing_yet mem base buffer }) in
    let w : Writes (gdb_write_memory buffer base n s) writes later s =
      gdb_write_memory-Acknowledges s
        (server-Acknowledges mem buffer base write_limit later n 0 n h.write_limit.0 lo
          (omega arith))
        h.write_limit.1
        (record {
          accepts = h.accepts;
          quiet = h.quiet;
          comes = h.comes ∙ server_answers-append mem writes reads [];
          packet = refl;
        }) in
    let r =
      gdb_read_memory-memory_block mem1 base read_limit n [] s1 held.holds_bytes lo h.read_limit.0
        h.read_limit.1
        (record {
          accepts = w.3.0 ∙ h.accepts;
          quiet = w.3.1 ∙ h.quiet;
          comes = w.2;
          packet = w.3.2;
        }) in
    (
      w.0,
      r.0 ∙ ap (λ (l : List ℕ). (ok, l)) (held.holds_part ∙ take_all n buffer (omega arith)),
      r.1 ∙ ap (λ (l : List (List ℕ)). l ++ reads) w.1 ∙ append_assoc s.gdb.sent writes reads,
    )
