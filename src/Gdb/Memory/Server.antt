-- ===== src/Gdb/Memory/Server.antt =====
-- `gdb_read_memory` against a server that holds a memory and reads the requests.
use rteget_data_linux_compat.Gdb.Memory.{gdb_read_memory}
use rteget_data_linux_compat.Gdb.Memory.Answers.{
  answer, answer-read_request, memory_after, memory_after-read_request, server_answers,
}
use rteget_data_linux_compat.Gdb.Memory.Block.{
  length-memory_block, memory_block, memory_block-IsByte, memory_block-add, memory_block-from,
}
use rteget_data_linux_compat.Gdb.Memory.Read.{
  IsReading, Reads, Serves, gdb_read_memory-Serves, last, more,
}
use rteget_data_linux_compat.Gdb.Packet.{read_request}
use rteget_data_linux_compat.Gdb.Packet.Reply.{reply}
use rteget_data_linux_compat.Prelude.{
  Bool-cases, IsByte, IsU32, List, [], add32, ap, arith, false, if◌then◌else◌, inl, inr, leb,
  length, refl, suc, sym, zero, ℕ, ◌++◌, ◌+◌, ◌-◌, ◌<◌, ◌∙◌, ◌∷◌, ◌≡◌, ◌≤◌,
}
use rteget_data_linux_compat.State.{RecvEvent, State, bytes}
use mathlib.Core.Path.{subst}

-- The requests for `left` bytes from offset `done` on, in packets of `limit` bytes at most.
module _ (base limit : ℕ) where
  unfoldable pub server_requests : ℕ → ℕ → ℕ → List (List ℕ)
  unfolding read_request
  server_requests zero done left = []
  server_requests (suc fuel) done left =
      let others = server_requests fuel (done + limit) (left - limit) in
      if leb left limit
      then read_request (add32 base done) left ∷ []
      else read_request (add32 base done) limit ∷ others

-- The server's answer to the request for the next `n` bytes.
next_answer :
    (mem : ℕ → ℕ) (base done n : ℕ)
    → IsU32 n
    → answer mem (read_request (add32 base done) n) ≡ reply false (memory_block mem base done n)
next_answer mem base done n h =
    let here : done + 0 ≡ done = omega arith in
    answer-read_request mem (add32 base done) n (omega arith) h
    ∙ ap (reply false) (memory_block-from mem base done 0 n)
    ∙ ap (λ k. reply false (memory_block mem base k n)) here

-- The server's answers to one request and those behind it.
answers_step :
    (mem : ℕ → ℕ) (base done n : ℕ) (requests : List (List ℕ)) (tail : List RecvEvent)
    → IsU32 n
    → server_answers mem (read_request (add32 base done) n ∷ requests) tail
      ≡ record { after = 0; what = bytes (reply false (memory_block mem base done n)) }
        ∷ server_answers mem requests tail
unfolding server_answers
answers_step mem base done n requests tail h =
    ap
      (λ r.
        record { after = 0; what = bytes r }
        ∷ server_answers (memory_after mem (read_request (add32 base done) n)) requests tail)
      (next_answer mem base done n h)
    ∙ ap
        (λ m.
          record { after = 0; what = bytes (reply false (memory_block mem base done n)) }
          ∷ server_answers m requests tail)
        (memory_after-read_request mem (add32 base done) n)

module _ {base limit : ℕ} {tail : List RecvEvent} where
  last_served :
      (done n : ℕ) (bs : List ℕ)
      → length bs ≡ n
      → 0 < n
      → n ≤ limit
      → Serves base limit tail done bs
          (record { after = 0; what = bytes (reply false bs) } ∷ tail)
          (read_request (add32 base done) n ∷ [])
  last_served done n bs e lo hi =
      subst
        (λ m.
          Serves base limit tail done bs
            (record { after = 0; what = bytes (reply false bs) } ∷ tail)
            (read_request (add32 base done) m ∷ []))
        e (last done bs 0 (omega (arith, e)) (omega (arith, e)))

  more_served :
      (done n : ℕ) (bs left whole : List ℕ) (events : List RecvEvent) (requests : List (List ℕ))
      → n ≡ limit
      → whole ≡ bs ++ left
      → length bs ≡ n
      → 0 < n
      → 0 < length left
      → Serves base limit tail (done + n) left events requests
      → Serves base limit tail done whole
          (record { after = 0; what = bytes (reply false bs) } ∷ events)
          (read_request (add32 base done) n ∷ requests)
  more_served done n bs left whole events requests full w e lo pos v =
      subst
        (λ m.
          Serves base limit tail done whole
            (record { after = 0; what = bytes (reply false bs) } ∷ events)
            (read_request (add32 base done) m ∷ requests))
        e
        (more done bs left whole 0 events requests w (e ∙ full) (omega (arith, e)) pos
          (subst (λ m. Serves base limit tail (done + m) left events requests) (sym e) v))

server-Serves :
    (mem : ℕ → ℕ) (base limit : ℕ) (tail : List RecvEvent) (fuel done left : ℕ)
    → 0 < limit
    → limit ≤ 32764
    → 0 < left
    → left ≤ fuel
    → Serves base limit tail done
        (memory_block mem base done left)
        (server_answers mem (server_requests base limit fuel done left) tail)
        (server_requests base limit fuel done left)
unfolding server_requests server_answers
server-Serves mem base limit tail zero done left hl hi lo f = absurd (omega arith)
server-Serves mem base limit tail (suc fuel) done left hl hi lo f =
    elim (Bool-cases (leb left limit)) [
      | inl e ↦
          let fits : left ≤ limit = ground arith in
          let block = memory_block mem base done left in
          let request = read_request (add32 base done) left in
          rw (e, server_requests)
            (subst (λ v. Serves base limit tail done block v (request ∷ []))
              (sym (answers_step mem base done left [] tail (omega (arith, fits, hi))))
              (last_served done left block (length-memory_block mem base done left) lo fits))
      | inr e ↦
          let behind : limit < left = ground arith in
          let whole : left ≡ limit + (left - limit) = omega (arith, behind) in
          let request = read_request (add32 base done) limit in
          let requests = server_requests base limit fuel (done + limit) (left - limit) in
          rw (e, server_requests)
            (subst
              (λ v.
                Serves base limit tail done (memory_block mem base done left) v
                  (request ∷ requests))
              (sym (answers_step mem base done limit requests tail (omega (arith, hi))))
              (more_served done limit (memory_block mem base done limit)
                (memory_block mem base (done + limit) (left - limit))
                (memory_block mem base done left) (server_answers mem requests tail) requests refl
                (ap (memory_block mem base done) whole
                  ∙ memory_block-add mem base done limit (left - limit))
                (length-memory_block mem base done limit) hl
                (omega (arith, length-memory_block mem base (done + limit) (left - limit), behind))
                (server-Serves mem base limit tail fuel (done + limit) (left - limit) hl hi
                  (omega (arith, behind)) (omega (arith, f, hl)))))
    ]

-- Against a server that holds any memory of bytes, reads the address and the size in each request and
-- answers in lower case, each answer in one segment: without acknowledgements, over a socket that takes all
-- that is sent, and with any packet size from 1 to 32764, `gdb_read_memory` returns the bytes of the memory
-- from the address on, as many as were asked for. The requests that the server answered are the requests
-- that were sent, and later messages stay unread.
pub gdb_read_memory-memory_block :
    (mem : ℕ → ℕ) (base limit size : ℕ) (tail : List RecvEvent) (s : State)
    → ((a : ℕ) → IsByte (mem a))
    → 0 < size
    → 0 < limit
    → limit ≤ 32764
    → IsReading limit (server_answers mem (server_requests base limit size 0 size) tail) s
    → Reads
        (gdb_read_memory base size s)
        (memory_block mem base 0 size)
        (server_requests base limit size 0 size)
        tail
        s
gdb_read_memory-memory_block mem base limit size tail s b pos lo hi h =
    let block = memory_block mem base 0 size in
    subst
      (λ n. Reads (gdb_read_memory base n s) block (server_requests base limit size 0 size) tail s)
      (length-memory_block mem base 0 size)
      (gdb_read_memory-Serves s
        (server-Serves mem base limit tail size 0 size lo hi pos (omega arith)) hi
        (memory_block-IsByte mem base 0 size b) h)
