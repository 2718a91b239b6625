-- ===== src/App/Buffer/File.antt =====
-- The binary file, and the attempts to open it.
use rteget_data_linux_compat.App.Buffer.{
  access_denied, open_bin_file, open_with_retries, retry_open, save_block, store_block,
  write_bin_file,
}
use rteget_data_linux_compat.Prelude.{
  Bool-cases, List, Option, [], ap, arith, blit, drop, drop_all, if◌then◌else◌, inl, inr, length,
  none, refl, some, suc, sym, take, take-append, word_bytes, zero, ℕ, ◌++◌, ◌+◌, ◌==◌, ◌∙◌, ◌∷◌,
  ◌≡◌, ◌≤◌,
}
use rteget_data_linux_compat.State.{Block, Parameters, State, Status, error, ok, pure}

-- What an attempt to open the file leaves alone.
record Unopened (s s1 : State) : Type 0 where
  filter : s1.old_msg_filter ≡ s.old_msg_filter
  parameters : s1.parameters ≡ s.parameters
  room : s1.host.bin_room ≡ s.host.bin_room

opened : (s : State) → Unopened s (open_bin_file s).1
unfolding open_bin_file
opened s = record { filter = refl; parameters = refl; room = refl }

retry_open-Unopened : (n rez : ℕ) (s : State) → Unopened s (retry_open n rez s).1
unfolding retry_open
retry_open-Unopened zero rez s = record { filter = refl; parameters = refl; room = refl }
retry_open-Unopened (suc n) rez s =
    let s1 : State = record s { now = s.now + 100 } in
    elim (Bool-cases ((open_bin_file s1).0 == 0)) [
      | inl e ↦ rw (e, retry_open) (record { filter = refl; parameters = refl; room = refl })
      | inr e ↦
          rw (e, retry_open)
            (let h = retry_open-Unopened n (open_bin_file s1).0 (open_bin_file s1).1 in
              record { filter = h.filter; parameters = h.parameters; room = h.room })
    ]

-- The file's image: the structure, with the saved filter in its second word.
abbrev pub file_image : List ℕ → ℕ → List ℕ
file_image bs filter = take 4 bs ++ (word_bytes filter ++ drop 8 bs)

blit_lem : (buf bs : List ℕ) → blit buf 0 bs ≡ bs ++ drop (length bs) buf
blit_lem buf [] = refl
blit_lem [] (b ∷ bs) =
    ap (λ l. b ∷ l) (blit_lem [] bs ∙ ap (λ l. bs ++ l) (drop_all (length bs) [] (omega arith)))
blit_lem (a ∷ buf) (b ∷ bs) = ap (λ l. b ∷ l) (blit_lem buf bs)

-- A word over the second word of what was read.
word_over :
    (tail bs : List ℕ) (filter : ℕ)
    → 8 ≤ length bs
    → take (length bs) (blit (bs ++ tail) 4 (word_bytes filter)) ≡ file_image bs filter
unfolding word_bytes
word_over tail [] filter lo = absurd (omega arith)
word_over tail (a ∷ []) filter lo = absurd (omega arith)
word_over tail (a ∷ b ∷ []) filter lo = absurd (omega arith)
word_over tail (a ∷ b ∷ c ∷ []) filter lo = absurd (omega arith)
word_over tail (a ∷ b ∷ c ∷ d ∷ []) filter lo = absurd (omega arith)
word_over tail (a ∷ b ∷ c ∷ d ∷ e ∷ []) filter lo = absurd (omega arith)
word_over tail (a ∷ b ∷ c ∷ d ∷ e ∷ f ∷ []) filter lo = absurd (omega arith)
word_over tail (a ∷ b ∷ c ∷ d ∷ e ∷ f ∷ g ∷ []) filter lo = absurd (omega arith)
word_over tail (a ∷ b ∷ c ∷ d ∷ e ∷ f ∷ g ∷ h ∷ bs) filter lo =
    ap (λ l. a ∷ b ∷ c ∷ d ∷ (word_bytes filter ++ l)) (take-append bs tail)

open_with_retries-Unopened : (s : State) → Unopened s (open_with_retries s).1
unfolding open_with_retries
open_with_retries-Unopened s = elim (Bool-cases ((open_bin_file s).0 == access_denied)) [
  | inl e ↦
      rw (e, open_with_retries)
        (let h = retry_open-Unopened 9 (open_bin_file s).0 (open_bin_file s).1 in
          record { filter = h.filter; parameters = h.parameters; room = h.room })
  | inr e ↦ rw (e, open_with_retries) (record { filter = refl; parameters = refl; room = refl })
]

write_bin_file-image :
    (buf bs : List ℕ) (s : State)
    → length bs ≡ s.parameters.size
    → 8 ≤ length bs
    → s.host.bin_room ≡ none
    → write_bin_file (blit buf 0 bs) s
      ≡ (ok, record s { host = record s.host { bin_file = some (file_image bs s.old_msg_filter) } })
unfolding write_bin_file
write_bin_file-image buf bs s e lo room =
    rw (room, write_bin_file)
      (ap (λ l. (ok, record s { host = record s.host { bin_file = some l } }))
          (ap (λ n. take n (blit (blit buf 0 bs) 4 (word_bytes s.old_msg_filter))) (sym e)
            ∙ ap (λ l. take (length bs) (blit l 4 (word_bytes s.old_msg_filter))) (blit_lem buf bs)
            ∙ word_over (drop (length bs) buf) bs s.old_msg_filter lo)
        ∙ ap
            (λ (r : Option ℕ). (
              ok,
              record s {
                host = record s.host {
                  bin_room = r;
                  bin_file = some (file_image bs s.old_msg_filter);
                };
              },
            ))
            room)

-- A structure that was read whole, into a file that opens and takes all: the file holds the bytes that were
-- read, but in the place of the message filter's word the filter from before the transfer.
pub save_block-image :
    (b : Block) (bs : List ℕ) (s : State)
    → length bs ≡ s.parameters.size
    → 8 ≤ length bs
    → (open_with_retries (store_block b bs s)).0 ≡ 0
    → s.host.bin_room ≡ none
    → ((save_block b (ok, bs) s).0 ≡ ok)
      × ((save_block b (ok, bs) s).1.host.bin_file ≡ some (file_image bs s.old_msg_filter))
unfolding save_block store_block
save_block-image b bs s e lo opens room =
    let s0 = store_block b bs s in
    let s1 = (open_with_retries s0).1 in
    let u = open_with_retries-Unopened s0 in
    let whole : save_block b (ok, bs) s ≡ (
      ok,
      record s1 { host = record s1.host { bin_file = some (file_image bs s1.old_msg_filter) } },
    ) =
      ap (λ (rez : ℕ). (if rez == 0 then write_bin_file (blit b.contents 0 bs) else pure error) s1)
        opens
      ∙ write_bin_file-image b.contents bs s1
          (e ∙ ap (λ (q : Parameters). q.size) (sym u.parameters)) lo (u.room ∙ room) in
    (
      ap (λ (r : Status × State). r.0) whole,
      ap (λ (r : Status × State). r.1.host.bin_file) whole
          ∙ ap (λ (f : ℕ). some (file_image bs f)) u.filter,
    )
